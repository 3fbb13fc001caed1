-- ===== src/Workspace/Tree/Directories.antt =====
-- `createDirectory` keeps the tree (apps/web/src/workspace.js).
use mathlib.Core.List.{append_assoc}
use wasm_host.Prelude.{
  ℕ, Text, Bool, true, false, ◌≡◌, refl, sym, ap, ◌∙◌, List, [], ◌∷◌, ◌++◌, All, Option, none,
  Option-cases, inl, inr, is_empty, is_some, join, subst,
}
use wasm_host.Prelude.Exec.{
  Result, ok, err, After, After-lift, After-gets, After-modify, After-throw_if, After-if,
  After-bind, After-weaken, continue,
}
use wasm_host.Prelude.Dict.{get, has}
use wasm_host.Workspace.Path.{ErrorKind, slash, NormalPath, normalize_workspace_path}
use wasm_host.Workspace.Path.Normal.{IsPart, IsNormal, normalize-IsNormal, split-join}
use wasm_host.Workspace.Store.{
  Host, Store, nonempty_parts, ensure_directory, directory_stat, create_directory,
}
use wasm_host.Workspace.Tree.{
  IsTree, tick-IsTree, Steady, SameTree, unchanged, only_ticked, Outcome, put_directory-IsTree,
  After-require, After-current_time,
}
use wasm_host.Workspace.Tree.Creates.{Made, descend, ensure_parts-Made, has_self}

join-merge :
    (p q : Text) (ps : List Text) → join slash ((p ++ (slash ∷ q)) ∷ ps) ≡ join slash (p ∷ q ∷ ps)
unfolding join
join-merge p q [] = refl
join-merge p q (r ∷ ps) = append_assoc p (slash ∷ q) (slash ∷ join slash (r ∷ ps))

descend-join :
    (c : ℕ) (current : Text) (ps : List Text)
    → descend (c ∷ current) ps ≡ join slash ((c ∷ current) ∷ ps)
unfolding join
descend-join c current [] = refl
descend-join c current (p ∷ ps) =
    descend-join c (current ++ (slash ∷ p)) ps ∙ join-merge (c ∷ current) p ps

descend-root : (ps : List Text) → All IsPart ps → descend [] ps ≡ join slash ps
unfolding join
descend-root [] h = refl
descend-root ([] ∷ ps) h = cc h.0.nonempty
descend-root ((c ∷ p) ∷ ps) h = descend-join c p ps

nonempty_parts-All : (ps : List Text) → All IsPart ps → nonempty_parts ps ≡ ps
nonempty_parts-All [] h = refl
nonempty_parts-All (p ∷ ps) h = rw h.0.nonempty (ap (◌∷◌ p) (nonempty_parts-All ps h.1))

no_parts : is_empty (join slash []) ≡ false → ⊥
unfolding join
no_parts e = cc

no_record : {V : Type 0} {o : Option V} → o ≡ none → is_some o ≡ true → ⊥
no_record e h = cc (rw e at h)

module _ (host : Host) where
  ensure_directory-parts :
      (parts : List Text) (s : Store)
      → IsTree s
      → All IsPart parts
      → is_empty (join slash parts) ≡ false
      → After
          (Made (λ u. Steady host → SameTree s u) (join slash parts))
          (ensure_directory host (join slash parts))
          s
  unfolding ensure_directory
  ensure_directory-parts [] s t h e = absurd (no_parts e)
  ensure_directory-parts (p ∷ ps) s t h e =
      rw (split-join p ps h, nonempty_parts-All (p ∷ ps) h, ← descend-root (p ∷ ps) h)
        (ensure_parts-Made host [] (p ∷ ps) s t t.root h)

  ensure_directory-Made :
      (n : NormalPath) (s : Store)
      → IsTree s
      → IsNormal n
      → is_empty n.relative_path ≡ false
      → After
          (Made (λ u. Steady host → SameTree s u) n.relative_path)
          (ensure_directory host n.relative_path)
          s
  ensure_directory-Made n s t normal e =
      let p = ap (λ (m : NormalPath). m.relative_path) normal.joined in
      subst (λ k. After (Made (λ u. Steady host → SameTree s u) k) (ensure_directory host k) s)
        (sym p) (ensure_directory-parts normal.parts s t normal.each (ap is_empty (sym p) ∙ e))

  directory_stat-Outcome :
      (C : Type 0) (n : NormalPath) (s u : Store)
      → IsTree u
      → has n.relative_path u.directories ≡ true
      → After (Outcome C s) (directory_stat n) u
  unfolding directory_stat
  directory_stat-Outcome C n s u t here = elim (Option-cases (get n.relative_path u.directories)) [
    | inl e ↦ absurd (no_record e here)
    | inr (r, e) ↦ record { ends = rw (e, directory_stat) t }
  ]

  pub create_directory-Outcome :
      (path : Text) (recursive : Bool) (s : Store)
      → IsTree s
      → After (Outcome (Steady host) s) (create_directory host path recursive) s
  unfolding create_directory
  create_directory-Outcome path recursive s t =
      After-lift (normalize_workspace_path path) _ s (λ _ _. unchanged _ t)
        λ n normal. After-gets _ _ s (
          After-if (is_empty n.relative_path) _ _ s
            (λ e. directory_stat-Outcome _ n s s t (at_root n.relative_path e s t))
            λ below.
              After-throw_if (has n.relative_path s.files) _ _ s (λ _. unchanged _ t)
                λ no_file.
                  After-if recursive _ _ s
                    (λ _. After-bind _ _ s (
                      After-weaken _ s (λ r u. then_stat n s r u)
                        (ensure_directory-Made n s t (normalize-IsNormal path n normal) below)))
                    λ _.
                      After-require n.relative_path _ s (λ _. unchanged _ t)
                        λ _ parent.
                          After-throw_if (has n.relative_path s.directories) _ _ s
                            (λ _. unchanged _ t)
                            λ _.
                              After-current_time host _ s (λ _ _. only_ticked _ t)
                                λ time. After-modify _ _ _ (
                                  directory_stat-Outcome _ n s _
                                    (put_directory-IsTree n.relative_path _ no_file parent
                                      (tick-IsTree t))
                                    (has_self n.relative_path _ s.directories)))
    where
      at_root : (k : Text) → is_empty k ≡ true → (s : Store) → IsTree s → has k s.directories ≡ true
      at_root [] e s t = t.root
      at_root (c ∷ k) e s t = cc

      then_stat :
          (n : NormalPath) (s : Store) (r : Result ErrorKind (Unit {0})) (u : Store)
          → Made (λ u. Steady host → SameTree s u) n.relative_path r u
          → After (Outcome (Steady host) s) (λ v. continue r (λ _. directory_stat n) v) u
      then_stat n s (ok a) u m = record {
        ends = (directory_stat-Outcome (Steady host) n s u m.0 m.1).ends;
      }
      then_stat n s (err e) u m = record { ends = m }
