-- ===== src/Workspace/Tree/Creates.antt =====
-- `ensureDirectory` and `createDirectory` keep the tree (apps/web/src/workspace.js).
use wasm_host.Prelude.{
  ℕ, Text, true, false, ◌≡◌, ◌≢◌, sym, ap, ◌∙◌, List, [], ◌∷◌, ◌⊎◌, inl, inr, All, text_eq_iff,
  arith, is_some,
}
use wasm_host.Prelude.Exec.{
  Result, ok, err, After, After-pure, After-gets, After-modify, After-throw_if, After-if,
  After-weaken,
}
use wasm_host.Prelude.Dict.{Dict, has, set, has-set, get-set_self}
use wasm_host.Workspace.Path.{ErrorKind, parent_path}
use wasm_host.Workspace.Path.Laws.{parent-plain, parent-append_plain, append_longer}
use wasm_host.Workspace.Path.Normal.{IsPart}
use wasm_host.Workspace.Store.{
  Host, Store, DirectoryRecord, put_directory, append_part, ensure_parts, non_negative_time,
}
use wasm_host.Workspace.Tree.{
  IsTree, tick, tick-IsTree, Steady, SameTree, unchanged, only_ticked, put_directory-IsTree,
  After-current_time,
}

parent-append_part :
    (current part : Text) → IsPart part → parent_path (append_part current part) ≡ current
parent-append_part [] part h = parent-plain part h.plain.no_slash
parent-append_part (c ∷ current) part h = parent-append_plain (c ∷ current) part h.plain.no_slash

append_part-ne : (current part : Text) → IsPart part → append_part current part ≢ current
append_part-ne [] part h e = cc (rw e at h.nonempty)
append_part-ne (c ∷ current) part h e = append_longer (c ∷ current) part e

pub has_self : {V : Type 0} (k : Text) (v : V) (d : Dict V) → has k (set k v d) ≡ true
has_self k v d = ap is_some (get-set_self k v d)

-- Nothing lies directly in the directory.
record IsFree (current : Text) (s : Store) : Type 0 where
  no_file : (k : Text) → has k s.files ≡ true → parent_path k ≢ current
  no_directory : (k : Text) → has k s.directories ≡ true → parent_path k ≢ current

abbrev created : Text → DirectoryRecord → Store → Store
created k r s = put_directory k r (tick s)

module _ {s : Store} (t : IsTree s) (current part : Text) (h : IsPart part) where
  abbrev next : Text
  next = append_part current part

  created-IsTree :
      (r : DirectoryRecord)
      → has current s.directories ≡ true
      → has next s.files ≡ false
      → IsTree (created next r s)
  created-IsTree r here free =
      put_directory-IsTree next r free
        (ap (λ k. has k s.directories) (parent-append_part current part h) ∙ here) (tick-IsTree t)

  -- No directory, nor the new one itself, lies in the new one.
  created_parent :
      (k : Text)
      → parent_path k ≡ next
      → (next ≡ k) ⊎ (has k s.directories ≡ true)
      → DirectoryRecord
      → has next s.directories ≡ false
      → ⊥
  created_parent k e (inl same) r new =
      append_part-ne current part h
        (sym e ∙ ap parent_path (sym same) ∙ parent-append_part current part h)
  created_parent k e (inr old) r new = cc (new, sym (t.directory_parent k old), e)

  -- A new directory is empty.
  created-IsFree :
      (r : DirectoryRecord) → has next s.directories ≡ false → IsFree next (created next r s)
  created-IsFree r new = record {
    no_file = λ k f e. cc (new, sym (t.file_parent k f), e);
    no_directory = λ k d e.
        created_parent k e (ground (arith, has-set next k r s.directories, text_eq_iff next k)) r
          new;
  }

-- A call that returns has made the directory; one that throws leaves a tree of which `F` holds.
abbrev pub Made : {A : Type 0} → (Store → Type 0) → Text → Result ErrorKind A → Store → Type 0
Made F path (ok a) t = IsTree t × (has path t.directories ≡ true)
Made F path (err e) t = IsTree t × F t

-- The path that `ensureDirectory` reaches from a directory by the parts that are left.
abbrev pub descend : Text → List Text → Text
descend current [] = current
descend current (part ∷ parts) = descend (append_part current part) parts

module _ (host : Host) where
  abbrev Unsteady : Store → Type 0
  Unsteady _ = Steady host → ⊥

  pub failed : {e : ErrorKind} (k : ℕ) → non_negative_time (host.now k) ≡ err e → Steady host → ⊥
  failed k h steady = let (time, good) = steady k in cc

  -- Below an empty directory only the clock can throw.
  ensure_free :
      (current : Text) (parts : List Text) (s : Store)
      → IsTree s
      → has current s.directories ≡ true
      → IsFree current s
      → All IsPart parts
      → After (Made Unsteady (descend current parts)) (ensure_parts host current parts) s
  unfolding ensure_parts
  ensure_free current [] s t here free h = After-pure _ s (t, here)
  ensure_free current (part ∷ parts) s t here free h =
      let next = append_part current part in
      let up = parent-append_part current part h.0 in
      After-gets _ _ s (
        After-throw_if (has next s.files) _ _ s (λ f. absurd (free.no_file next f up))
          λ no_file.
            After-if (has next s.directories) _ _ s (λ d. absurd (free.no_directory next d up))
              λ new.
                After-current_time host _ s (λ _ k. (tick-IsTree t, failed s.readings k))
                  λ time. After-modify _ _ _ (
                    ensure_free next parts _ (created-IsTree t current part h.0 _ here no_file)
                      (has_self next _ s.directories) (created-IsFree t current part h.0 _ new)
                      h.1))

  -- A directory that was there is passed by; below the first new one all is new.
  pub ensure_parts-Made :
      (current : Text) (parts : List Text) (s : Store)
      → IsTree s
      → has current s.directories ≡ true
      → All IsPart parts
      → After
          (Made (λ u. Steady host → SameTree s u) (descend current parts))
          (ensure_parts host current parts)
          s
  unfolding ensure_parts
  ensure_parts-Made current [] s t here h = After-pure _ s (t, here)
  ensure_parts-Made current (part ∷ parts) s t here h =
      let next = append_part current part in
      After-gets _ _ s (
        After-throw_if (has next s.files) _ _ s (λ _. unchanged _ t)
          λ no_file.
            After-if (has next s.directories) _ _ s (λ d. ensure_parts-Made next parts s t d h.1)
              λ new.
                After-current_time host _ s (λ _ _. only_ticked _ t)
                  λ time. After-modify _ _ _ (
                    After-weaken _ _ (λ r u. weaken r u)
                      (ensure_free next parts _ (created-IsTree t current part h.0 _ here no_file)
                        (has_self next _ s.directories) (created-IsFree t current part h.0 _ new)
                        h.1)))
    where
      weaken :
          (r : Result ErrorKind (Unit {0})) (u : Store)
          → Made Unsteady (descend (append_part current part) parts) r u
          → Made (λ u. Steady host → SameTree s u) (descend (append_part current part) parts) r u
      weaken (ok a) u m = m
      weaken (err e) u m = (m.0, λ steady. absurd (m.1 steady))
