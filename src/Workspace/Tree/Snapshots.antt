-- ===== src/Workspace/Tree/Snapshots.antt =====
-- The import of a snapshot keeps the tree (apps/web/src/workspace.js).
use wasm_host.Prelude.{
  ℕ, Text, Bool, true, false, ◌||◌, not, ◌≡◌, refl, sym, subst, Option, none, some, List, [], ◌∷◌,
  text_eq, text_eq_iff, is_empty, Bool-cases, inl, inr, arith,
}
use wasm_host.Prelude.Exec.{
  OnOk, OnOk-bind, OnOk-bind_any, OnOk_elim, OnOk-weaken, After, After-lift, After-modify,
  After-modify_last, After-option, After-pure, After-weaken, Result, ok, err,
}
use wasm_host.Prelude.Dict.{Dict, get, has, set, keys, has-set}
use wasm_host.Workspace.Path.{ErrorKind, parent_path, last_slash, normalize_workspace_path}
use wasm_host.Workspace.Store.{Host, Store, DirectoryRecord, non_negative_time}
use wasm_host.Workspace.Snapshots.{
  Snapshot, DirectoryEntry, supported_snapshot, load_directories, require_all,
  validate_workspace_graph, load_files, load_snapshot, construct,
}
use wasm_host.Workspace.Tree.{IsTree, Outcome, only_ticked, After-current_time}

-- Each key of a map passes the test.
abbrev Passes : {V : Type 0} → (Text → Bool) → Dict V → Type 0
Passes test d = (k : Text) → has k d ≡ true → test k ≡ true

require_all-Passes :
    {V : Type 0} (test : Text → Bool) (d : Dict V)
    → OnOk (λ _. Passes test d) (require_all test (keys d))
unfolding require_all get
require_all-Passes test [] = λ k h. absurd (ground (arith, h))
require_all-Passes test ((j, v) ∷ d) = elim (Bool-cases (test j)) [
  | inl e ↦ rw (e) (
      OnOk-weaken (λ _. Passes test d) _ (require_all test (keys d))
        (λ _ rest k h. elim (Bool-cases (text_eq j k)) [
          | inl same ↦
              let here : j ≡ k = ground (arith, text_eq_iff j k) in
              subst (λ i. test i ≡ true) here e
          | inr other ↦ rest k (rw other at h)
        ])
        (require_all-Passes test d))
  | inr e ↦ rw (e) tt
]

set-root :
    (k : Text) (r : DirectoryRecord) (d : Dict DirectoryRecord)
    → has [] d ≡ true
    → has [] (set k r d) ≡ true
set-root k r d h = ground (arith, has-set k [] r d)

set-root_self : (r : DirectoryRecord) → has [] (set [] r []) ≡ true
unfolding get set
set-root_self r = refl

-- The root stays among the directories.
load_directories-root :
    (es : List (Option DirectoryEntry)) (next : Dict DirectoryRecord)
    → has [] next ≡ true
    → OnOk (λ ds. has [] ds ≡ true) (load_directories es next)
unfolding load_directories
load_directories-root [] next h = h
load_directories-root (none ∷ es) next h = tt
load_directories-root (some e ∷ es) next h =
    OnOk-bind_any _ (normalize_workspace_path e.path) _ λ n _.
      OnOk-bind_any _ (non_negative_time e.mtime_ms) _
        λ time _. load_directories-root es _ (set-root n.relative_path _ next h)

parent_of_empty : (k : Text) → is_empty k ≡ true → parent_path k ≡ []
unfolding parent_path last_slash
parent_of_empty [] h = refl
parent_of_empty (c ∷ k) h = absurd (ground (arith, h))

validated-IsTree :
    (s : Store)
    → has [] s.directories ≡ true
    → OnOk (λ _. IsTree s) (validate_workspace_graph s.files s.directories)
unfolding validate_workspace_graph
validated-IsTree s root =
    OnOk-bind (λ _. Passes (λ k. not (has k s.directories)) s.files) _
      (require_all _ (keys s.files)) _ (require_all-Passes _ s.files)
      λ _ _ apart.
        OnOk-bind (λ _. Passes (λ k. has (parent_path k) s.directories) s.files) _
          (require_all _ (keys s.files)) _ (require_all-Passes _ s.files)
          λ _ _ file_parent.
            OnOk-weaken
              (λ _. Passes (λ k. is_empty k || has (parent_path k) s.directories) s.directories) _
              (require_all _ (keys s.directories))
              (λ _ parent. record {
                root = root;
                apart = λ k h. ground (arith, apart k h);
                file_parent = file_parent;
                directory_parent = λ k h. elim (Bool-cases (is_empty k)) [
                  | inl e ↦ subst (λ p. has p s.directories ≡ true) (sym (parent_of_empty k e)) root
                  | inr e ↦ rw e at (parent k h)
                ];
              })
              (require_all-Passes _ s.directories)

pub load_snapshot-Outcome :
    (host : Host) (snapshot : Option Snapshot) (s : Store)
    → IsTree s
    → After (Outcome (Unit {0}) s) (load_snapshot host snapshot) s
unfolding load_snapshot
load_snapshot-Outcome host snapshot s t =
    After-current_time host _ s (λ _ _. only_ticked _ t)
      λ time.
        After-lift (supported_snapshot snapshot) _ _ (λ _ _. only_ticked _ t)
          λ x _.
            After-lift (load_directories _ _) _ _ (λ _ _. only_ticked _ t)
              λ ds d.
                After-lift (load_files host _ []) _ _ (λ _ _. only_ticked _ t)
                  λ fs _.
                    After-lift (validate_workspace_graph fs ds) _ _ (λ _ _. only_ticked _ t)
                      λ u v. After-modify_last _ _ (
                        OnOk_elim _ _ u
                          (validated-IsTree _
                            (OnOk_elim _ _ ds (load_directories-root _ _ (set-root_self _)) d))
                          v)

-- A new store, before and after its snapshot is loaded
new-IsTree :
    (readings : ℕ) (r : DirectoryRecord)
    → IsTree (record { directories = set [] r []; files = []; readings = readings })
unfolding get set parent_path last_slash
new-IsTree readings r = record {
  root = refl;
  apart = λ k h. absurd (no_key h);
  file_parent = λ k h. absurd (no_key h);
  directory_parent = only_root;
}
  where
    no_key : false ≡ true → ⊥
    no_key h = cc

    only_root : (k : Text) → has k (set [] r []) ≡ true → has (parent_path k) (set [] r []) ≡ true
    only_root [] h = refl
    only_root (c ∷ k) h = absurd (no_key h)

-- A call that returns leaves a tree.
abbrev pub Built : {A : Type 0} → Result ErrorKind A → Store → Type 0
Built (ok a) t = IsTree t
Built (err e) t = Unit

Outcome-Built :
    {A : Type 0} (s : Store) (r : Result ErrorKind A) (t : Store)
    → Outcome (Unit {0}) s r t
    → Built r t
Outcome-Built s (ok a) t o = o
Outcome-Built s (err e) t o = tt

pub construct-Built :
    (host : Host) (snapshot : Option (Option Snapshot)) (s : Store)
    → After Built (construct host snapshot) s
unfolding construct
construct-Built host snapshot s =
    After-current_time host _ s (λ _ _. tt)
      λ time. After-modify _ _ _ (
        After-option snapshot _ _ _ (λ _. After-pure _ _ (new-IsTree _ _))
          λ x _.
            After-weaken _ _ (Outcome-Built _) (load_snapshot-Outcome host x _ (new-IsTree _ _)))
