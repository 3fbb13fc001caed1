-- ===== src/Workspace/Tree/Moves.antt =====
-- The two loops of `renameDirectory` (apps/web/src/workspace.js): which paths the new maps hold.
use wasm_host.Prelude.{Text, false, ◌||◌, ◌≡◌, List, [], ◌∷◌, text_eq, any, arith}
use wasm_host.Prelude.Exec.{Result, ok, err, After, After-pure, After-if, After-weaken}
use wasm_host.Prelude.Dict.{Dict, get, has, set, keys, has-set}
use wasm_host.Workspace.Path.{ErrorKind, is_child_path}
use wasm_host.Workspace.Path.Within.{within}
use wasm_host.Workspace.Store.{
  Host, Store, FileRecord, DirectoryRecord, move_directories, move_files,
}
use wasm_host.Workspace.Tree.{tick, Steady, SameTree, After-current_time}
use wasm_host.Workspace.Tree.Creates.{failed}
use wasm_host.Workspace.Tree.Renames.{moved}

-- The new map holds what was in it and the moved keys; the store changes by the clock alone, and
-- only the clock throws.
abbrev pub Moves :
    Host
    → (Text → Text)
    → Store
    → List Text
    → {V : Type 0} → Dict V
    → Result ErrorKind (Dict V)
    → Store
    → Type 0
Moves host target s ks acc (ok d) u =
    SameTree s u × ((q : Text) → has q d ≡ (has q acc || any (λ k. text_eq (target k) q) ks))
Moves host target s ks acc (err e) u = SameTree s u × (Steady host → ⊥)

has-tail :
    {V : Type 0} (k path : Text) (v : V) (d : Dict V)
    → has k ((path, v) ∷ d) ≡ false
    → (text_eq path k ≡ false) × (has k d ≡ false)
unfolding get
has-tail k path v d h = (ground arith, ground arith)

module _ (host : Host) (s : Store) where
  Moves-cons :
      {V : Type 0} (target : Text → Text) {k k' : Text}
      → target k ≡ k'
      → (ks : List Text) (v : V) (acc : Dict V) (r : Result ErrorKind (Dict V)) (u : Store)
      → Moves host target s ks (set k' v acc) r u
      → Moves host target s (k ∷ ks) acc r u
  Moves-cons target {k' = k'} e ks v acc (ok d) u (same, h) =
      (same, λ q. rw e (ground (arith, h q, has-set k' q v acc)))
  Moves-cons target e ks v acc (err c) u h = h

  tick-SameTree : {t : Store} → SameTree s t → SameTree s (tick t)
  tick-SameTree h = record { files = h.files; directories = h.directories }

  module _ (from to : Text) where
    pub move_directories-Moves :
        (d acc : Dict DirectoryRecord) (t : Store)
        → SameTree s t
        → After (Moves host (moved from to) s (keys d) acc) (move_directories host from to d acc) t
    unfolding move_directories
    move_directories-Moves [] acc t h = After-pure acc t (h, λ q. ground arith)
    move_directories-Moves ((path, r) ∷ d) acc t h =
        After-if (within from path) _ _ t
          (λ inside.
            After-current_time host _ t (λ e k. (tick-SameTree h, failed host t.readings k))
              λ time.
                After-weaken _ _ (Moves-cons (moved from to) (rw inside) (keys d) _ acc)
                  (move_directories-Moves d _ (tick t) (tick-SameTree h)))
          λ outside.
            After-weaken _ _ (Moves-cons (moved from to) (rw outside) (keys d) r acc)
              (move_directories-Moves d _ t h)

    -- The files that move lie below the directory, since its own path is no file.
    pub move_files-Moves :
        (d acc : Dict FileRecord) (t : Store)
        → has from d ≡ false
        → SameTree s t
        → After (Moves host (moved from to) s (keys d) acc) (move_files host from to d acc) t
    unfolding move_files
    move_files-Moves [] acc t free h = After-pure acc t (h, λ q. ground arith)
    move_files-Moves ((path, r) ∷ d) acc t free h =
        let (other, rest) = has-tail from path r d free in
        After-if (is_child_path from path) _ _ t
          (λ inside.
            After-current_time host _ t (λ e k. (tick-SameTree h, failed host t.readings k))
              λ time.
                After-weaken _ _ (Moves-cons (moved from to) (rw (other, inside)) (keys d) _ acc)
                  (move_files-Moves d _ (tick t) rest (tick-SameTree h)))
          λ outside.
            After-weaken _ _ (Moves-cons (moved from to) (rw (other, outside)) (keys d) r acc)
              (move_files-Moves d _ t rest h)
