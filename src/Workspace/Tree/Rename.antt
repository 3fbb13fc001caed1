-- ===== src/Workspace/Tree/Rename.antt =====
-- `rename` of a file or a directory keeps the tree (apps/web/src/workspace.js).
use wasm_host.Prelude.{
  ℕ, Text, true, false, ◌||◌, ◌≡◌, ◌≢◌, refl, [], is_empty, text_eq, arith, is_some, ap,
}
use wasm_host.Prelude.Exec.{
  ◌>>◌, modify, ◌>>=◌, After, After-pure, After-throw, After-lift, After-gets, After-modify,
  After-throw_if, After-if, After-modify_last, After-call, After-option,
}
use wasm_host.Prelude.Dict.{get, has, delete}
use wasm_host.Workspace.Path.{NormalPath, normalize_workspace_path, parent_path, is_child_path}
use wasm_host.Workspace.Store.{
  FileRecord, put_file, current_time, Host, Store, rename_directory, rename,
}
use wasm_host.Workspace.Tree.{
  IsTree, tick-IsTree, Steady, SameTree, SameTree-refl, SameTree-IsTree, unchanged, Outcome,
  put_file-IsTree, delete_file-IsTree, After-require, After-current_time,
}
use wasm_host.Workspace.Tree.Creates.{failed}
use wasm_host.Workspace.Tree.Deletes.{nonempty-ne}
use wasm_host.Workspace.Tree.Renames.{move-IsTree}
use wasm_host.Workspace.Tree.Moves.{move_directories-Moves, move_files-Moves}

module _ (host : Host) (s : Store) (t : IsTree s) where
  clock_failed :
      {u : Store} → SameTree s u × (Steady host → ⊥) → IsTree u × (Steady host → SameTree s u)
  clock_failed (same, unsteady) = (SameTree-IsTree same t, λ _. same)

  rename_directory-Outcome :
      (from to : NormalPath)
      → from.relative_path ≢ []
      → to.relative_path ≢ []
      → has from.relative_path s.directories ≡ true
      → has from.relative_path s.files ≡ false
      → has (parent_path to.relative_path) s.directories ≡ true
      → has to.relative_path s.files ≡ false
      → has to.relative_path s.directories ≡ false
      → After (Outcome (Steady host) s) (rename_directory host from to) s
  unfolding rename_directory get
  rename_directory-Outcome from to fb tb source no_source parent no_file no_dir =
      After-if (text_eq to.relative_path from.relative_path) _ _ s (λ _. After-pure tt s t)
        λ _.
          After-throw_if (is_child_path from.relative_path to.relative_path) _ _ s
            (λ _. unchanged _ t)
            λ outside. After-gets _ _ s (
              After-call _ _ _ s
                (move_directories-Moves host s from.relative_path to.relative_path s.directories []
                  s (SameTree-refl s))
                (λ e u m. clock_failed m)
                λ ds u (same, dirs).
                  After-call _ _ _ u
                    (move_files-Moves host s from.relative_path to.relative_path s.files [] u
                      no_source same)
                    (λ e v m. clock_failed m)
                    λ fs v (_, files). After-modify_last _ v (
                      SameTree-IsTree {s = record s { directories = ds; files = fs }}
                        (record { files = refl; directories = refl })
                        (move-IsTree t
                          (record {
                            from_below = fb;
                            to_below = tb;
                            source = source;
                            parent = parent;
                            no_file = no_file;
                            no_directory = no_dir;
                            outside = outside;
                          })
                          (record { directories = dirs; files = files }))))

  -- A file moves: its old path is deleted, then the clock is read, then the new path is written.
  rename_file-Outcome :
      (from to : NormalPath) (f : ℕ → Store → Store)
      → has (parent_path to.relative_path) s.directories ≡ true
      → has to.relative_path s.directories ≡ false
      → ((time : ℕ) → (r : FileRecord) × ((u : Store) → f time u ≡ put_file to.relative_path r u))
      → After
          (Outcome (Steady host) s)
          (modify (λ u. record u { files = delete from.relative_path u.files })
            >> (current_time host >>= λ time. modify (f time)))
          s
  rename_file-Outcome from to f parent no_dir puts =
      let less = delete_file-IsTree from.relative_path t in
      After-modify _ _ s (
        After-current_time host _ _
          (λ e k. (tick-IsTree less, λ steady. absurd (failed host s.readings k steady)))
          λ time.
            let (r, e) = puts time in
            After-modify_last _ _
              (rw e (put_file-IsTree to.relative_path r no_dir parent (tick-IsTree less))))

pub rename-Outcome :
    (host : Host) (from_path to_path : Text) (s : Store)
    → IsTree s
    → After (Outcome (Steady host) s) (rename host from_path to_path) s
unfolding rename
rename-Outcome host from_path to_path s t =
    After-lift (normalize_workspace_path from_path) _ s (λ _ _. unchanged _ t)
      λ from _.
        After-lift (normalize_workspace_path to_path) _ s (λ _ _. unchanged _ t)
          λ to _.
            After-throw_if (is_empty from.relative_path || is_empty to.relative_path) _ _ s
              (λ _. unchanged _ t)
              λ below.
                After-require to.relative_path _ s (λ _. unchanged _ t)
                  λ _ parent. After-gets _ _ s (
                    After-throw_if
                      (has to.relative_path s.files || has to.relative_path s.directories) _ _ s
                      (λ _. unchanged _ t)
                      λ new.
                        After-option (get from.relative_path s.files) _ _ s
                          (λ e.
                            After-if (has from.relative_path s.directories) _ _ s
                              (λ source.
                                rename_directory-Outcome host s t from to
                                  (nonempty-ne _ (ground arith)) (nonempty-ne _ (ground arith))
                                  source (ap is_some e) parent (ground arith) (ground arith))
                              λ _. After-throw _ s (unchanged _ t))
                          λ r e.
                            rename_file-Outcome host s t from to _ parent (ground arith) (λ time. (
                              record {
                                content = r.content;
                                mtime_ms = time;
                                path = to.workspace_path;
                              },
                              λ u. refl,
                            )))
