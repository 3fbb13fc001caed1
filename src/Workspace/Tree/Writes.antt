-- ===== src/Workspace/Tree/Writes.antt =====
-- `writeFile` and `deleteFile` keep the tree (apps/web/src/workspace.js).
use wasm_host.Prelude.{Text}
use wasm_host.Prelude.Exec.{
  After, After-pure, After-throw, After-lift, After-gets, After-modify, After-throw_if, After-if,
  After-modify_last,
}
use wasm_host.Prelude.Dict.{has}
use wasm_host.Workspace.Path.{normalize_workspace_path}
use wasm_host.Workspace.Store.{Host, Store, Content, to_bytes, write_file, delete_file}
use wasm_host.Workspace.Tree.{
  IsTree, tick-IsTree, unchanged, only_ticked, Outcome, put_file-IsTree, delete_file-IsTree,
  After-require, After-current_time,
}

pub write_file-Outcome :
    (host : Host) (path : Text) (content : Content) (s : Store)
    → IsTree s
    → After (Outcome (Unit {0}) s) (write_file host path content) s
unfolding write_file
write_file-Outcome host path content s t =
    After-lift (normalize_workspace_path path) _ s (λ _ _. unchanged _ t)
      λ n _.
        After-throw_if _ _ _ s (λ _. unchanged _ t)
          λ _. After-gets _ _ s (
            After-throw_if (has n.relative_path s.directories) _ _ s (λ _. unchanged _ t)
              λ free.
                After-require n.relative_path _ s (λ _. unchanged _ t)
                  λ _ parent.
                    After-lift (to_bytes host content) _ s (λ _ _. unchanged _ t)
                      λ b _.
                        After-current_time host _ s (λ _ _. only_ticked _ t)
                          λ time. After-modify _ _ _ (
                            After-pure _ _
                              (put_file-IsTree n.relative_path _ free parent (tick-IsTree t))))

pub delete_file-Outcome :
    (path : Text) (s : Store) → IsTree s → After (Outcome (Unit {0}) s) (delete_file path) s
unfolding delete_file
delete_file-Outcome path s t =
    After-lift (normalize_workspace_path path) _ s (λ _ _. unchanged _ t)
      λ n _. After-gets _ _ s (
        After-if (has n.relative_path s.files) _ _ s
          (λ _. After-modify_last _ s (delete_file-IsTree n.relative_path t))
          λ _.
            After-if (has n.relative_path s.directories) _ _ s
              (λ _. After-throw _ s (unchanged _ t)) λ _. After-throw _ s (unchanged _ t))
