-- ===== src/Workspace/Tree/Deletes.antt =====
-- `deleteDirectory` removes a directory with all below it and keeps the tree
-- (apps/web/src/workspace.js).
use wasm_host.Prelude.{
  Text, Bool, false, not, ◌&&◌, ◌≡◌, ◌≢◌, List, [], ◌∷◌, is_empty, text_eq_iff, arith,
}
use wasm_host.Prelude.Exec.{After, After-lift, After-gets, After-throw_if, After-modify_last}
use wasm_host.Prelude.Dict.{Dict, has, keys, delete, has-delete}
use wasm_host.Prelude.Dict.Keys.{member, has-member}
use wasm_host.Workspace.Path.{normalize_workspace_path, parent_path}
use wasm_host.Workspace.Path.Within.{within, within_parent, root-within}
use wasm_host.Workspace.Store.{
  Store, delete_tree, delete_directory_tree, delete_directory, has_children,
}
use wasm_host.Workspace.Tree.{IsTree, unchanged, Outcome}

has-delete_each :
    {V : Type 0} (path j : Text) (ks : List Text) (d : Dict V)
    → has j (delete_tree path ks d) ≡ (has j d && not (member j ks && within path j))
unfolding delete_tree
has-delete_each path j [] d = ground arith
has-delete_each path j (k ∷ ks) d = ground (
  arith,
  has-delete_each path j ks d,
  has-delete_each path j ks (delete k d),
  has-delete k j d,
  text_eq_iff k j,
)

-- What stays is what lies outside the directory.
pub has-delete_tree :
    {V : Type 0} (path j : Text) (d : Dict V)
    → has j (delete_tree path (keys d) d) ≡ (has j d && not (within path j))
has-delete_tree path j d = ground (arith, has-delete_each path j (keys d) d, has-member j d)

pub delete_directory_tree-IsTree :
    (path : Text) (s : Store) → path ≢ [] → IsTree s → IsTree (delete_directory_tree path s)
unfolding delete_directory_tree
delete_directory_tree-IsTree path s below t = record {
  root = ground (arith, has-delete_tree path [] s.directories, root-within path below, t.root);
  apart = λ j.
      ground
        (arith, has-delete_tree path j s.files, has-delete_tree path j s.directories, t.apart j);
  file_parent = λ j. ground (
    arith,
    has-delete_tree path j s.files,
    has-delete_tree path (parent_path j) s.directories,
    t.file_parent j,
    within_parent path below j,
  );
  directory_parent = λ j. ground (
    arith,
    has-delete_tree path j s.directories,
    has-delete_tree path (parent_path j) s.directories,
    t.directory_parent j,
    within_parent path below j,
  );
}

pub nonempty-ne : (k : Text) → is_empty k ≡ false → k ≢ []
nonempty-ne k h e = cc (rw e at h)

pub delete_directory-Outcome :
    (path : Text) (recursive : Bool) (s : Store)
    → IsTree s
    → After (Outcome (Unit {0}) s) (delete_directory path recursive) s
unfolding delete_directory
delete_directory-Outcome path recursive s t =
    After-lift (normalize_workspace_path path) _ s (λ _ _. unchanged _ t)
      λ n _.
        After-throw_if (is_empty n.relative_path) _ _ s (λ _. unchanged _ t)
          λ below. After-gets _ _ s (
            After-throw_if (not (has n.relative_path s.directories)) _ _ s (λ _. unchanged _ t)
              λ _.
                After-throw_if (not recursive && has_children n.relative_path s) _ _ s
                  (λ _. unchanged _ t)
                  λ _.
                    After-modify_last _ s
                      (delete_directory_tree-IsTree n.relative_path s (nonempty-ne _ below) t))
