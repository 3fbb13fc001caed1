-- ===== src/Wasi/Paths/Tests.antt =====
-- Paths of a module, resolved.
use wasm_host.Prelude.{◌≡◌, refl, true, none, some, [], ◌∷◌, codes, split, join}
use wasm_host.Prelude.Exec.{ok, err}
use wasm_host.Wasi.Descriptors.{workspace, notcapable}
use wasm_host.Wasi.Paths
use wasm_host.Wasi.Paths.Mounts.{IsMounted, resolve_mounted_path-IsMounted}
use wasm_host.Wasi.Paths.Virtual.{
  IsCanonical, resolve_wasi_virtual_path-IsCanonical, resolve_canonical,
}

program : Unit {0}
unfolding split join Paths.relative_segments Paths.normalize_relative_wasi_path
    Paths.normalize_wasi_path Paths.resolve_scratch_path Paths.mounted_relative_path
    Paths.resolve_from Paths.resolve_mounted_path Paths.drop_slashes Paths.resolve_package_root_path
    Paths.virtual_mount Paths.root_virtual_mount_path Paths.filled_segments
    Paths.absolute_path_segments Paths.walk_segment Paths.walk Paths.resolve_wasi_virtual_path
    Paths.normalize_runtime_cwd Paths.normalize_package_file_path
program = tt

up_refused :
    Paths.resolve_mounted_path (codes "a") (codes "b/../c") (codes "/workspace") true
    ≡ err notcapable
unfolding program
up_refused = refl

absolute_inside :
    Paths.resolve_mounted_path (codes "a") (codes "/workspace/./b//c") (codes "/workspace") true
    ≡ ok (codes "b/c")
unfolding program
absolute_inside = refl

root_mount :
    Paths.root_virtual_mount_path [] (codes "/workspace/a") ≡ ok (some (workspace, codes "a"))
unfolding program
root_mount = refl

outside_package : Paths.normalize_package_file_path (codes "/etc/passwd") ≡ none
unfolding program
outside_package = refl

resolve_mounted_path-IsMounted_example : IsMounted (codes "a") true (codes "b/c")
unfolding program
resolve_mounted_path-IsMounted_example =
    resolve_mounted_path-IsMounted (codes "a") (codes "/workspace/./b//c") (codes "/workspace") true
      (codes "b/c") refl

workspace-IsCanonical : IsCanonical Paths.workspace_preopen
unfolding program
workspace-IsCanonical = record {
  segments = codes "workspace" ∷ [];
  joined = refl;
  each = (
    record { nonempty = refl; not_here = refl; not_up = refl; no_slash = refl; no_nul = refl },
    tt,
  );
}

resolve_wasi_virtual_path-IsCanonical_example : IsCanonical (codes "/a")
unfolding program
resolve_wasi_virtual_path-IsCanonical_example =
    resolve_wasi_virtual_path-IsCanonical Paths.workspace_preopen (codes "b/./../../a/")
      (codes "/a") workspace-IsCanonical refl

resolve_canonical_example :
    Paths.resolve_wasi_virtual_path (codes "/b/..") Paths.workspace_preopen
    ≡ ok Paths.workspace_preopen
resolve_canonical_example =
    resolve_canonical (codes "/b/..") Paths.workspace_preopen workspace-IsCanonical
