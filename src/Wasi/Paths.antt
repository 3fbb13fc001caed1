-- ===== src/Wasi/Paths.antt =====
-- Paths of a WASI module, and the places below a mount that they name
-- (apps/web/src/wasi-module.js).
pub mod Segments
pub mod Mounts
pub mod Virtual
mod Tests
use wasm_host.Prelude.{
  ◌+◌, Text, Bool, true, false, ◌||◌, ◌&&◌, Option, none, some, List, [], ◌∷◌, ◌++◌, length, drop,
  codes, text_eq, is_empty, includes, starts_with, split, join, is_some, if◌then◌else◌,
}
use wasm_host.Prelude.Exec.{Result, ok, err, bind}
use wasm_host.Workspace.Path.{slash}
use wasm_host.Wasi.Descriptors.{Errno, inval, noent, notcapable, Mount, workspace, scratch}

abbrev pub workspace_preopen : Text
workspace_preopen = codes "/workspace"

-- The loop of `normalizeRelativeWasiPath`.
unfoldable pub relative_segments : List Text → Option (List Text)
relative_segments [] = some []
relative_segments (s ∷ ss) =
    let rest = relative_segments ss in
    if is_empty s || text_eq s (codes ".")
    then rest
    else if text_eq s (codes "..")
    then none
    else elim rest [ none ↦ none | some segments ↦ some (s ∷ segments) ]

abbrev pub joined : Option (List Text) → Option Text
joined none = none
joined (some []) = none
joined (some (s ∷ ss)) = some (join slash (s ∷ ss))

unfoldable pub normalize_relative_wasi_path : Text → Option Text
normalize_relative_wasi_path path =
    if is_empty path || includes 0 path then none else joined (relative_segments (split slash path))

unfoldable pub normalize_wasi_path : Text → Option Text
normalize_wasi_path path =
    if text_eq path (codes ".")
    then some []
    else if starts_with (codes "/") path
    then none
    else normalize_relative_wasi_path path

-- A normalised path, below a base.
abbrev pub below : Text → Text → Text
below base [] = base
below [] (c ∷ path) = c ∷ path
below (b ∷ base) (c ∷ path) = (b ∷ base) ++ (slash ∷ c ∷ path)

-- `resolveScratchPath`, where looking a path up and making one normalise it alike.
unfoldable pub resolve_scratch_path : Text → Text → Result Errno Text
resolve_scratch_path base path = elim (normalize_wasi_path path) [
  | none ↦ err notcapable
  | some p ↦ ok (below base p)
]

unfoldable pub mounted_relative_path : Text → Text → Option Text
mounted_relative_path path mount =
    if text_eq path mount || text_eq path (mount ++ codes "%")
    then some []
    else if starts_with (mount ++ codes "/") path
    then some (drop (length (mount ++ codes "/")) path)
    else if starts_with (mount ++ codes "%/") path
    then some (drop (length (mount ++ codes "%/")) path)
    else none

abbrev or_here : Text → Text
or_here [] = codes "."
or_here (c ∷ path) = c ∷ path

-- What `resolveMountedPath` does once it knows where in the mount an absolute path leads.
unfoldable pub resolve_from : Text → Text → Option Text → Result Errno Text
resolve_from base path (some inside) = resolve_scratch_path [] (or_here inside)
resolve_from base path none =
    if starts_with (codes "/") path then err notcapable else resolve_scratch_path base path

unfoldable pub resolve_mounted_path : Text → Text → Text → Bool → Result Errno Text
resolve_mounted_path base path mount allow_absolute =
    resolve_from base path (if allow_absolute then mounted_relative_path path mount else none)

unfoldable pub drop_slashes : Text → Text
drop_slashes [] = []
drop_slashes (c ∷ path) =
    let rest = drop_slashes path in if starts_with (codes "/") (c ∷ path) then rest else c ∷ path

unfoldable pub resolve_package_root_path : Text → Text → Result Errno Text
resolve_package_root_path base path =
    resolve_scratch_path base
      (if is_empty base && starts_with (codes "/") path then drop_slashes path else path)

-- The mounts that stand in the root of the package; none if the path is in neither.
unfoldable pub virtual_mount : Text → Option (Mount × Text)
virtual_mount path = elim (mounted_relative_path path (codes "workspace")) [
  | some p ↦ some (workspace, p)
  | none ↦ elim (mounted_relative_path path (codes "tmp")) [
    | some p ↦ some (scratch, p)
    | none ↦ none
  ]
]

unfoldable pub root_virtual_mount_path : Text → Text → Result Errno (Option (Mount × Text))
root_virtual_mount_path base path =
    if is_empty base
    then elim (normalize_wasi_path (drop_slashes path)) [
      | none ↦ err notcapable
      | some p ↦ ok (virtual_mount p)
    ]
    else ok none

-- `path.split("/").filter(Boolean)`
unfoldable pub filled_segments : List Text → List Text
filled_segments [] = []
filled_segments (s ∷ ss) = if is_empty s then filled_segments ss else s ∷ filled_segments ss

unfoldable pub absolute_path_segments : Text → List Text
absolute_path_segments path =
    filled_segments (split slash (if starts_with (codes "/") path then path else workspace_preopen))

abbrev pub all_but_last : List Text → List Text
all_but_last [] = []
all_but_last (s ∷ []) = []
all_but_last (s ∷ r ∷ ss) = s ∷ all_but_last (r ∷ ss)

-- One turn of the loop of `resolveWasiVirtualPath`.
unfoldable pub walk_segment : Text → List Text → Result Errno (List Text)
walk_segment s segments =
    if is_empty s || text_eq s (codes ".")
    then ok segments
    else if text_eq s (codes "..")
    then elim segments [ [] ↦ err notcapable | r ∷ rs ↦ ok (all_but_last (r ∷ rs)) ]
    else ok (segments ++ (s ∷ []))

unfoldable pub walk : List Text → List Text → Result Errno (List Text)
walk [] segments = ok segments
walk (s ∷ ss) segments = bind (walk_segment s segments) λ next. walk ss next

abbrev pub absolute : List Text → Text
absolute segments = slash ∷ join slash segments

-- Without a working directory, the workspace.
abbrev pub or_workspace : Text → Text
or_workspace [] = workspace_preopen
or_workspace (c ∷ cwd) = c ∷ cwd

unfoldable pub resolve_wasi_virtual_path : Text → Text → Result Errno Text
resolve_wasi_virtual_path cwd path =
    if includes 0 path
    then err inval
    else if is_empty path
    then err noent
    else bind
        (walk (split slash path)
          (if starts_with (codes "/") path then [] else absolute_path_segments (or_workspace cwd)))
        λ segments. ok (absolute segments)

unfoldable pub normalize_runtime_cwd : Text → Text
normalize_runtime_cwd cwd = elim (resolve_wasi_virtual_path workspace_preopen cwd) [
  | ok path ↦ path
  | err e ↦ workspace_preopen
]

unfoldable pub normalize_package_file_path : Text → Option Text
normalize_package_file_path value =
    if text_eq value workspace_preopen
    then none
    else let path =
        if starts_with (codes "/workspace/") value
        then drop (length workspace_preopen + 1) value
        else value in
      if starts_with (codes "/") path then none else normalize_relative_wasi_path path
