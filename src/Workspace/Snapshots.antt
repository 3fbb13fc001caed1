-- ===== src/Workspace/Snapshots.antt =====
-- Snapshots of a workspace store (apps/web/src/workspace.js). The new maps are filled and validated
-- first, and replace the store's own at the end.
use wasm_host.Prelude.{
  ℕ, Text, Bool, false, ◌||◌, ◌&&◌, not, Option, none, some, List, [], ◌∷◌, map, length, text_eq,
  is_empty, ◌==◌, if◌then◌else◌,
}
use wasm_host.Prelude.Exec.{Result, ok, err, bind, pure, lift, gets, modify, ◌>>=◌, ◌>>◌}
use wasm_host.Prelude.Sort.{sort_by}
use wasm_host.Prelude.Dict.{Dict, has, set, keys, values}
use wasm_host.Workspace.Path.{
  ErrorKind, invalid_snapshot, type_error, normalize_workspace_path, parent_path, workspace_root,
}
use wasm_host.Workspace.Store.{
  Host, FileRecord, DirectoryRecord, Action, non_negative_time, current_time,
}

-- The entries of a snapshot, as `String` and `Number` read their fields: `none` is a time that is no
-- integer or is negative.
pub record DirectoryEntry : Type 0 where
  pub mtime_ms : Option ℕ
  pub path : Text

pub record FileEntry : Type 0 where
  pub content_base64 : Text
  pub mtime_ms : Option ℕ
  pub path : Text
  pub size : Option ℕ

-- A snapshot object; `none` is a version that is no number, a root that is no text, a list that is
-- not there, and an entry that is null. No import reads the size of a file.
pub record Snapshot : Type 0 where
  pub directories : Option (List (Option DirectoryEntry))
  pub files : Option (List (Option FileEntry))
  pub root : Option Text
  pub version : Option ℕ

abbrev or_nothing {ℓ} : {A : Type ℓ} → Option (List A) → List A
or_nothing none = []
or_nothing (some es) = es

unfoldable pub is_supported : Snapshot → Bool
is_supported s =
    (elim s.version [ none ↦ false | some v ↦ v == 1 ])
    && (elim s.root [ none ↦ false | some r ↦ text_eq r workspace_root ])

-- The first checks; `none` is no object.
unfoldable pub supported_snapshot : Option Snapshot → Result ErrorKind Snapshot
supported_snapshot none = err invalid_snapshot
supported_snapshot (some s) = if is_supported s then ok s else err invalid_snapshot

unfoldable pub load_directories :
    List (Option DirectoryEntry) → Dict DirectoryRecord → Result ErrorKind (Dict DirectoryRecord)
load_directories [] next = ok next
load_directories (none ∷ es) next = err type_error
load_directories (some e ∷ es) next = bind (normalize_workspace_path e.path) λ n.
    bind (non_negative_time e.mtime_ms) λ time.
      load_directories es
        (set n.relative_path (record { mtime_ms = time; path = n.workspace_path }) next)

-- Every key passes the test, or the snapshot is refused.
unfoldable pub require_all : (Text → Bool) → List Text → Result ErrorKind Unit
require_all test [] = ok tt
require_all test (k ∷ ks) =
    let rest = require_all test ks in if test k then rest else err invalid_snapshot

unfoldable pub validate_workspace_graph :
    Dict FileRecord → Dict DirectoryRecord → Result ErrorKind Unit
validate_workspace_graph files directories =
    bind (require_all (λ k. not (has k directories)) (keys files)) λ _.
      bind (require_all (λ k. has (parent_path k) directories) (keys files))
        λ _. require_all (λ k. is_empty k || has (parent_path k) directories) (keys directories)

module _ (host : Host) where
  -- `base64ToBytes`, where the platform's reader may throw
  unfoldable pub base64_to_bytes : Text → Result ErrorKind (List ℕ)
  base64_to_bytes text = elim (host.decode_base64 text) [ none ↦ err type_error | some b ↦ ok b ]

  unfoldable pub load_files :
      List (Option FileEntry) → Dict FileRecord → Result ErrorKind (Dict FileRecord)
  load_files [] next = ok next
  load_files (none ∷ es) next = err type_error
  load_files (some e ∷ es) next = bind (normalize_workspace_path e.path) λ n.
      if is_empty n.relative_path
      then err invalid_snapshot
      else bind (base64_to_bytes e.content_base64) (λ content.
        bind (non_negative_time e.mtime_ms) (λ time. load_files es (
          set n.relative_path
            (record { content = content; mtime_ms = time; path = n.workspace_path }) next)))

  unfoldable pub load_snapshot : Option Snapshot → Action Unit
  load_snapshot snapshot = do
    time ← current_time host
    s ← lift (supported_snapshot snapshot)
    ds ← lift (
        load_directories (or_nothing s.directories)
          (set [] (record { mtime_ms = time; path = workspace_root }) []))
    fs ← lift (load_files (or_nothing s.files) [])
    lift (validate_workspace_graph fs ds)
    modify (λ t. record t { directories = ds; files = fs })

  unfoldable pub directory_entry : DirectoryRecord → DirectoryEntry
  directory_entry r = record { mtime_ms = some r.mtime_ms; path = r.path }

  unfoldable pub file_entry : FileRecord → FileEntry
  file_entry r = record {
    content_base64 = host.encode_base64 r.content;
    mtime_ms = some r.mtime_ms;
    path = r.path;
    size = some (length r.content);
  }

  unfoldable pub export_snapshot : Action Snapshot
  export_snapshot = do
    s ← gets (λ s. s)
    pure (record {
      directories = some (
          map some (
            sort_by (λ a b. host.locale_le a.path b.path)
              (map directory_entry (values s.directories))));
      files = some (
          map some
            (sort_by (λ a b. host.locale_le a.path b.path) (map file_entry (values s.files))));
      root = some workspace_root;
      version = some 1;
    })

  -- `constructor`, on a store without maps
  unfoldable pub construct : Option (Option Snapshot) → Action Unit
  construct snapshot = do
    time ← current_time host
    modify (λ t. record t {
      directories = set [] (record { mtime_ms = time; path = workspace_root }) [];
      files = [];
    })
    elim snapshot [ none ↦ pure tt | some s ↦ load_snapshot s ]
