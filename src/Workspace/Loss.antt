-- ===== src/Workspace/Loss.antt =====
-- Where a call that throws does change the store (apps/web/src/workspace.js).
use wasm_host.Prelude.{Text, true, false, ◌≡◌, some, is_empty, text_eq_refl, arith}
use wasm_host.Prelude.Exec.{ok, err, ◌>>=◌}
use wasm_host.Prelude.Dict.{get, has, has-delete}
use wasm_host.Workspace.Path.{ErrorKind, NormalPath, normalize_workspace_path, parent_path}
use wasm_host.Workspace.Store.{
  Host, Store, FileRecord, rename, require_parent_directory, current_time, non_negative_time,
}

-- If the clock fails while a file is renamed to a free path in an existing directory, then the call
-- throws the clock's error, and the file is under neither path.
pub rename_loses_file :
    (host : Host) (from_path to_path : Text) (from to : NormalPath) (s : Store) (r : FileRecord)
    (e : ErrorKind)
    → normalize_workspace_path from_path ≡ ok from
    → normalize_workspace_path to_path ≡ ok to
    → is_empty from.relative_path ≡ false
    → is_empty to.relative_path ≡ false
    → has (parent_path to.relative_path) s.files ≡ false
    → has (parent_path to.relative_path) s.directories ≡ true
    → has to.relative_path s.files ≡ false
    → has to.relative_path s.directories ≡ false
    → get from.relative_path s.files ≡ some r
    → non_negative_time (host.now s.readings) ≡ err e
    → ((rename host from_path to_path s).0 ≡ err e)
      × (has from.relative_path (rename host from_path to_path s).1.files ≡ false)
      × (has to.relative_path (rename host from_path to_path s).1.files ≡ false)
unfolding rename require_parent_directory current_time ◌>>=◌
rename_loses_file host from_path to_path from to s r e nf nt fb tb pf pd tf td g clock = ground (
  arith,
  has-delete from.relative_path from.relative_path s.files,
  has-delete from.relative_path to.relative_path s.files,
  text_eq_refl from.relative_path,
)
