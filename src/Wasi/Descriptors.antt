-- ===== src/Wasi/Descriptors.antt =====
-- The state of `WasiPreview1Runtime` that its descriptors use (apps/web/src/wasi-module.js). What
-- several descriptors share (the bytes of a file, an offset, a pipe) stands in a table under a
-- number; a descriptor has the number.
use wasm_host.Prelude.{ℕ, Text, Bool, true, false, ◌&&◌, ◌||◌, Option, List, leb, ◌==◌}
use wasm_host.Prelude.Exec.{Exec}
use wasm_host.Prelude.Table.{Table, get}

pub data Errno : Type 0 where
  success access again badf fault inval isdir noent notcapable overflow broken_pipe : Errno

-- What a call throws: the abort of the run, a read or write outside of a buffer, an array that is
-- too long, a property of a value that has none.
pub data Trap : Type 0 where
  aborted out_of_range too_long type_error : Trap

abbrev pub Bytes : Type 0
Bytes = List ℕ

pub data Direction : Type 0 where
  read_end write_end : Direction

pub data Mount : Type 0 where
  workspace scratch package_root : Mount

pub record Pipe : Type 0 where
  pub bytes : Bytes
  pub readers : ℕ
  pub writers : ℕ

pub record FileRecord : Type 0 where
  pub bytes : Bytes
  pub fallback : Bool

pub record Directory : Type 0 where
  pub inheriting : Option ℕ
  pub mount : Mount
  pub offset : ℕ
  pub path : Option Text

pub record Regular : Type 0 where
  pub append : Bool
  pub mount : Mount
  pub offset : ℕ
  pub path : Text
  pub file : ℕ
  pub writable : Bool

pub data Kind : Type 0 where
  stdio : ℕ → Kind
  pipe : Direction → ℕ → Kind
  directory : Directory → Kind
  regular : Regular → Kind

pub record OpenFile : Type 0 where
  pub kind : Kind
  pub rights : ℕ

-- The descriptors, and what they share.
pub record Tables : Type 0 where
  pub open_files : Table OpenFile
  pub fd_flags_ext : Table ℕ
  pub next_file_fd : ℕ
  pub pipes : Table Pipe
  pub next_pipe : ℕ
  pub offsets : Table ℕ
  pub next_offset : ℕ
  pub files : Table FileRecord
  pub dirty : Bool

pub record Runtime : Type 0 where
  pub memory : Bytes
  pub output : List (ℕ × Bytes)
  pub package_root : Bool
  pub signal : Bool
  pub longest_array : ℕ
  pub stdin : Bytes
  pub stdin_offset : ℕ
  pub tables : Tables
  pub writable : Bool

abbrev pub Action : Type 0 → Type 0
Action A = Exec Trap Runtime A

unfoldable pub file_at : ℕ → Runtime → Option OpenFile
file_at fd r = get fd r.tables.open_files

-- `fd === this.packageRootFd`
unfoldable pub is_package_root : ℕ → Runtime → Bool
is_package_root fd r = r.package_root && fd == 5

-- `isStdioFd` and `isDynamicFileFdNumber`
unfoldable pub is_stdio_fd : ℕ → Bool
is_stdio_fd fd = fd == 0 || (fd == 1 || fd == 2)

unfoldable pub is_dynamic_file_fd_number : ℕ → Bool
is_dynamic_file_fd_number fd = leb 5 fd

-- What the code asks of a descriptor: `isOpenDirectory` and its like, and the property `writable`.
unfoldable pub is_open_directory : Kind → Bool
is_open_directory (directory d) = true
is_open_directory _ = false

unfoldable pub is_open_stdio : Kind → Bool
is_open_stdio (stdio n) = true
is_open_stdio _ = false

unfoldable pub is_open_pipe : Kind → Bool
is_open_pipe (pipe d p) = true
is_open_pipe _ = false

unfoldable pub is_writable : Kind → Bool
is_writable (pipe write_end p) = true
is_writable (regular r) = r.writable
is_writable _ = false

-- `file.mount === "workspace"`
unfoldable pub is_workspace_file : Kind → Bool
is_workspace_file (directory d) = elim d.mount [ workspace ↦ true | _ ↦ false ]
is_workspace_file (regular r) = elim r.mount [ workspace ↦ true | _ ↦ false ]
is_workspace_file _ = false
