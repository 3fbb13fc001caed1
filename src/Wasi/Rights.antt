-- ===== src/Wasi/Rights.antt =====
-- Rights as sets of bits, and `fdStat` (apps/web/src/wasi-module.js).
use wasm_host.Prelude.{
  ℕ, zero, suc, ◌+◌, ◌/◌, ◌%◌, ◌^◌, Bool, false, ◌&&◌, Option, none, some, length, leb, ◌==◌,
  if◌then◌else◌,
}
use wasm_host.Prelude.Int.{ℤ, pos, negsuc}
use wasm_host.Prelude.Table.{get}
use wasm_host.Wasi.Descriptors.{
  stdio, pipe, directory, regular, read_end, write_end, OpenFile, Runtime, Tables, Direction,
  file_at, is_package_root, is_writable,
}

-- `(rights & (1n << k)) !== 0n`
unfoldable pub has_right : ℕ → ℕ → Bool
has_right zero rights = rights % 2 == 1
has_right (suc k) rights = has_right k (rights / 2)

-- `(requested & ~allowed) === 0n` on the lowest bits; what is above them must not be there.
unfoldable pub allows_bits : ℕ → ℕ → ℕ → Bool
allows_bits zero requested allowed = requested == 0
allows_bits (suc w) requested allowed =
    leb (requested % 2) (allowed % 2) && allows_bits w (requested / 2) (allowed / 2)

-- A negative number has all its high bits.
unfoldable pub allows_rights : ℤ → ℕ → Bool
allows_rights (pos requested) allowed = allows_bits 64 requested allowed
allows_rights (negsuc n) allowed = false

abbrev pub fd_datasync : ℕ
fd_datasync = 0

abbrev pub fd_read_right : ℕ
fd_read_right = 1

abbrev pub fd_sync_right : ℕ
fd_sync_right = 4

abbrev pub fd_write_right : ℕ
fd_write_right = 6

abbrev pub fd_advise_right : ℕ
fd_advise_right = 7

abbrev pub fd_allocate_right : ℕ
fd_allocate_right = 8

abbrev pub fd_filestat_set_size_right : ℕ
fd_filestat_set_size_right = 22

abbrev pub fd_filestat_set_times_right : ℕ
fd_filestat_set_times_right = 23

unfoldable pub stdin_rights : ℕ
stdin_rights = 2 ^ 1 + 2 ^ 3

unfoldable pub stdout_rights : ℕ
stdout_rights = 2 ^ 6 + 2 ^ 3

unfoldable pub workspace_rights : ℕ
workspace_rights = 2 ^ 14 + 2 ^ 13 + 2 ^ 18 + 2 ^ 21

-- What a writable directory adds: the creation, removal and renaming of paths.
path_write_rights : ℕ
path_write_rights = 2 ^ 20 + 2 ^ 10 + 2 ^ 9 + 2 ^ 26 + 2 ^ 25 + 2 ^ 16 + 2 ^ 17

unfoldable pub writable_workspace_rights : ℕ
unfolding path_write_rights workspace_rights
writable_workspace_rights = workspace_rights + path_write_rights

unfoldable pub tmp_rights : ℕ
unfolding path_write_rights workspace_rights
tmp_rights = workspace_rights + path_write_rights

unfoldable pub regular_file_rights : ℕ
regular_file_rights = 2 ^ 1 + 2 ^ 2 + 2 ^ 3 + 2 ^ 5 + 2 ^ 7 + 2 ^ 21

unfoldable pub scratch_file_rights : ℕ
unfolding regular_file_rights
scratch_file_rights = regular_file_rights + 2 ^ 6 + 2 ^ 0 + 2 ^ 4 + 2 ^ 8 + 2 ^ 22 + 2 ^ 23

unfoldable pub pipe_read_rights : ℕ
pipe_read_rights = 2 ^ 3 + 2 ^ 21 + 2 ^ 1

unfoldable pub pipe_write_rights : ℕ
pipe_write_rights = 2 ^ 3 + 2 ^ 21 + 2 ^ 6

unfoldable pub can_write_file : OpenFile → Bool
can_write_file f = is_writable f.kind && has_right fd_write_right f.rights

unfoldable pub can_read_file : OpenFile → Bool
can_read_file f = has_right fd_read_right f.rights

unfoldable pub can_resize_file : OpenFile → Bool
can_resize_file f = is_writable f.kind && has_right fd_filestat_set_size_right f.rights

unfoldable pub can_set_file_times : OpenFile → Bool
can_set_file_times f = is_writable f.kind && has_right fd_filestat_set_times_right f.rights

unfoldable pub can_allocate_file : OpenFile → Bool
can_allocate_file f = is_writable f.kind && has_right fd_allocate_right f.rights

pub data FileType : Type 0 where
  character_device directory_type regular_file : FileType

pub record FdStat : Type 0 where
  pub filetype : FileType
  pub inheriting : ℕ
  pub rights : ℕ
  pub size : ℕ

unfoldable pub stdio_rights : ℕ → Option ℕ
stdio_rights fd =
    if fd == 0
    then some stdin_rights
    else if fd == 1
    then some stdout_rights
    else if fd == 2
    then some stdout_rights
    else none

unfoldable pub pipe_size : Direction → ℕ → Tables → ℕ
pipe_size write_end p t = 0
pipe_size read_end p t = elim (get p t.pipes) [ none ↦ 0 | some q ↦ length q.bytes ]

unfoldable pub file_size : ℕ → Tables → ℕ
file_size n t = elim (get n t.files) [ none ↦ 0 | some f ↦ length f.bytes ]

-- `fdStat` of an open file.
unfoldable pub open_file_stat : OpenFile → Tables → FdStat
open_file_stat f t = elim f.kind [
  | stdio n ↦ record { filetype = character_device; inheriting = 0; rights = f.rights; size = 0 }
  | pipe d p ↦ record {
    filetype = character_device;
    inheriting = 0;
    rights = f.rights;
    size = pipe_size d p t;
  }
  | directory d ↦ record {
    filetype = directory_type;
    inheriting = elim d.inheriting [ none ↦ scratch_file_rights | some i ↦ i ];
    rights = f.rights;
    size = 0;
  }
  | regular r ↦ record {
    filetype = regular_file;
    inheriting = 0;
    rights = f.rights;
    size = file_size r.file t;
  }
]

unfoldable pub directory_stat : ℕ → ℕ → FdStat
directory_stat rights inheriting = record {
  filetype = directory_type;
  inheriting = inheriting;
  rights = rights;
  size = 0;
}

-- `fdStat` of a descriptor that is none of the open files.
unfoldable pub preopened_stat : ℕ → Runtime → Option FdStat
preopened_stat fd r = elim (stdio_rights fd) [
  | some rights ↦
      some (record { filetype = character_device; inheriting = 0; rights = rights; size = 0 })
  | none ↦
      if fd == 3
      then some (
          if r.writable
          then directory_stat writable_workspace_rights scratch_file_rights
          else directory_stat workspace_rights regular_file_rights)
      else if fd == 4
      then some (directory_stat tmp_rights scratch_file_rights)
      else if is_package_root fd r
      then some (directory_stat workspace_rights regular_file_rights)
      else none
]

unfoldable pub fd_stat : ℕ → Runtime → Option FdStat
fd_stat fd r = elim (file_at fd r) [
  | some f ↦ some (open_file_stat f r.tables)
  | none ↦ preopened_stat fd r
]
