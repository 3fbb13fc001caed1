-- ===== src/Wasi/Tables.antt =====
-- The calls that open, move and close descriptors, and change their rights and flags
-- (apps/web/src/wasi-module.js).
use wasm_host.Prelude.{
  ℕ, zero, suc, ◌+◌, ◌-◌, ◌%◌, ◌^◌, Bool, ◌&&◌, ◌||◌, not, Option, none, some, [], ◌∷◌, ltb, leb,
  ◌==◌, is_some, if◌then◌else◌,
}
use wasm_host.Prelude.Int.{ℤ, pos, negsuc}
use wasm_host.Prelude.Exec.{pure, gets, ◌>>=◌, ◌>>◌}
use wasm_host.Prelude.Table.{Table, get, set, delete}
use wasm_host.Wasi.Descriptors.{
  Errno, success, badf, fault, inval, notcapable, Direction, read_end, write_end, Pipe, Mount,
  workspace, scratch, package_root, Kind, stdio, pipe, directory, OpenFile, Tables, Runtime, Action,
  file_at, is_package_root, is_stdio_fd, is_dynamic_file_fd_number, is_open_pipe, is_open_stdio,
  is_workspace_file,
}
use wasm_host.Wasi.Rights.{
  allows_rights, fd_stat, FdStat, stdio_rights, pipe_read_rights, pipe_write_rights,
}
use wasm_host.Wasi.Memory.{throw_if_aborted, can_write_u32, write_u32}
use wasm_host.Wasi.Reads.{change, no_file}

-- A pipe with one end fewer or more; no count goes below 0.
unfoldable pub fewer : Direction → Pipe → Pipe
fewer read_end q = record q { readers = q.readers - 1 }
fewer write_end q = record q { writers = q.writers - 1 }

unfoldable pub more : Direction → Pipe → Pipe
more read_end q = record q { readers = q.readers + 1 }
more write_end q = record q { writers = q.writers + 1 }

unfoldable pub change_pipe : (Pipe → Pipe) → ℕ → Option Pipe → Tables → Tables
change_pipe g p none t = t
change_pipe g p (some q) t = record t { pipes = set p (g q) t.pipes }

-- `closeOpenFile` and `retainOpenFile`, on what the file is.
unfoldable pub close_open_file : Kind → Tables → Tables
close_open_file (pipe d p) t = change_pipe (fewer d) p (get p t.pipes) t
close_open_file _ t = t

unfoldable pub retain_open_file : Kind → Tables → Tables
retain_open_file (pipe d p) t = change_pipe (more d) p (get p t.pipes) t
retain_open_file _ t = t

unfoldable pub put_open_file : ℕ → OpenFile → Tables → Tables
put_open_file fd f t = record t { open_files = set fd f t.open_files }

-- The descriptor that is there loses its file, if it has one.
unfoldable pub close_found : Option OpenFile → Tables → Tables
close_found none t = t
close_found (some f) t = close_open_file f.kind t

unfoldable pub close_replaced : ℕ → Tables → Tables
close_replaced fd t = close_found (get fd t.open_files) t

unfoldable pub remove_open_file : ℕ → Tables → Tables
remove_open_file fd t = record t {
  open_files = delete fd t.open_files;
  fd_flags_ext = delete fd t.fd_flags_ext;
}

unfoldable pub put_flags : ℕ → ℕ → Tables → Tables
put_flags fd flags t = record t {
  fd_flags_ext = if flags == 0 then delete fd t.fd_flags_ext else set fd flags t.fd_flags_ext;
}

-- A dynamic descriptor that is not below the next one moves it.
unfoldable pub reserve : ℕ → Tables → Tables
reserve fd t =
    if is_dynamic_file_fd_number fd && leb t.next_file_fd fd
    then record t { next_file_fd = fd + 1 }
    else t

unfoldable pub fd_close : ℕ → Action Errno
fd_close fd = do
  throw_if_aborted
  r ← gets (λ r. r)
  elim (file_at fd r) [
    | none ↦ pure badf
    | some f ↦ do change (λ t. remove_open_file fd (close_open_file f.kind t)); pure success
  ]

-- A standard descriptor takes a workspace file, a pipe or another standard descriptor.
unfoldable pub may_replace : ℕ → Kind → Bool
may_replace to kind =
    not (is_stdio_fd to) || (is_workspace_file kind || (is_open_pipe kind || is_open_stdio kind))

unfoldable pub move_flags : ℕ → ℕ → Tables → Tables
move_flags fd to t =
    let cleared = delete to (delete fd t.fd_flags_ext) in
    record t {
      fd_flags_ext = elim (get fd t.fd_flags_ext) [
        | none ↦ cleared
        | some flags ↦ set to flags cleared
      ];
    }

unfoldable pub moved : ℕ → ℕ → OpenFile → Tables → Tables
moved fd to f t =
    let closed = close_replaced to t in
    reserve to (
      move_flags fd to
        (put_open_file to f (record closed { open_files = delete fd closed.open_files })))

unfoldable pub fd_renumber : ℕ → ℕ → Action Errno
fd_renumber fd to = do
  throw_if_aborted
  r ← gets (λ r. r)
  elim (file_at fd r) [
    | none ↦ pure (no_file fd r)
    | some f ↦
        if not (is_dynamic_file_fd_number to) && not (is_stdio_fd to)
        then pure notcapable
        else if not (may_replace to f.kind)
        then pure notcapable
        else if fd == to
        then pure success
        else do change (moved fd to f); pure success
  ]

-- The descriptors from `fd` on that are open.
unfoldable pub open_above : ℕ → Table OpenFile → ℕ
open_above fd [] = 0
open_above fd ((k, f) ∷ t) = let rest = open_above fd t in if leb fd k then 1 + rest else rest

unfoldable pub free_fd : ℕ → ℕ → Runtime → ℕ
free_fd zero fd r = fd
free_fd (suc fuel) fd r =
    let next = free_fd fuel (fd + 1) r in if is_some (fd_stat fd r) then next else fd

-- The loop of `allocateDynamicFileFd` from a descriptor on; each turn passes an open descriptor or
-- that of the package's root.
unfoldable pub dynamic_file_fd : ℕ → Runtime → ℕ
dynamic_file_fd min_result_fd r =
    let asked = min_result_fd % 2 ^ 32 in
    let first = if leb 5 asked then asked else 5 in
    free_fd (2 + open_above first r.tables.open_files) first r

-- The descriptor is given away: the next one is above it.
unfoldable pub given : ℕ → Tables → Tables
given fd t = if leb t.next_file_fd fd then record t { next_file_fd = fd + 1 } else t

unfoldable pub allocate_dynamic_file_fd : ℕ → Action ℕ
allocate_dynamic_file_fd min_result_fd = do
  r ← gets (λ r. r)
  let fd = dynamic_file_fd min_result_fd r
  change (given fd)
  pure fd

-- The directory that a preopened descriptor stands for.
abbrev preopened_directory : Mount → FdStat → ℕ → OpenFile
preopened_directory mount stat offset = record {
  kind = directory (record {
    inheriting = some stat.inheriting;
    mount = mount;
    offset = offset;
    path = some [];
  });
  rights = stat.rights;
}

-- What `duplicateOpenFileForFd` makes of a descriptor that is none of the open files. An offset of
-- its own is `offset`.
unfoldable pub duplicate_preopened : ℕ → FdStat → ℕ → Runtime → Option OpenFile
duplicate_preopened fd stat offset r = elim (stdio_rights fd) [
  | some rights ↦ some (record { kind = stdio fd; rights = rights })
  | none ↦
      if fd == 3
      then some (preopened_directory workspace stat offset)
      else if fd == 4
      then some (preopened_directory scratch stat offset)
      else if is_package_root fd r
      then some (preopened_directory package_root stat offset)
      else none
]

-- A copy of a descriptor shares the offset of its file.
unfoldable pub duplicate_open_file_for_fd : ℕ → Runtime → Option OpenFile
duplicate_open_file_for_fd fd r = elim (file_at fd r) [
  | some f ↦ some f
  | none ↦ elim (fd_stat fd r) [
    | none ↦ none
    | some stat ↦ duplicate_preopened fd stat r.tables.next_offset r
  ]
]

-- A new offset, at 0.
unfoldable pub new_offset : Tables → Tables
new_offset t = record t { offsets = set t.next_offset 0 t.offsets; next_offset = t.next_offset + 1 }

unfoldable pub duplicate_fd : ℕ → ℕ → ℕ → ℕ → Action Errno
duplicate_fd fd min_result_fd flags ret_fd_ptr = do
  throw_if_aborted
  r ← gets (λ r. r)
  if not (can_write_u32 ret_fd_ptr r.memory)
      then pure fault
      else elim (duplicate_open_file_for_fd fd r) [
        | none ↦ pure badf
        | some f ↦ do
          change new_offset
          new_fd ← allocate_dynamic_file_fd min_result_fd
          change (λ t. put_flags new_fd flags (put_open_file new_fd f (retain_open_file f.kind t)))
          write_u32 ret_fd_ptr new_fd
          pure success
      ]

abbrev pub fd_dup : ℕ → ℕ → Action Errno
fd_dup fd ret_fd_ptr = duplicate_fd fd 5 0 ret_fd_ptr

unfoldable pub refused : ℕ → Errno → Action Errno
refused ret_fd_ptr e = do write_u32 ret_fd_ptr 0; pure e

unfoldable pub copied_to : ℕ → ℕ → OpenFile → Tables → Tables
copied_to to flags f t =
    reserve to
      (put_flags to flags (put_open_file to f (retain_open_file f.kind (close_replaced to t))))

unfoldable pub duplicate_fd_to : ℕ → ℕ → ℕ → ℕ → Action Errno
duplicate_fd_to fd target_fd flags ret_fd_ptr = do
  throw_if_aborted
  r ← gets (λ r. r)
  let to = target_fd % 2 ^ 32
  if not (can_write_u32 ret_fd_ptr r.memory)
      then pure fault
      else if not (is_some (fd_stat fd r))
      then refused ret_fd_ptr badf
      else if not (is_dynamic_file_fd_number to) && not (is_stdio_fd to)
      then refused ret_fd_ptr notcapable
      else if fd == to
      then (do write_u32 ret_fd_ptr to; pure success)
      else elim (duplicate_open_file_for_fd fd r) [
        | none ↦ refused ret_fd_ptr badf
        | some f ↦ if not (may_replace to f.kind) then refused ret_fd_ptr notcapable else do
          change (λ t. copied_to to flags f (new_offset t))
          write_u32 ret_fd_ptr to
          pure success
      ]

-- `fdDup2`, where the flag is the number of the source.
abbrev pub fd_dup2 : ℕ → ℕ → ℕ → ℕ → Action Errno
fd_dup2 fd target_fd cloexec ret_fd_ptr =
    duplicate_fd_to fd target_fd (if cloexec == 1 then 1 else 0) ret_fd_ptr

unfoldable pub new_pipe : Tables → Tables
new_pipe t = record t {
  pipes = set t.next_pipe (record { bytes = []; readers = 1; writers = 1 }) t.pipes;
  next_pipe = t.next_pipe + 1;
}

abbrev pub pipe_file : Direction → ℕ → OpenFile
pipe_file d p = record {
  kind = pipe d p;
  rights = elim d [ read_end ↦ pipe_read_rights | write_end ↦ pipe_write_rights ];
}

unfoldable pub fd_pipe : ℕ → ℕ → Action Errno
fd_pipe read_fd_ptr write_fd_ptr = do
  throw_if_aborted
  r ← gets (λ r. r)
  let p = r.tables.next_pipe
  if not (can_write_u32 read_fd_ptr r.memory) || not (can_write_u32 write_fd_ptr r.memory)
      then pure fault
      else do
        change new_pipe
        read_fd ← allocate_dynamic_file_fd 5
        change (put_open_file read_fd (pipe_file read_end p))
        write_fd ← allocate_dynamic_file_fd (read_fd + 1)
        change (put_open_file write_fd (pipe_file write_end p))
        write_u32 read_fd_ptr read_fd
        write_u32 write_fd_ptr write_fd
        pure success

-- The rights of a file become these; a directory passes its own on.
unfoldable pub with_rights : ℕ → ℕ → OpenFile → OpenFile
with_rights rights inheriting f = record {
  kind = elim f.kind [
    | directory d ↦ directory (record d { inheriting = some inheriting })
    | other ↦ other
  ];
  rights = rights;
}

abbrev pub number_of : ℤ → ℕ
number_of (pos n) = n
number_of (negsuc n) = 0

unfoldable pub fd_fdstat_set_rights : ℕ → ℤ → ℤ → Action Errno
fd_fdstat_set_rights fd rights_base rights_inheriting = do
  throw_if_aborted
  r ← gets (λ r. r)
  elim (fd_stat fd r) [
    | none ↦ pure badf
    | some stat ↦
        if not (allows_rights rights_base stat.rights)
          || not (allows_rights rights_inheriting stat.inheriting)
        then pure notcapable
        else elim (file_at fd r) [
          | none ↦ pure success
          | some f ↦ do
            change (
                put_open_file fd
                  (with_rights (number_of rights_base) (number_of rights_inheriting) f))
            pure success
        ]
  ]

unfoldable pub fd_fdflags_set : ℕ → ℕ → Action Errno
fd_fdflags_set fd flags = do
  throw_if_aborted
  r ← gets (λ r. r)
  let next_flags = flags % 2 ^ 32
  if ltb 1 next_flags
      then pure inval
      else if not (is_some (fd_stat fd r))
      then pure badf
      else do change (put_flags fd next_flags); pure success

unfoldable pub fd_fdflags_get : ℕ → ℕ → Action Errno
fd_fdflags_get fd flags_ptr = do
  throw_if_aborted
  r ← gets (λ r. r)
  if not (is_some (fd_stat fd r)) then pure badf else do
    write_u32 flags_ptr (elim (get fd r.tables.fd_flags_ext) [ none ↦ 0 | some flags ↦ flags ])
    pure success
