-- ===== src/Wasi/Reads.antt =====
-- `fdRead` and `fdPread` (apps/web/src/wasi-module.js).
use wasm_host.Prelude.{
  ℕ, ◌+◌, Bool, ◌||◌, not, Option, none, some, length, drop, ltb, ◌==◌, if◌then◌else◌,
}
use wasm_host.Prelude.Int.{ℤ}
use wasm_host.Prelude.Exec.{ok, err, pure, throw, gets, modify, ◌>>=◌, ◌>>◌}
use wasm_host.Prelude.Table.{get, set}
use wasm_host.Wasi.Descriptors.{
  Errno, success, again, badf, isdir, notcapable, type_error, Direction, read_end, write_end,
  Regular, stdio, pipe, directory, regular, OpenFile, Tables, Runtime, Action, file_at,
  is_package_root,
}
use wasm_host.Wasi.Rights.{has_right, fd_read_right, can_read_file, fd_stat}
use wasm_host.Wasi.Ranges.{resolve_file_size}
use wasm_host.Wasi.Memory.{throw_if_aborted, read_into_iovs, write_u32}

-- A value that the code takes for granted: `undefined` has no properties.
unfoldable pub present : {A : Type 0} → Option A → Action A
present none = throw type_error
present (some a) = pure a

abbrev pub change : (Tables → Tables) → Action Unit
change f = modify (λ r. record r { tables = f r.tables })

-- The answer to a call that asks for a file and gets none.
unfoldable pub no_file : ℕ → Runtime → Errno
no_file fd r = elim (fd_stat fd r) [ none ↦ badf | some s ↦ notcapable ]

unfoldable pub fd_read_stdio : ℕ → ℕ → ℕ → ℕ → ℕ → Action Errno
fd_read_stdio stdio_fd rights iovs_ptr iovs_len nread_ptr = do
  write_u32 nread_ptr 0
  if not (stdio_fd == 0)
      then pure badf
      else if not (has_right fd_read_right rights)
      then pure notcapable
      else do
        r ← gets (λ r. r)
        total ← read_into_iovs r.stdin r.stdin_offset iovs_len iovs_ptr
        modify (λ r. record r { stdin_offset = r.stdin_offset + total })
        write_u32 nread_ptr total
        pure success

unfoldable pub fd_read_pipe : Direction → ℕ → ℕ → ℕ → ℕ → ℕ → Action Errno
fd_read_pipe write_end p rights iovs_ptr iovs_len nread_ptr = do write_u32 nread_ptr 0; pure badf
fd_read_pipe read_end p rights iovs_ptr iovs_len nread_ptr = do
  write_u32 nread_ptr 0
  if not (has_right fd_read_right rights) then pure notcapable else do
    r ← gets (λ r. r)
    q ← present (get p r.tables.pipes)
    if length q.bytes == 0 then pure (if ltb 0 q.writers then again else success) else do
      total ← read_into_iovs q.bytes 0 iovs_len iovs_ptr
      change (λ t. record t { pipes = set p (record q { bytes = drop total q.bytes }) t.pipes })
      write_u32 nread_ptr total
      pure success

-- A regular file, from its own offset on.
unfoldable pub fd_read_file : Regular → ℕ → ℕ → ℕ → Action Errno
fd_read_file f iovs_ptr iovs_len nread_ptr = do
  r ← gets (λ r. r)
  content ← present (get f.file r.tables.files)
  offset ← present (get f.offset r.tables.offsets)
  total ← read_into_iovs content.bytes offset iovs_len iovs_ptr
  change (λ t. record t { offsets = set f.offset (offset + total) t.offsets })
  write_u32 nread_ptr total
  pure success

-- The standard input of the run.
unfoldable pub fd_read_stdin : ℕ → ℕ → ℕ → Action Errno
fd_read_stdin iovs_ptr iovs_len nread_ptr = do
  r ← gets (λ r. r)
  total ← read_into_iovs r.stdin r.stdin_offset iovs_len iovs_ptr
  modify (λ r. record r { stdin_offset = r.stdin_offset + total })
  write_u32 nread_ptr total
  pure success

-- `fd === WORKSPACE_FD || fd === TMP_FD || fd === this.packageRootFd`
unfoldable pub is_preopen : ℕ → Runtime → Bool
is_preopen fd r = fd == 3 || (fd == 4 || is_package_root fd r)

unfoldable pub answer : ℕ → Errno → Action Errno
answer count_ptr e = do write_u32 count_ptr 0; pure e

unfoldable pub fd_read_kind : ℕ → Option OpenFile → Bool → ℕ → ℕ → ℕ → Action Errno
fd_read_kind fd none preopen iovs_ptr iovs_len nread_ptr =
    if preopen
    then answer nread_ptr isdir
    else if fd == 0
    then fd_read_stdin iovs_ptr iovs_len nread_ptr
    else answer nread_ptr badf
fd_read_kind fd (some f) preopen iovs_ptr iovs_len nread_ptr = elim f.kind [
  | pipe d p ↦ fd_read_pipe d p f.rights iovs_ptr iovs_len nread_ptr
  | stdio n ↦ fd_read_stdio n f.rights iovs_ptr iovs_len nread_ptr
  | directory d ↦ answer nread_ptr isdir
  | regular g ↦
      if preopen then answer nread_ptr isdir else fd_read_file g iovs_ptr iovs_len nread_ptr
]

unfoldable pub fd_read : ℕ → ℕ → ℕ → ℕ → Action Errno
fd_read fd iovs_ptr iovs_len nread_ptr = do
  throw_if_aborted
  r ← gets (λ r. r)
  fd_read_kind fd (file_at fd r) (is_preopen fd r) iovs_ptr iovs_len nread_ptr

-- What `fdPread` does once it has a regular file.
unfoldable pub fd_pread_file : Regular → ℕ → ℕ → ℤ → ℕ → Action Errno
fd_pread_file f iovs_ptr iovs_len offset nread_ptr = elim (resolve_file_size offset) [
  | err e ↦ pure e
  | ok start ↦ do
    r ← gets (λ r. r)
    content ← present (get f.file r.tables.files)
    total ← read_into_iovs content.bytes start iovs_len iovs_ptr
    write_u32 nread_ptr total
    pure success
]

unfoldable pub fd_pread_kind : ℕ → Option OpenFile → Bool → ℕ → ℕ → ℤ → ℕ → Action Errno
fd_pread_kind fd none preopen iovs_ptr iovs_len offset nread_ptr =
    if preopen then pure isdir else do r ← gets (λ r. r); pure (no_file fd r)
fd_pread_kind fd (some f) preopen iovs_ptr iovs_len offset nread_ptr =
    if preopen then pure isdir else elim f.kind [
      | directory d ↦ pure isdir
      | pipe d p ↦ pure badf
      | stdio n ↦ pure badf
      | regular g ↦
          if can_read_file f
          then fd_pread_file g iovs_ptr iovs_len offset nread_ptr
          else pure notcapable
    ]

unfoldable pub fd_pread : ℕ → ℕ → ℕ → ℤ → ℕ → Action Errno
fd_pread fd iovs_ptr iovs_len offset nread_ptr = do
  throw_if_aborted
  r ← gets (λ r. r)
  write_u32 nread_ptr 0
  fd_pread_kind fd (file_at fd r) (is_preopen fd r) iovs_ptr iovs_len offset nread_ptr
