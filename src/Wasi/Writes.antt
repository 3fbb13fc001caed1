-- ===== src/Wasi/Writes.antt =====
-- `fdWrite` and `fdPwrite` (apps/web/src/wasi-module.js).
use wasm_host.Prelude.{
  ℕ, zero, suc, ◌+◌, ◌-◌, ◌*◌, Bool, true, false, ◌&&◌, ◌||◌, not, Option, none, some, List, [],
  ◌∷◌, ◌++◌, length, ltb, ◌==◌, if◌then◌else◌,
}
use wasm_host.Prelude.Int.{ℤ}
use wasm_host.Prelude.Exec.{ok, err, pure, lift, gets, modify, throw_if, ◌>>=◌, ◌>>◌}
use wasm_host.Prelude.Table.{get, set}
use wasm_host.Wasi.Descriptors.{
  Errno, success, again, badf, isdir, notcapable, broken_pipe, too_long, Bytes, Direction, read_end,
  write_end, workspace, Regular, stdio, pipe, directory, regular, OpenFile, Tables, Action, file_at,
}
use wasm_host.Wasi.Rights.{has_right, fd_write_right, can_write_file}
use wasm_host.Wasi.Ranges.{resolve_file_size, resolve_file_range}
use wasm_host.Wasi.Memory.{throw_if_aborted, overlay, read_iov_chunks, write_u32}
use wasm_host.Wasi.Reads.{present, change, no_file, is_preopen, answer}

abbrev pub pipe_buffer_limit : ℕ
pipe_buffer_limit = 1024 * 1024

unfoldable pub zeros : ℕ → Bytes
zeros zero = []
zeros (suc n) = 0 ∷ zeros n

unfoldable pub concat : List Bytes → Bytes
concat [] = []
concat (c ∷ cs) = c ++ concat cs

-- `new Uint8Array(total)` with the chunks set one after the other: what is not set is zero.
unfoldable pub filled : Bytes → List Bytes → ℕ → Bytes
filled bytes chunks total =
    let written = concat chunks in bytes ++ written ++ zeros (total - length written)

-- The output of the run, by the descriptor it goes to.
unfoldable pub emit : ℕ → List Bytes → List (ℕ × Bytes) → List (ℕ × Bytes)
emit fd [] out = out
emit fd (c ∷ cs) out = emit fd cs (out ++ ((fd, c) ∷ []))

unfoldable pub write_output : ℕ → List Bytes → Action Unit
write_output fd chunks = modify (λ r. record r { output = emit fd chunks r.output })

-- `markOpenFileDirty`
unfoldable pub mark_open_file_dirty : Regular → Tables → Tables
mark_open_file_dirty f t = elim f.mount [
  | workspace ↦ record t {
    files = elim (get f.file t.files) [
      | none ↦ t.files
      | some content ↦ set f.file (record content { fallback = false }) t.files
    ];
    dirty = true;
  }
  | _ ↦ t
]

-- The bytes with a chunk at an offset; a gap before it is zero.
unfoldable pub grown : Bytes → ℕ → Bytes
grown bytes size = if ltb (length bytes) size then bytes ++ zeros (size - length bytes) else bytes

unfoldable pub set_file : ℕ → Bytes → Tables → Tables
set_file n bytes t = record t {
  files = elim (get n t.files) [
    | none ↦ t.files
    | some content ↦ set n (record content { bytes = bytes }) t.files
  ];
}

-- One turn of the loop of `writeOpenFileAt`: the array grows, then the chunk is set. The length is
-- checked where an array is made.
unfoldable pub write_chunk : Regular → Bytes → ℕ → Action Bool
write_chunk f chunk offset = do
  r ← gets (λ r. r)
  content ← present (get f.file r.tables.files)
  let last = offset + length chunk
  let grows = ltb (length content.bytes) last
  throw_if (grows && ltb r.longest_array last) too_long
  change (set_file f.file (overlay (grown content.bytes last) chunk offset))
  pure (grows || ltb 0 (length chunk))

unfoldable pub write_chunks : Regular → List Bytes → ℕ → Bool → Action (ℕ × Bool)
write_chunks f [] offset changed = pure (offset, changed)
write_chunks f (chunk ∷ chunks) offset changed = do
  now ← write_chunk f chunk offset
  write_chunks f chunks (offset + length chunk) (changed || now)

unfoldable pub write_open_file_at : Regular → List Bytes → ℕ → Action ℕ
write_open_file_at f chunks offset = do
  done ← write_chunks f chunks offset false
  change (λ t. if done.1 then mark_open_file_dirty f t else t)
  pure done.0

unfoldable pub write_open_file : Regular → List Bytes → Action Unit
write_open_file f chunks = do
  r ← gets (λ r. r)
  content ← present (get f.file r.tables.files)
  offset ← present (get f.offset r.tables.offsets)
  next ← write_open_file_at f chunks (if f.append then length content.bytes else offset)
  change (λ t. record t { offsets = set f.offset next t.offsets })

unfoldable pub fd_write_pipe : Direction → ℕ → ℕ → ℕ → ℕ → ℕ → Action Errno
fd_write_pipe read_end p rights iovs_ptr iovs_len nwritten_ptr = answer nwritten_ptr badf
fd_write_pipe write_end p rights iovs_ptr iovs_len nwritten_ptr = do
  write_u32 nwritten_ptr 0
  if not (has_right fd_write_right rights) then pure notcapable else do
    r ← gets (λ r. r)
    q ← present (get p r.tables.pipes)
    if q.readers == 0 then pure broken_pipe else do
      chunks ← lift (read_iov_chunks r.memory iovs_len iovs_ptr)
      if ltb pipe_buffer_limit (length q.bytes + chunks.1) then pure again else do
        change (λ t. record t {
          pipes = set p (record q { bytes = filled q.bytes chunks.0 chunks.1 }) t.pipes;
        })
        write_u32 nwritten_ptr chunks.1
        pure success

-- To the standard output or the standard error.
unfoldable pub fd_write_output : ℕ → ℕ → ℕ → ℕ → Action Errno
fd_write_output fd iovs_ptr iovs_len nwritten_ptr = do
  r ← gets (λ r. r)
  chunks ← lift (read_iov_chunks r.memory iovs_len iovs_ptr)
  write_u32 nwritten_ptr chunks.1
  write_output fd chunks.0
  pure success

unfoldable pub fd_write_stdio : ℕ → ℕ → ℕ → ℕ → ℕ → Action Errno
fd_write_stdio stdio_fd rights iovs_ptr iovs_len nwritten_ptr =
    if not (stdio_fd == 1) && not (stdio_fd == 2)
    then answer nwritten_ptr badf
    else if not (has_right fd_write_right rights)
    then answer nwritten_ptr notcapable
    else fd_write_output stdio_fd iovs_ptr iovs_len nwritten_ptr

unfoldable pub fd_write_file : Regular → ℕ → ℕ → ℕ → Action Errno
fd_write_file f iovs_ptr iovs_len nwritten_ptr = do
  r ← gets (λ r. r)
  chunks ← lift (read_iov_chunks r.memory iovs_len iovs_ptr)
  write_u32 nwritten_ptr chunks.1
  write_open_file f chunks.0
  pure success

unfoldable pub fd_write_kind : ℕ → Option OpenFile → ℕ → ℕ → ℕ → Action Errno
fd_write_kind fd none iovs_ptr iovs_len nwritten_ptr =
    if not (fd == 1) && not (fd == 2)
    then answer nwritten_ptr badf
    else fd_write_output fd iovs_ptr iovs_len nwritten_ptr
fd_write_kind fd (some f) iovs_ptr iovs_len nwritten_ptr = elim f.kind [
  | pipe d p ↦ fd_write_pipe d p f.rights iovs_ptr iovs_len nwritten_ptr
  | stdio n ↦ fd_write_stdio n f.rights iovs_ptr iovs_len nwritten_ptr
  | directory d ↦ answer nwritten_ptr notcapable
  | regular g ↦
      if can_write_file f
      then fd_write_file g iovs_ptr iovs_len nwritten_ptr
      else answer nwritten_ptr notcapable
]

unfoldable pub fd_write : ℕ → ℕ → ℕ → ℕ → Action Errno
fd_write fd iovs_ptr iovs_len nwritten_ptr = do
  throw_if_aborted
  r ← gets (λ r. r)
  fd_write_kind fd (file_at fd r) iovs_ptr iovs_len nwritten_ptr

-- What `fdPwrite` does once it has a file that it may write to.
unfoldable pub fd_pwrite_file : Regular → ℕ → ℕ → ℤ → ℕ → Action Errno
fd_pwrite_file f iovs_ptr iovs_len offset nwritten_ptr = elim (resolve_file_size offset) [
  | err e ↦ pure e
  | ok start ↦ do
    r ← gets (λ r. r)
    chunks ← lift (read_iov_chunks r.memory iovs_len iovs_ptr)
    elim (resolve_file_range (ℤ.pos start) (ℤ.pos chunks.1)) [
      | err e ↦ pure e
      | ok range ↦ do
        write_open_file_at f chunks.0 start
        write_u32 nwritten_ptr chunks.1
        pure success
    ]
]

unfoldable pub fd_pwrite_kind : ℕ → Option OpenFile → Bool → ℕ → ℕ → ℤ → ℕ → Action Errno
fd_pwrite_kind fd none preopen iovs_ptr iovs_len offset nwritten_ptr =
    if preopen then pure isdir else do r ← gets (λ r. r); pure (no_file fd r)
fd_pwrite_kind fd (some f) preopen iovs_ptr iovs_len offset nwritten_ptr =
    if preopen then pure isdir else elim f.kind [
      | directory d ↦ pure isdir
      | pipe d p ↦ pure badf
      | stdio n ↦ pure badf
      | regular g ↦
          if can_write_file f
          then fd_pwrite_file g iovs_ptr iovs_len offset nwritten_ptr
          else pure notcapable
    ]

unfoldable pub fd_pwrite : ℕ → ℕ → ℕ → ℤ → ℕ → Action Errno
fd_pwrite fd iovs_ptr iovs_len offset nwritten_ptr = do
  throw_if_aborted
  r ← gets (λ r. r)
  write_u32 nwritten_ptr 0
  fd_pwrite_kind fd (file_at fd r) (is_preopen fd r) iovs_ptr iovs_len offset nwritten_ptr
