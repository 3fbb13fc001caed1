-- ===== src/Wasi/Sizes.antt =====
-- The calls that move offsets, and ask for and change the sizes of files
-- (apps/web/src/wasi-module.js).
use wasm_host.Prelude.{
  ℕ, zero, suc, ◌+◌, ◌-◌, ◌/◌, ◌%◌, Bool, ◌&&◌, not, Option, none, some, [], ◌∷◌, ◌++◌, length,
  take, ltb, ◌==◌, is_some, if◌then◌else◌,
}
use wasm_host.Prelude.Int.{ℤ}
use wasm_host.Prelude.Exec.{ok, err, pure, throw, gets, throw_if, ◌>>=◌, ◌>>◌}
use wasm_host.Prelude.Table.{get, set}
use wasm_host.Wasi.Descriptors.{
  Errno, success, access, badf, inval, isdir, notcapable, too_long, type_error, Bytes, Kind, stdio,
  pipe, directory, regular, OpenFile, Runtime, Action, file_at, is_writable,
}
use wasm_host.Wasi.Rights.{
  has_right, fd_advise_right, can_resize_file, can_set_file_times, can_allocate_file, FileType,
  character_device, directory_type, regular_file, fd_stat,
}
use wasm_host.Wasi.Ranges.{
  resolve_file_size, resolve_file_allocation, resolve_file_range, resolve_seek,
}
use wasm_host.Wasi.Memory.{throw_if_aborted, write_memory, write_u32, write_u64}
use wasm_host.Wasi.Reads.{present, change}
use wasm_host.Wasi.Writes.{zeros, set_file, mark_open_file_dirty}

-- What a descriptor without an offset answers to a seek.
unfoldable pub no_offset : ℕ → Runtime → Errno
no_offset fd r = if is_some (fd_stat fd r) then access else badf

-- The base of a seek: the start, the offset or the size of the file; a directory has no bytes.
unfoldable pub size_of_kind : Kind → Runtime → Action ℕ
size_of_kind (regular g) r = do
  content ← present (get g.file r.tables.files)
  pure (length content.bytes)
size_of_kind _ r = throw type_error

unfoldable pub seek_base : Kind → ℕ → ℕ → Runtime → Action (Option ℕ)
seek_base kind offset_ref zero r = pure (some 0)
seek_base kind offset_ref (suc zero) r = do
  offset ← present (get offset_ref r.tables.offsets)
  pure (some offset)
seek_base kind offset_ref (suc (suc zero)) r = do size ← size_of_kind kind r; pure (some size)
seek_base kind offset_ref (suc (suc (suc whence))) r = pure none

-- `fdSeek` from a base on, where the descriptor has its offset.
unfoldable pub seek_from : ℕ → Option ℕ → ℤ → ℕ → Action Errno
seek_from offset_ref none offset new_offset_ptr = pure inval
seek_from offset_ref (some base) offset new_offset_ptr = elim (resolve_seek base offset) [
  | err e ↦ pure e
  | ok next ↦ do
    change (λ t. record t { offsets = set offset_ref next t.offsets })
    write_u64 new_offset_ptr next
    pure success
]

unfoldable pub seek_kind : ℕ → Option OpenFile → ℤ → ℕ → ℕ → Runtime → Action Errno
seek_kind fd none offset whence new_offset_ptr r = pure (no_offset fd r)
seek_kind fd (some f) offset whence new_offset_ptr r = elim f.kind [
  | pipe d p ↦ pure (no_offset fd r)
  | stdio n ↦ pure (no_offset fd r)
  | directory d ↦ do
    base ← seek_base f.kind d.offset whence r
    seek_from d.offset base offset new_offset_ptr
  | regular g ↦ do
    base ← seek_base f.kind g.offset whence r
    seek_from g.offset base offset new_offset_ptr
]

unfoldable pub fd_seek : ℕ → ℤ → ℕ → ℕ → Action Errno
fd_seek fd offset whence new_offset_ptr = do
  throw_if_aborted
  r ← gets (λ r. r)
  seek_kind fd (file_at fd r) offset whence new_offset_ptr r

unfoldable pub tell_offset : ℕ → ℕ → Action Errno
tell_offset offset_ref offset_ptr = do
  r ← gets (λ r. r)
  offset ← present (get offset_ref r.tables.offsets)
  write_u64 offset_ptr offset
  pure success

unfoldable pub tell_kind : ℕ → Option OpenFile → ℕ → Runtime → Action Errno
tell_kind fd none offset_ptr r = pure (no_offset fd r)
tell_kind fd (some f) offset_ptr r = elim f.kind [
  | pipe d p ↦ pure (no_offset fd r)
  | stdio n ↦ pure (no_offset fd r)
  | directory d ↦ tell_offset d.offset offset_ptr
  | regular g ↦ tell_offset g.offset offset_ptr
]

unfoldable pub fd_tell : ℕ → ℕ → Action Errno
fd_tell fd offset_ptr = do
  throw_if_aborted
  r ← gets (λ r. r)
  tell_kind fd (file_at fd r) offset_ptr r

unfoldable pub filetype_code : FileType → ℕ
filetype_code character_device = 2
filetype_code directory_type = 3
filetype_code regular_file = 4

unfoldable pub fd_fdstat_get : ℕ → ℕ → Action Errno
fd_fdstat_get fd fdstat_ptr = do
  throw_if_aborted
  r ← gets (λ r. r)
  elim (fd_stat fd r) [
    | none ↦ pure badf
    | some stat ↦ do
      write_memory fdstat_ptr (filetype_code stat.filetype ∷ [])
      write_memory (fdstat_ptr + 1) (0 ∷ [])
      write_memory (fdstat_ptr + 2) (0 ∷ 0 ∷ [])
      write_u32 (fdstat_ptr + 4) 0
      write_u64 (fdstat_ptr + 8) stat.rights
      write_u64 (fdstat_ptr + 16) stat.inheriting
      pure success
  ]

unfoldable pub fd_fdstat_set_flags : ℕ → Action Errno
fd_fdstat_set_flags fd = do
  throw_if_aborted
  r ← gets (λ r. r)
  pure (if is_some (fd_stat fd r) then success else badf)

unfoldable pub write_filestat : ℕ → ℕ → ℕ → Action Unit
write_filestat ptr filetype size = do
  write_u64 ptr 0
  write_u64 (ptr + 8) 0
  write_memory (ptr + 16) (filetype ∷ [])
  write_memory (ptr + 17) (0 ∷ [])
  write_memory (ptr + 18) (0 ∷ 0 ∷ [])
  write_u32 (ptr + 20) 0
  write_u64 (ptr + 24) 1
  write_u64 (ptr + 32) size
  write_u64 (ptr + 40) 0
  write_u64 (ptr + 48) 0
  write_u64 (ptr + 56) 0

unfoldable pub fd_filestat_get : ℕ → ℕ → Action Errno
fd_filestat_get fd filestat_ptr = do
  throw_if_aborted
  r ← gets (λ r. r)
  elim (fd_stat fd r) [
    | none ↦ pure badf
    | some stat ↦ do
      write_filestat filestat_ptr (filetype_code stat.filetype) stat.size
      pure success
  ]

-- The answer to a call on a file where there is none.
unfoldable pub not_a_file : ℕ → Runtime → Errno
not_a_file fd r = elim (fd_stat fd r) [
  | none ↦ badf
  | some stat ↦ elim stat.filetype [ directory_type ↦ isdir | _ ↦ notcapable ]
]

-- `resizeOpenFile`, and the mark of the change. A new array is full of zeros.
unfoldable pub resized : Bytes → ℕ → Bytes
resized bytes size = take size bytes ++ zeros (size - length bytes)

unfoldable pub resize_open_file : Kind → ℕ → Action Unit
resize_open_file (regular g) size = do
  r ← gets (λ r. r)
  content ← present (get g.file r.tables.files)
  if length content.bytes == size then pure tt else do
    throw_if (ltb r.longest_array size) too_long
    change (λ t. mark_open_file_dirty g (set_file g.file (resized content.bytes size) t))
resize_open_file _ size = throw type_error

-- The calls on a file that is open and not a directory, by what they do with it.
unfoldable pub on_file : ℕ → (OpenFile → Action Errno) → Action Errno
on_file fd call = do
  r ← gets (λ r. r)
  elim (file_at fd r) [
    | none ↦ pure (not_a_file fd r)
    | some f ↦ elim f.kind [ directory d ↦ pure isdir | _ ↦ call f ]
  ]

unfoldable pub set_size : ℤ → OpenFile → Action Errno
set_size size f =
    if not (can_resize_file f) then pure notcapable else elim (resolve_file_size size) [
      | err e ↦ pure e
      | ok n ↦ do resize_open_file f.kind n; pure success
    ]

unfoldable pub fd_filestat_set_size : ℕ → ℤ → Action Errno
fd_filestat_set_size fd size = do throw_if_aborted; on_file fd (set_size size)

-- Four bits; not a time and the present time both.
unfoldable pub is_supported_set_times : ℕ → Bool
is_supported_set_times flags = ltb flags 16 && (not (flags % 4 == 3) && not (flags / 4 == 3))

unfoldable pub fd_filestat_set_times : ℕ → ℕ → Action Errno
fd_filestat_set_times fd fst_flags = do
  throw_if_aborted
  if not (is_supported_set_times fst_flags)
      then pure inval
      else on_file fd (λ f. pure (if can_set_file_times f then success else notcapable))

unfoldable pub allocate_to : Kind → Option ℕ → Action Unit
allocate_to kind none = pure tt
allocate_to (regular g) (some size) = do
  r ← gets (λ r. r)
  content ← present (get g.file r.tables.files)
  if ltb (length content.bytes) size then resize_open_file (regular g) size else pure tt
allocate_to _ (some size) = throw type_error

unfoldable pub allocate : ℤ → ℤ → OpenFile → Action Errno
allocate offset n f =
    if not (can_allocate_file f) then pure notcapable else elim (resolve_file_allocation offset n) [
      | err e ↦ pure e
      | ok size ↦ do allocate_to f.kind size; pure success
    ]

unfoldable pub fd_allocate : ℕ → ℤ → ℤ → Action Errno
fd_allocate fd offset n = do throw_if_aborted; on_file fd (allocate offset n)

unfoldable pub advise : ℤ → ℤ → ℕ → OpenFile → Errno
advise offset n advice f =
    if not (has_right fd_advise_right f.rights)
    then notcapable
    else if ltb 5 advice
    then inval
    else elim (resolve_file_range offset n) [ err e ↦ e | ok range ↦ success ]

unfoldable pub fd_advise : ℕ → ℤ → ℤ → ℕ → Action Errno
fd_advise fd offset n advice = do
  throw_if_aborted
  on_file fd (λ f. pure (advise offset n advice f))

-- The right is that of `fd_sync` or that of `fd_datasync`.
unfoldable pub fd_sync : ℕ → ℕ → Action Errno
fd_sync fd required_right = do
  throw_if_aborted
  on_file fd (λ f.
      pure
        (if is_writable f.kind && has_right required_right f.rights then success else notcapable))
