-- ===== src/Wasi/Contents/Output.antt =====
-- `fdWrite` and `fdPwrite` keep to the contents of their descriptor
-- (apps/web/src/wasi-module.js).
use wasm_host.Prelude.{
  ℕ, ◌+◌, ◌≤◌, ◌≡◌, refl, ap, Bool, true, false, ◌&&◌, not, Option, none, some, List, inr, length,
  ltb, ◌==◌, arith,
}
use wasm_host.Prelude.Int.{ℤ, pos}
use wasm_host.Prelude.Exec.{ok, OnOk_elim}
use wasm_host.Wasi.Chunks.{read_iov_chunks_le, length-filled}
use wasm_host.Prelude.Table.{get}
use wasm_host.Wasi.Descriptors.{
  Bytes, Runtime, Tables, Kind, pipe, stdio, directory, regular, Direction, read_end, write_end,
  Regular, OpenFile, is_writable, file_at,
}
use wasm_host.Wasi.Rights.{has_right, fd_write_right, can_write_file}
use wasm_host.Wasi.Ranges.{resolve_file_size, resolve_file_range}
use wasm_host.Wasi.Memory.{read_iov_chunks}
use wasm_host.Wasi.Writes
use wasm_host.Wasi.Writes.{pipe_buffer_limit, filled}
use wasm_host.Wasi.Within.{
  same_preorder, Same, Within, Within-pure, Within-gets, Within-lift, Within-then, Within-bind,
  Within-if, Within-present, Within-modify, Within-result,
}
use wasm_host.Wasi.Contents.{Contents, contents_preorder, may_change}
use wasm_host.Wasi.Contents.Memory.{throw_if_aborted-Same, write_u32-Same}
use wasm_host.Wasi.Contents.Reads.{set_pipe-Contents, answer-Contents}
use wasm_host.Wasi.Contents.Writes.{MayWrite, write_open_file_at-Contents, write_open_file-Contents}

-- A descriptor that is open and may change its file.
pub opened-MayWrite :
    (fd : ℕ) (g : Regular) (rights : ℕ) (t : Tables)
    → get fd t.open_files ≡ some (record { kind = regular g; rights = rights })
    → may_change g rights ≡ true
    → MayWrite g.file t
opened-MayWrite fd g rights t e w o =
    ground (arith, o fd (record { kind = regular g; rights = rights }) g e refl refl)

write_output-Same :
    (fd : ℕ) (chunks : List Bytes) (r : Runtime) → Within Same (Writes.write_output fd chunks) r
unfolding Writes.write_output
write_output-Same fd chunks r = Within-modify _ r refl

fd_write_output-Contents :
    (fd iovs_ptr iovs_len nwritten_ptr : ℕ) (r : Runtime)
    → Within Contents (Writes.fd_write_output fd iovs_ptr iovs_len nwritten_ptr) r
unfolding Writes.fd_write_output
fd_write_output-Contents fd iovs_ptr iovs_len nwritten_ptr r = Within-gets _ _ r (
    Within-lift _ _ r λ chunks _.
      Within-then _ _ r (write_u32-Same nwritten_ptr chunks.1 r)
        λ _ u _. Within-then _ _ u (write_output-Same fd chunks.0 u) λ _ v _. Within-pure _ v)

fd_write_stdio-Contents :
    (stdio_fd rights iovs_ptr iovs_len nwritten_ptr : ℕ) (r : Runtime)
    → Within Contents (Writes.fd_write_stdio stdio_fd rights iovs_ptr iovs_len nwritten_ptr) r
unfolding Writes.fd_write_stdio
fd_write_stdio-Contents stdio_fd rights iovs_ptr iovs_len nwritten_ptr r =
    Within-if (not (stdio_fd == 1) && not (stdio_fd == 2)) _ _ r
      (λ _. answer-Contents nwritten_ptr _ r)
      λ _.
        Within-if (not (has_right fd_write_right rights)) _ _ r
          (λ _. answer-Contents nwritten_ptr _ r)
          λ _. fd_write_output-Contents stdio_fd iovs_ptr iovs_len nwritten_ptr r

-- What the check of the limit says of the bytes that the pipe gets.
filled_le :
    (bytes : Bytes) (chunks : List Bytes × ℕ) (iovs_len iovs_ptr : ℕ) (r : Runtime)
    → read_iov_chunks r.memory iovs_len iovs_ptr ≡ ok chunks
    → ltb pipe_buffer_limit (length bytes + chunks.1) ≡ false
    → length (filled bytes chunks.0 chunks.1) ≤ pipe_buffer_limit
filled_le bytes chunks iovs_len iovs_ptr r e fits =
    let enough = OnOk_elim _ _ chunks (read_iov_chunks_le r.memory iovs_len iovs_ptr) e in
    rw (length-filled bytes chunks.0 chunks.1 enough) (ground arith)

fd_write_pipe-Contents :
    (d : Direction) (p rights iovs_ptr iovs_len nwritten_ptr : ℕ) (r : Runtime)
    → Within Contents (Writes.fd_write_pipe d p rights iovs_ptr iovs_len nwritten_ptr) r
unfolding Writes.fd_write_pipe
fd_write_pipe-Contents read_end p rights iovs_ptr iovs_len nwritten_ptr r =
    answer-Contents nwritten_ptr _ r
fd_write_pipe-Contents write_end p rights iovs_ptr iovs_len nwritten_ptr r =
    Within-then _ _ r (write_u32-Same nwritten_ptr 0 r) λ _ u _.
      Within-if (not (has_right fd_write_right rights)) _ _ u (λ _. Within-pure _ u)
        λ _. Within-gets _ _ u (
          Within-present _ _ u λ q e.
            Within-if (q.readers == 0) _ _ u (λ _. Within-pure _ u)
              λ _. Within-lift _ _ u λ chunks read.
                Within-if (ltb pipe_buffer_limit (length q.bytes + chunks.1)) _ _ u
                  (λ _. Within-pure _ u)
                  λ fits.
                    Within-bind _ _ u
                      (Within-modify _ u (
                        set_pipe-Contents p q _ u.tables e (
                          refl,
                          refl,
                          inr (filled_le q.bytes chunks iovs_len iovs_ptr u read fits),
                        )))
                      λ _ v _.
                        Within-then _ _ v (write_u32-Same nwritten_ptr chunks.1 v)
                          λ _ w _. Within-pure _ w)

fd_write_file-Contents :
    (f : Regular) (iovs_ptr iovs_len nwritten_ptr : ℕ) (r : Runtime)
    → MayWrite f.file r.tables
    → Within Contents (Writes.fd_write_file f iovs_ptr iovs_len nwritten_ptr) r
unfolding Writes.fd_write_file
fd_write_file-Contents f iovs_ptr iovs_len nwritten_ptr r h = Within-gets _ _ r (
    Within-lift _ _ r λ chunks _.
      Within-then _ _ r (write_u32-Same nwritten_ptr chunks.1 r) λ _ u same.
        Within-bind _ _ u (write_open_file-Contents f chunks.0 u (rw same h))
          λ _ v _. Within-pure _ v)

-- The descriptor that the call was made on.
fd_write_open-Contents :
    (fd : ℕ) (kind : Kind) (rights iovs_ptr iovs_len nwritten_ptr : ℕ) (r : Runtime)
    → get fd r.tables.open_files ≡ some (record { kind = kind; rights = rights })
    → Within Contents
        (Writes.fd_write_kind fd
          (some (record { kind = kind; rights = rights }))
          iovs_ptr
          iovs_len
          nwritten_ptr)
        r
unfolding Writes.fd_write_kind can_write_file is_writable
fd_write_open-Contents fd (pipe d p) rights iovs_ptr iovs_len nwritten_ptr r e =
    fd_write_pipe-Contents d p rights iovs_ptr iovs_len nwritten_ptr r
fd_write_open-Contents fd (stdio n) rights iovs_ptr iovs_len nwritten_ptr r e =
    fd_write_stdio-Contents n rights iovs_ptr iovs_len nwritten_ptr r
fd_write_open-Contents fd (directory d) rights iovs_ptr iovs_len nwritten_ptr r e =
    answer-Contents nwritten_ptr _ r
fd_write_open-Contents fd (regular g) rights iovs_ptr iovs_len nwritten_ptr r e =
    Within-if (g.writable && has_right fd_write_right rights) _ _ r
      (λ can.
        fd_write_file-Contents g iovs_ptr iovs_len nwritten_ptr r
          (opened-MayWrite fd g rights r.tables e (ground (arith, can))))
      λ _. answer-Contents nwritten_ptr _ r

fd_write_kind-Contents :
    (fd : ℕ) (f : Option OpenFile) (iovs_ptr iovs_len nwritten_ptr : ℕ) (r : Runtime)
    → get fd r.tables.open_files ≡ f
    → Within Contents (Writes.fd_write_kind fd f iovs_ptr iovs_len nwritten_ptr) r
unfolding Writes.fd_write_kind
fd_write_kind-Contents fd none iovs_ptr iovs_len nwritten_ptr r e =
    Within-if (not (fd == 1) && not (fd == 2)) _ _ r (λ _. answer-Contents nwritten_ptr _ r)
      λ _. fd_write_output-Contents fd iovs_ptr iovs_len nwritten_ptr r
fd_write_kind-Contents fd (some f) iovs_ptr iovs_len nwritten_ptr r e =
    fd_write_open-Contents fd f.kind f.rights iovs_ptr iovs_len nwritten_ptr r e

pub fd_write-Contents :
    (fd iovs_ptr iovs_len nwritten_ptr : ℕ) (r : Runtime)
    → Within Contents (Writes.fd_write fd iovs_ptr iovs_len nwritten_ptr) r
unfolding Writes.fd_write file_at
fd_write-Contents fd iovs_ptr iovs_len nwritten_ptr r =
    Within-then _ _ r (throw_if_aborted-Same r)
      λ _ u _. Within-gets _ _ u (fd_write_kind-Contents fd _ iovs_ptr iovs_len nwritten_ptr u refl)

fd_pwrite_file-Contents :
    (f : Regular) (iovs_ptr iovs_len : ℕ) (offset : ℤ) (nwritten_ptr : ℕ) (r : Runtime)
    → MayWrite f.file r.tables
    → Within Contents (Writes.fd_pwrite_file f iovs_ptr iovs_len offset nwritten_ptr) r
unfolding Writes.fd_pwrite_file
fd_pwrite_file-Contents f iovs_ptr iovs_len offset nwritten_ptr r h =
    Within-result (resolve_file_size offset) _ _ r (λ e _. Within-pure e r)
      λ start _. Within-gets _ _ r (
        Within-lift _ _ r λ chunks _.
          Within-result (resolve_file_range (pos start) (pos chunks.1)) _ _ r
            (λ e _. Within-pure e r)
            λ range _. Within-bind _ _ r (write_open_file_at-Contents f chunks.0 start r h) λ _ u _.
              Within-then _ _ u (write_u32-Same nwritten_ptr chunks.1 u) λ _ v _. Within-pure _ v)

fd_pwrite_open-Contents :
    (fd : ℕ) (kind : Kind) (rights iovs_ptr iovs_len : ℕ) (offset : ℤ) (nwritten_ptr : ℕ)
    (r : Runtime)
    → get fd r.tables.open_files ≡ some (record { kind = kind; rights = rights })
    → Within Contents
        (Writes.fd_pwrite_kind fd
          (some (record { kind = kind; rights = rights }))
          false
          iovs_ptr
          iovs_len
          offset
          nwritten_ptr)
        r
unfolding Writes.fd_pwrite_kind can_write_file is_writable
fd_pwrite_open-Contents fd (pipe d p) rights iovs_ptr iovs_len offset nwritten_ptr r e =
    Within-pure _ r
fd_pwrite_open-Contents fd (stdio n) rights iovs_ptr iovs_len offset nwritten_ptr r e =
    Within-pure _ r
fd_pwrite_open-Contents fd (directory d) rights iovs_ptr iovs_len offset nwritten_ptr r e =
    Within-pure _ r
fd_pwrite_open-Contents fd (regular g) rights iovs_ptr iovs_len offset nwritten_ptr r e =
    Within-if (g.writable && has_right fd_write_right rights) _ _ r
      (λ can.
        fd_pwrite_file-Contents g iovs_ptr iovs_len offset nwritten_ptr r
          (opened-MayWrite fd g rights r.tables e (ground (arith, can))))
      λ _. Within-pure _ r

fd_pwrite_kind-Contents :
    (fd : ℕ) (f : Option OpenFile) (preopen : Bool) (iovs_ptr iovs_len : ℕ) (offset : ℤ)
    (nwritten_ptr : ℕ) (r : Runtime)
    → get fd r.tables.open_files ≡ f
    → Within Contents (Writes.fd_pwrite_kind fd f preopen iovs_ptr iovs_len offset nwritten_ptr) r
unfolding Writes.fd_pwrite_kind
fd_pwrite_kind-Contents fd none preopen iovs_ptr iovs_len offset nwritten_ptr r e =
    Within-if preopen _ _ r (λ _. Within-pure _ r) λ _. Within-gets _ _ r (Within-pure _ r)
fd_pwrite_kind-Contents fd (some f) true iovs_ptr iovs_len offset nwritten_ptr r e = Within-pure _ r
fd_pwrite_kind-Contents fd (some f) false iovs_ptr iovs_len offset nwritten_ptr r e =
    fd_pwrite_open-Contents fd f.kind f.rights iovs_ptr iovs_len offset nwritten_ptr r e

pub fd_pwrite-Contents :
    (fd iovs_ptr iovs_len : ℕ) (offset : ℤ) (nwritten_ptr : ℕ) (r : Runtime)
    → Within Contents (Writes.fd_pwrite fd iovs_ptr iovs_len offset nwritten_ptr) r
unfolding Writes.fd_pwrite file_at
fd_pwrite-Contents fd iovs_ptr iovs_len offset nwritten_ptr r =
    Within-then _ _ r (throw_if_aborted-Same r) λ _ u _. Within-gets _ _ u (
      Within-then _ _ u (write_u32-Same nwritten_ptr 0 u) λ _ v same.
        fd_pwrite_kind-Contents fd _ _ iovs_ptr iovs_len offset nwritten_ptr v
          (ap (λ t. get fd t.open_files) same))
