-- ===== src/Wasi/Contents/Reads.antt =====
-- The reads of a descriptor keep to its contents (apps/web/src/wasi-module.js).
use wasm_host.Prelude.{
  ℕ, zero, suc, List, [], ◌∷◌, ◌≤◌, ◌≡◌, refl, Bool, true, false, not, Option, none, some, inl, inr,
  length, drop, ◌==◌, Bool-cases, arith,
}
use wasm_host.Prelude.Int.{ℤ}
use wasm_host.Prelude.Table.{Table, get, set, get-set}
use wasm_host.Wasi.Descriptors.{
  Errno, Runtime, Tables, Pipe, Kind, pipe, stdio, directory, regular, Direction, read_end,
  write_end, Regular, OpenFile,
}
use wasm_host.Wasi.Rights.{has_right, fd_read_right, can_read_file}
use wasm_host.Wasi.Ranges.{resolve_file_size}
use wasm_host.Wasi.Reads
use wasm_host.Wasi.Within.{
  same_preorder, Within, Within-Same, Within-pure, Within-gets, Within-then, Within-bind, Within-if,
  Within-present, Within-modify, Within-result,
}
use wasm_host.Wasi.Contents.{Contents, contents_preorder, SamePipe}
use wasm_host.Wasi.Contents.Memory.{
  throw_if_aborted-Same, write_u32-Same, answer-Same, read_into_iovs-Same,
}

fd_read_stdio-Contents :
    (stdio_fd rights iovs_ptr iovs_len nread_ptr : ℕ) (r : Runtime)
    → Within Contents (Reads.fd_read_stdio stdio_fd rights iovs_ptr iovs_len nread_ptr) r
unfolding Reads.fd_read_stdio
fd_read_stdio-Contents stdio_fd rights iovs_ptr iovs_len nread_ptr r =
    Within-then _ _ r (write_u32-Same nread_ptr 0 r) λ _ u _.
      Within-if (not (stdio_fd == 0)) _ _ u (λ _. Within-pure _ u)
        λ _.
          Within-if (not (has_right fd_read_right rights)) _ _ u (λ _. Within-pure _ u)
            λ _. Within-gets _ _ u (
              Within-then _ _ u (read_into_iovs-Same _ _ iovs_len iovs_ptr u) λ total v _.
                Within-then _ _ v (Within-modify _ v refl) λ _ w _.
                  Within-then _ _ w (write_u32-Same nread_ptr total w) λ _ x _. Within-pure _ x)

shorter : (n : ℕ) (bytes : List ℕ) → length (drop n bytes) ≤ length bytes
shorter zero bytes = omega arith
shorter (suc n) [] = omega arith
shorter (suc n) (b ∷ bytes) = omega (arith, shorter n bytes)

-- Fewer bytes in a pipe.
pub set_pipe-Contents :
    (p : ℕ) (q q' : Pipe) (t : Tables)
    → get p t.pipes ≡ some q
    → SamePipe (some q) (some q')
    → Contents t (record t { pipes = set p q' t.pipes })
set_pipe-Contents p q q' t e h = record {
  open_files = refl;
  next_file_fd = refl;
  next_pipe = refl;
  pipes = λ j.
      let keeps = contents_preorder.stay t in
      elim (Bool-cases (p == j)) [
        | inl same ↦
            let here : p ≡ j = ground arith in rw (get-set p j q' t.pipes, same, ← here, e) h
        | inr other ↦ rw (get-set p j q' t.pipes, other) (keeps.pipes j)
      ];
  read_only = λ n o. refl;
}

fd_read_pipe-Contents :
    (d : Direction) (p rights iovs_ptr iovs_len nread_ptr : ℕ) (r : Runtime)
    → Within Contents (Reads.fd_read_pipe d p rights iovs_ptr iovs_len nread_ptr) r
unfolding Reads.fd_read_pipe
fd_read_pipe-Contents write_end p rights iovs_ptr iovs_len nread_ptr r =
    Within-then _ _ r (write_u32-Same nread_ptr 0 r) λ _ u _. Within-pure _ u
fd_read_pipe-Contents read_end p rights iovs_ptr iovs_len nread_ptr r =
    Within-then _ _ r (write_u32-Same nread_ptr 0 r) λ _ u _.
      Within-if (not (has_right fd_read_right rights)) _ _ u (λ _. Within-pure _ u)
        λ _. Within-gets _ _ u (
          Within-present _ _ u λ q e.
            Within-if (length q.bytes == 0) _ _ u (λ _. Within-pure _ u)
              λ _. Within-then _ _ u (read_into_iovs-Same _ _ iovs_len iovs_ptr u) λ total v same.
                Within-bind _ _ v
                  (Within-modify _ v (
                    set_pipe-Contents p q _ v.tables (rw same e)
                      (refl, refl, inl (shorter total q.bytes))))
                  λ _ w _.
                    Within-then _ _ w (write_u32-Same nread_ptr total w) λ _ x _. Within-pure _ x)

pub offsets-Contents : (o : Table ℕ) (t : Tables) → Contents t (record t { offsets = o })
offsets-Contents o t = record {
  open_files = refl;
  next_file_fd = refl;
  next_pipe = refl;
  pipes = (contents_preorder.stay t).pipes;
  read_only = λ n h. refl;
}

fd_read_file-Contents :
    (f : Regular) (iovs_ptr iovs_len nread_ptr : ℕ) (r : Runtime)
    → Within Contents (Reads.fd_read_file f iovs_ptr iovs_len nread_ptr) r
unfolding Reads.fd_read_file
fd_read_file-Contents f iovs_ptr iovs_len nread_ptr r = Within-gets _ _ r (
    Within-present _ _ r λ content _. Within-present _ _ r λ offset _.
      Within-then _ _ r (read_into_iovs-Same _ _ iovs_len iovs_ptr r) λ total u _.
        Within-bind _ _ u (Within-modify _ u (offsets-Contents _ u.tables))
          λ _ v _. Within-then _ _ v (write_u32-Same nread_ptr total v) λ _ w _. Within-pure _ w)

fd_read_stdin-Contents :
    (iovs_ptr iovs_len nread_ptr : ℕ) (r : Runtime)
    → Within Contents (Reads.fd_read_stdin iovs_ptr iovs_len nread_ptr) r
unfolding Reads.fd_read_stdin
fd_read_stdin-Contents iovs_ptr iovs_len nread_ptr r = Within-gets _ _ r (
    Within-then _ _ r (read_into_iovs-Same _ _ iovs_len iovs_ptr r) λ total v _.
      Within-then _ _ v (Within-modify _ v refl)
        λ _ w _. Within-then _ _ w (write_u32-Same nread_ptr total w) λ _ x _. Within-pure _ x)

pub answer-Contents :
    (count_ptr : ℕ) (e : Errno) (r : Runtime) → Within Contents (Reads.answer count_ptr e) r
answer-Contents count_ptr e r = Within-Same _ r (answer-Same count_ptr e r)

fd_read_open-Contents :
    (fd : ℕ) (kind : Kind) (rights : ℕ) (preopen : Bool) (iovs_ptr iovs_len nread_ptr : ℕ)
    (r : Runtime)
    → Within Contents
        (Reads.fd_read_kind fd
          (some (record { kind = kind; rights = rights }))
          preopen
          iovs_ptr
          iovs_len
          nread_ptr)
        r
unfolding Reads.fd_read_kind
fd_read_open-Contents fd (pipe d p) rights preopen iovs_ptr iovs_len nread_ptr r =
    fd_read_pipe-Contents d p rights iovs_ptr iovs_len nread_ptr r
fd_read_open-Contents fd (stdio n) rights preopen iovs_ptr iovs_len nread_ptr r =
    fd_read_stdio-Contents n rights iovs_ptr iovs_len nread_ptr r
fd_read_open-Contents fd (directory d) rights preopen iovs_ptr iovs_len nread_ptr r =
    answer-Contents nread_ptr _ r
fd_read_open-Contents fd (regular g) rights preopen iovs_ptr iovs_len nread_ptr r =
    Within-if preopen _ _ r (λ _. answer-Contents nread_ptr _ r)
      λ _. fd_read_file-Contents g iovs_ptr iovs_len nread_ptr r

fd_read_kind-Contents :
    (fd : ℕ) (f : Option OpenFile) (preopen : Bool) (iovs_ptr iovs_len nread_ptr : ℕ) (r : Runtime)
    → Within Contents (Reads.fd_read_kind fd f preopen iovs_ptr iovs_len nread_ptr) r
unfolding Reads.fd_read_kind
fd_read_kind-Contents fd none preopen iovs_ptr iovs_len nread_ptr r =
    Within-if preopen _ _ r (λ _. answer-Contents nread_ptr _ r)
      λ _.
        Within-if (fd == 0) _ _ r (λ _. fd_read_stdin-Contents iovs_ptr iovs_len nread_ptr r)
          λ _. answer-Contents nread_ptr _ r
fd_read_kind-Contents fd (some f) preopen iovs_ptr iovs_len nread_ptr r =
    fd_read_open-Contents fd f.kind f.rights preopen iovs_ptr iovs_len nread_ptr r

pub fd_read-Contents :
    (fd iovs_ptr iovs_len nread_ptr : ℕ) (r : Runtime)
    → Within Contents (Reads.fd_read fd iovs_ptr iovs_len nread_ptr) r
unfolding Reads.fd_read
fd_read-Contents fd iovs_ptr iovs_len nread_ptr r =
    Within-then _ _ r (throw_if_aborted-Same r)
      λ _ u _. Within-gets _ _ u (fd_read_kind-Contents fd _ _ iovs_ptr iovs_len nread_ptr u)

fd_pread_file-Contents :
    (f : Regular) (iovs_ptr iovs_len : ℕ) (offset : ℤ) (nread_ptr : ℕ) (r : Runtime)
    → Within Contents (Reads.fd_pread_file f iovs_ptr iovs_len offset nread_ptr) r
unfolding Reads.fd_pread_file
fd_pread_file-Contents f iovs_ptr iovs_len offset nread_ptr r =
    Within-result (resolve_file_size offset) _ _ r (λ e _. Within-pure e r)
      λ start _. Within-gets _ _ r (
        Within-present _ _ r λ content _.
          Within-then _ _ r (read_into_iovs-Same _ _ iovs_len iovs_ptr r) λ total u _.
            Within-then _ _ u (write_u32-Same nread_ptr total u) λ _ v _. Within-pure _ v)

fd_pread_open-Contents :
    (fd : ℕ) (kind : Kind) (rights iovs_ptr iovs_len : ℕ) (offset : ℤ) (nread_ptr : ℕ) (r : Runtime)
    → Within Contents
        (Reads.fd_pread_kind fd
          (some (record { kind = kind; rights = rights }))
          false
          iovs_ptr
          iovs_len
          offset
          nread_ptr)
        r
unfolding Reads.fd_pread_kind
fd_pread_open-Contents fd (pipe d p) rights iovs_ptr iovs_len offset nread_ptr r = Within-pure _ r
fd_pread_open-Contents fd (stdio n) rights iovs_ptr iovs_len offset nread_ptr r = Within-pure _ r
fd_pread_open-Contents fd (directory d) rights iovs_ptr iovs_len offset nread_ptr r =
    Within-pure _ r
fd_pread_open-Contents fd (regular g) rights iovs_ptr iovs_len offset nread_ptr r =
    Within-if (can_read_file (record { kind = regular g; rights = rights })) _ _ r
      (λ _. fd_pread_file-Contents g iovs_ptr iovs_len offset nread_ptr r) λ _. Within-pure _ r

fd_pread_kind-Contents :
    (fd : ℕ) (f : Option OpenFile) (preopen : Bool) (iovs_ptr iovs_len : ℕ) (offset : ℤ)
    (nread_ptr : ℕ) (r : Runtime)
    → Within Contents (Reads.fd_pread_kind fd f preopen iovs_ptr iovs_len offset nread_ptr) r
unfolding Reads.fd_pread_kind
fd_pread_kind-Contents fd none preopen iovs_ptr iovs_len offset nread_ptr r =
    Within-if preopen _ _ r (λ _. Within-pure _ r) λ _. Within-gets _ _ r (Within-pure _ r)
fd_pread_kind-Contents fd (some f) true iovs_ptr iovs_len offset nread_ptr r = Within-pure _ r
fd_pread_kind-Contents fd (some f) false iovs_ptr iovs_len offset nread_ptr r =
    fd_pread_open-Contents fd f.kind f.rights iovs_ptr iovs_len offset nread_ptr r

pub fd_pread-Contents :
    (fd iovs_ptr iovs_len : ℕ) (offset : ℤ) (nread_ptr : ℕ) (r : Runtime)
    → Within Contents (Reads.fd_pread fd iovs_ptr iovs_len offset nread_ptr) r
unfolding Reads.fd_pread
fd_pread-Contents fd iovs_ptr iovs_len offset nread_ptr r =
    Within-then _ _ r (throw_if_aborted-Same r) λ _ u _. Within-gets _ _ u (
      Within-then _ _ u (write_u32-Same nread_ptr 0 u)
        λ _ v _. fd_pread_kind-Contents fd _ _ iovs_ptr iovs_len offset nread_ptr v)
