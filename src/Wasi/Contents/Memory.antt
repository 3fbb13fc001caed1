-- ===== src/Wasi/Contents/Memory.antt =====
-- The reads and writes of the module's memory leave the tables of the descriptors alone
-- (apps/web/src/wasi-module.js).
use wasm_host.Prelude.{ℕ, zero, suc, ◌+◌, ◌-◌, refl, leb, ◌==◌, length, Bool-cases, inl, inr}
use wasm_host.Wasi.Descriptors.{Errno, Bytes, Runtime}
use wasm_host.Wasi.Memory.{
  min, throw_if_aborted, write_memory, write_u32, write_u64, read_into_iov, read_into_iovs,
}
use wasm_host.Wasi.Reads.{answer}
use wasm_host.Wasi.Within.{
  same_preorder, Same, Within, Within-pure, Within-throw_if, Within-modify, Within-gets,
  Within-lift, Within-then, Within-if,
}

pub throw_if_aborted-Same : (r : Runtime) → Within Same throw_if_aborted r
unfolding throw_if_aborted
throw_if_aborted-Same r = Within-gets _ _ r (Within-throw_if _ _ r)

pub write_memory-Same :
    (ptr : ℕ) (source : Bytes) (r : Runtime) → Within Same (write_memory ptr source) r
unfolding write_memory
write_memory-Same ptr source r =
    Within-gets _ _ r (Within-then _ _ r (Within-throw_if _ _ r) λ _ u e. Within-modify _ u refl)

pub write_u32-Same : (ptr value : ℕ) (r : Runtime) → Within Same (write_u32 ptr value) r
unfolding write_u32
write_u32-Same ptr value r = write_memory-Same ptr _ r

pub write_u64-Same : (ptr value : ℕ) (r : Runtime) → Within Same (write_u64 ptr value) r
unfolding write_u64
write_u64-Same ptr value r = write_memory-Same ptr _ r

pub answer-Same : (count_ptr : ℕ) (e : Errno) (r : Runtime) → Within Same (answer count_ptr e) r
unfolding answer
answer-Same count_ptr e r =
    Within-then _ _ r (write_u32-Same count_ptr 0 r) λ _ u _. Within-pure e u

read_into_iov-Same :
    (input : Bytes) (offset iov_ptr : ℕ) (r : Runtime)
    → Within Same (read_into_iov input offset iov_ptr) r
unfolding read_into_iov
read_into_iov-Same input offset iov_ptr r = Within-gets _ _ r (
    Within-lift _ _ r λ data_ptr _. Within-lift _ _ r λ data_length _.
      Within-if (min data_length (length input - offset) == 0) _ _ r (λ _. Within-pure _ r)
        λ _. Within-then _ _ r (write_memory-Same data_ptr _ r) λ _ u _. Within-pure _ u)

pub read_into_iovs-Same :
    (input : Bytes) (offset count iov_ptr : ℕ) (r : Runtime)
    → Within Same (read_into_iovs input offset count iov_ptr) r
unfolding read_into_iovs
read_into_iovs-Same input offset zero iov_ptr r = Within-pure _ r
read_into_iovs-Same input offset (suc count) iov_ptr r =
    elim (Bool-cases (leb (length input) offset)) [
      | inl e ↦ rw (read_into_iovs, e) (Within-pure _ r)
      | inr e ↦
          rw (read_into_iovs, e)
            (Within-then _ _ r (read_into_iov-Same input offset iov_ptr r) λ n u _.
              Within-then _ _ u (read_into_iovs-Same input (offset + n) count (iov_ptr + 8) u)
                λ rest v _. Within-pure _ v)
    ]
