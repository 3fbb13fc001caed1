-- ===== src/Wasi/Chunks.antt =====
-- The lengths of the bytes that go through the vectors of a call (apps/web/src/wasi-module.js).
use wasm_host.Prelude.{
  ℕ, zero, suc, ◌+◌, ◌-◌, ◌≤◌, ◌≡◌, refl, ap, List, [], ◌∷◌, ◌++◌, length, take, drop,
  length-append, arith,
}
use wasm_host.Prelude.Exec.{ok, OnOk, OnOk-bind, OnOk-bind_any}
use wasm_host.Wasi.Descriptors.{Bytes}
use wasm_host.Wasi.Memory.{read_u32, read_iov_chunks}
use wasm_host.Wasi.Writes.{zeros, concat, filled}

pub length-zeros : (n : ℕ) → length (zeros n) ≡ n
unfolding zeros
length-zeros zero = refl
length-zeros (suc n) = ap suc (length-zeros n)

pub length-take_le : (n : ℕ) (bytes : Bytes) → length (take n bytes) ≤ n
length-take_le zero bytes = omega arith
length-take_le (suc n) [] = omega arith
length-take_le (suc n) (b ∷ bytes) = omega (arith, length-take_le n bytes)

-- The bytes that the vectors have are no more than their lengths say.
abbrev Counted : List Bytes × ℕ → Type 0
Counted r = length (concat r.0) ≤ r.1

pub read_iov_chunks_le :
    (memory : Bytes) (n iov_ptr : ℕ)
    → OnOk (λ (r : List Bytes × ℕ). length (concat r.0) ≤ r.1) (read_iov_chunks memory n iov_ptr)
unfolding read_iov_chunks concat
read_iov_chunks_le memory zero iov_ptr = omega arith
read_iov_chunks_le memory (suc n) iov_ptr =
    OnOk-bind_any Counted (read_u32 memory iov_ptr) _ λ data_ptr _.
      OnOk-bind_any Counted (read_u32 memory (iov_ptr + 4)) _ λ data_length _.
        OnOk-bind Counted Counted (read_iov_chunks memory n (iov_ptr + 8))
          (λ rest. ok (take data_length (drop data_ptr memory) ∷ rest.0, data_length + rest.1))
          (read_iov_chunks_le memory n (iov_ptr + 8))
          λ rest _ h. omega (
            arith,
            h,
            length-append (take data_length (drop data_ptr memory)) (concat rest.0),
            length-take_le data_length (drop data_ptr memory),
          )

pub length-filled :
    (bytes : Bytes) (chunks : List Bytes) (total : ℕ)
    → length (concat chunks) ≤ total
    → length (filled bytes chunks total) ≡ length bytes + total
unfolding filled
length-filled bytes chunks total h = omega (
  arith,
  h,
  length-append (bytes ++ concat chunks) (zeros (total - length (concat chunks))),
  length-append bytes (concat chunks),
  length-zeros (total - length (concat chunks)),
)
