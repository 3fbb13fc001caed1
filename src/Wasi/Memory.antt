-- ===== src/Wasi/Memory.antt =====
-- The reads and writes of the module's memory (apps/web/src/wasi-module.js). A pointer is the number
-- that it stands for; those from 2 ^ 31 on reach the source with a sign.
use wasm_host.Prelude.{
  ℕ, zero, suc, ◌+◌, ◌-◌, ◌*◌, ◌/◌, ◌%◌, ◌^◌, Bool, true, false, List, [], ◌∷◌, ◌++◌, length, take,
  drop, ltb, leb, ◌==◌, if◌then◌else◌,
}
use wasm_host.Prelude.Exec.{Result, ok, err, bind, pure, lift, gets, modify, throw_if, ◌>>=◌, ◌>>◌}
use wasm_host.Wasi.Descriptors.{Trap, aborted, out_of_range, Bytes, Action}

unfoldable pub throw_if_aborted : Action Unit
throw_if_aborted = do r ← gets (λ r. r); throw_if r.signal aborted

unfoldable pub little_endian : Bytes → ℕ
little_endian [] = 0
little_endian (b ∷ bs) = b + 256 * little_endian bs

unfoldable pub little_endian_bytes : ℕ → ℕ → Bytes
little_endian_bytes zero n = []
little_endian_bytes (suc w) n = (n % 256) ∷ little_endian_bytes w (n / 256)

-- `getUint32(ptr, true)`
unfoldable pub read_u32 : Bytes → ℕ → Result Trap ℕ
read_u32 memory ptr =
    if leb (ptr + 4) (length memory)
    then ok (little_endian (take 4 (drop ptr memory)))
    else err out_of_range

-- The bytes of `target` with `source` written over them from `offset` on, where it fits.
unfoldable pub overlay : Bytes → Bytes → ℕ → Bytes
overlay target source offset = take offset target ++ source ++ drop (offset + length source) target

-- `this.bytes().set(source, ptr)` and the setters of `DataView`
unfoldable pub write_memory : ℕ → Bytes → Action Unit
write_memory ptr source = do
  r ← gets (λ r. r)
  throw_if (ltb (length r.memory) (ptr + length source)) out_of_range
  modify (λ r. record r { memory = overlay r.memory source ptr })

unfoldable pub write_u32 : ℕ → ℕ → Action Unit
write_u32 ptr value = write_memory ptr (little_endian_bytes 4 value)

unfoldable pub write_u64 : ℕ → ℕ → Action Unit
write_u64 ptr value = write_memory ptr (little_endian_bytes 8 value)

unfoldable pub can_write_u32 : ℕ → Bytes → Bool
can_write_u32 ptr memory = leb (ptr % 2 ^ 32 + 4) (length memory)

-- The loop of `readIovChunks`. The end of the memory cuts a chunk, and its length still counts.
unfoldable pub read_iov_chunks : Bytes → ℕ → ℕ → Result Trap (List Bytes × ℕ)
read_iov_chunks memory zero iov_ptr = ok ([], 0)
read_iov_chunks memory (suc n) iov_ptr = bind (read_u32 memory iov_ptr) λ data_ptr.
    bind (read_u32 memory (iov_ptr + 4)) λ data_length.
      bind (read_iov_chunks memory n (iov_ptr + 8))
        λ rest. ok (take data_length (drop data_ptr memory) ∷ rest.0, data_length + rest.1)

abbrev pub min : ℕ → ℕ → ℕ
min a b = if leb a b then a else b

-- One turn of the loop of `readIntoIovs`: how much went into the buffer of the vector.
unfoldable pub read_into_iov : Bytes → ℕ → ℕ → Action ℕ
read_into_iov input offset iov_ptr = do
  r ← gets (λ r. r)
  data_ptr ← lift (read_u32 r.memory iov_ptr)
  data_length ← lift (read_u32 r.memory (iov_ptr + 4))
  let n = min data_length (length input - offset)
  if n == 0 then pure 0 else do write_memory data_ptr (take n (drop offset input)); pure n

unfoldable pub read_into_iovs : Bytes → ℕ → ℕ → ℕ → Action ℕ
read_into_iovs input offset zero iov_ptr = pure 0
read_into_iovs input offset (suc count) iov_ptr = elim (leb (length input) offset) [
  | true ↦ pure 0
  | false ↦ do
    n ← read_into_iov input offset iov_ptr
    rest ← read_into_iovs input (offset + n) count (iov_ptr + 8)
    pure (n + rest)
]
