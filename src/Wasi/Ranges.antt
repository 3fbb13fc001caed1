-- ===== src/Wasi/Ranges.antt =====
-- Sizes, ranges and offsets as the calls receive them, signed numbers of 64 bits
-- (apps/web/src/wasi-module.js).
use wasm_host.Prelude.{ℕ, ◌+◌, ◌-◌, ◌^◌, Option, none, some, ltb, ◌==◌, if◌then◌else◌}
use wasm_host.Prelude.Int.{ℤ, pos, negsuc, add_to}
use wasm_host.Prelude.Exec.{Result, ok, err, bind}
use wasm_host.Wasi.Descriptors.{Errno, inval, overflow}

-- `Number.MAX_SAFE_INTEGER`
abbrev pub max_safe : ℕ
max_safe = 2 ^ 53 - 1

unfoldable pub resolve_file_size : ℤ → Result Errno ℕ
resolve_file_size (negsuc n) = err inval
resolve_file_size (pos n) = if ltb max_safe n then err overflow else ok n

-- A range, with its length and its end; none if it is empty.
unfoldable pub resolve_file_range : ℤ → ℤ → Result Errno (Option (ℕ × ℕ))
resolve_file_range (negsuc n) size = err inval
resolve_file_range (pos start) (negsuc n) = err inval
resolve_file_range (pos start) (pos size) =
    if ltb max_safe start
    then err overflow
    else if ltb max_safe size
    then err overflow
    else if size == 0
    then ok none
    else if ltb max_safe (start + size)
    then err overflow
    else ok (some (size, start + size))

unfoldable pub resolve_file_allocation : ℤ → ℤ → Result Errno (Option ℕ)
resolve_file_allocation offset n =
    bind (resolve_file_range offset n)
      λ range. ok (elim range [ none ↦ none | some (size, last) ↦ some last ])

-- The three bases of a seek, where a directory has no size.
unfoldable pub resolve_seek : ℕ → ℤ → Result Errno ℕ
resolve_seek base offset = resolve_file_size (add_to base offset)
