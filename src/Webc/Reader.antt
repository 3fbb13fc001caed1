-- ===== src/Webc/Reader.antt =====
-- Reads of a byte buffer with their bounds checks (apps/web/src/webc-metadata.js).
use wasm_host.Prelude.{
  ℕ, zero, suc, ◌+◌, ◌-◌, ◌*◌, ◌/◌, ◌%◌, ◌^◌, ◌≤◌, ◌≡◌, refl, ap, ◌∙◌, Text, List, [], ◌∷◌, length,
  take, drop, ltb, leb, arith, if◌then◌else◌,
}
use wasm_host.Prelude.Exec.{Result, ok, err, bind}

-- The cases of `WebcMetadataError`, by their message. Two are none of the source's: `out_of_fuel`
-- stands for a loop that goes on, and `prototype_key` for a map with the key `__proto__`, whose
-- value the source makes the prototype of its object: what follows is not modelled.
pub data WebcError : Type 0 where
  missing_version truncated too_large reference_loop invalid_directory_length invalid_file_span :
      WebcError
  unsupported_header_tag out_of_fuel prototype_key cbor_trailing cbor_too_deep cbor_simple
        cbor_length :
      WebcError
  unsupported_version missing_manifest not_a_map no_commands missing_mount_path missing_volume_name
        missing_atom missing_volume :
      WebcError

abbrev pub Bytes : Type 0
Bytes = List ℕ

pub data Version : Type 0 where
  v2 v3 : Version

-- `bytes.subarray(offset, offset + n)`
abbrev pub slice : Bytes → ℕ → ℕ → Bytes
slice bytes offset n = take n (drop offset bytes)

abbrev pub first_byte : Bytes → ℕ
first_byte [] = 0
first_byte (b ∷ bs) = b

-- `bytes[offset]`, where the source has made sure that there is one
abbrev pub byte_at : Bytes → ℕ → ℕ
byte_at bytes offset = first_byte (drop offset bytes)

unfoldable pub require_available : Bytes → ℕ → ℕ → Result WebcError Unit
require_available bytes offset n = if leb (offset + n) (length bytes) then ok tt else err truncated

unfoldable pub read_byte : Bytes → ℕ → Result WebcError ℕ
read_byte bytes offset = bind (require_available bytes offset 1) λ _. ok (byte_at bytes offset)

-- The loop of `uint64BigIntToNumber` on little-endian bytes: the last byte weighs most.
unfoldable pub little_endian : Bytes → ℕ
little_endian [] = 0
little_endian (b ∷ bs) = b + 256 * little_endian bs

unfoldable pub safe_number : ℕ → Result WebcError ℕ
safe_number n = if ltb n (2 ^ 53) then ok n else err too_large

unfoldable pub read_uint64_le : Bytes → ℕ → Result WebcError ℕ
read_uint64_le bytes offset =
    bind (require_available bytes offset 8) λ _. safe_number (little_endian (slice bytes offset 8))

unfoldable pub hex_digit : ℕ → ℕ
hex_digit n = if ltb n 10 then b'0' + n else b'a' + (n - 10)

unfoldable pub bytes_to_hex : Bytes → Text
bytes_to_hex [] = []
bytes_to_hex (b ∷ bs) = hex_digit (b / 16) ∷ hex_digit (b % 16) ∷ bytes_to_hex bs

pub record Span : Type 0 where
  pub offset : ℕ
  pub length : ℕ

drop_empty : (a : ℕ) → drop {A = ℕ} a [] ≡ []
drop_empty zero = refl
drop_empty (suc a) = refl

pub drop-drop : (a o k : ℕ) (xs : Bytes) → k ≡ o + a → drop a (drop o xs) ≡ drop k xs
drop-drop a zero k xs h = ap (λ j. drop j xs) (omega arith)
drop-drop a (suc o) zero xs h = ground arith
drop-drop a (suc o) (suc k) [] h = drop_empty a
drop-drop a (suc o) (suc k) (x ∷ xs) h = drop-drop a o k xs (omega arith)

-- A prefix of what is left of a prefix.
take-drop-take :
    (m a n : ℕ) (xs : Bytes) → (a + m) ≤ n → take m (drop a (take n xs)) ≡ take m (drop a xs)
take-drop-take zero a n xs h = refl
take-drop-take (suc m) zero zero xs h = ground arith
take-drop-take (suc m) zero (suc n) [] h = refl
take-drop-take (suc m) zero (suc n) (x ∷ xs) h =
    ap (λ ys. x ∷ ys) (take-drop-take m zero n xs (omega arith))
take-drop-take (suc m) (suc a) zero xs h = ground arith
take-drop-take (suc m) (suc a) (suc n) [] h = refl
take-drop-take (suc m) (suc a) (suc n) (x ∷ xs) h = take-drop-take (suc m) a n xs (omega arith)

-- A slice of a slice.
pub slice-slice :
    (xs : Bytes) (o n a m : ℕ) → (a + m) ≤ n → slice (slice xs o n) a m ≡ slice xs (o + a) m
slice-slice xs o n a m h =
    take-drop-take m a n (drop o xs) h ∙ ap (take m) (drop-drop a o (o + a) xs refl)

pub length-slice : (xs : Bytes) (o n : ℕ) → (o + n) ≤ length xs → length (slice xs o n) ≡ n
length-slice xs zero zero h = refl
length-slice [] zero (suc n) h = omega arith
length-slice (x ∷ xs) zero (suc n) h = ap suc (length-slice xs zero n (omega arith))
length-slice [] (suc o) n h = omega arith
length-slice (x ∷ xs) (suc o) n h = length-slice xs o n (omega arith)
