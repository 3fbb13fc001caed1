-- ===== src/Webc/Cbor.antt =====
-- The CBOR of the manifest: `CborReader` (apps/web/src/webc-metadata.js). The reader's `offset` is
-- an argument and comes back beside the value. The depth that is left bounds the recursion.
use wasm_host.Prelude.{
  ℕ, zero, suc, ◌+◌, ◌-◌, ◌*◌, ◌/◌, ◌%◌, Text, Bool, true, false, [], ◌∷◌, codes, text_eq, length,
  ltb, leb, ◌==◌, if◌then◌else◌,
}
use wasm_host.Prelude.Exec.{Result, ok, err, bind}
use wasm_host.Webc.Reader.{
  WebcError, prototype_key, cbor_trailing, cbor_too_deep, cbor_simple, cbor_length, Bytes, slice,
  require_available, read_byte, safe_number,
}

-- What `decodeFloat16` makes: `scaled negative m e` is `m * 2 ** (e - 24)`, or its negation.
pub data Float : Type 0 where
  nan : Float
  infinity : Bool → Float
  scaled : Bool → ℕ → ℕ → Float

mutual
  -- `negative n` is the number `-1 - n`; `float_of` has the bytes that `DataView` reads as a float.
  pub data Value : Type 0 where
    unsigned negative : ℕ → Value
    byte_string : Bytes → Value
    string : Text → Value
    array : Values → Value
    object : Fields → Value
    tagged : ℕ → Value → Value
    boolean : Bool → Value
    null undefined : Value
    float : Float → Value
    float_of : Bytes → Value

  pub data Values : Type 0 where
    no_values : Values
    value : Value → Values → Values

  pub data Fields : Type 0 where
    no_fields : Fields
    field : Text → Value → Fields → Fields

-- The three high bits of an initial byte.
pub data Major : Type 0 where
  unsigned_major negative_major bytes_major text_major array_major map_major tag_major
        simple_major :
      Major

unfoldable pub major_of : ℕ → Major
major_of n =
    if n == 0
    then unsigned_major
    else if n == 1
    then negative_major
    else if n == 2
    then bytes_major
    else if n == 3
    then text_major
    else if n == 4
    then array_major
    else if n == 5
    then map_major
    else if n == 6
    then tag_major
    else simple_major

-- `value[key] = v`, where `__proto__` is a name like any other, and names keep their order
-- `typeof key === "string" ? key : String(key)`
abbrev pub key_of : (Value → Text) → Value → Text
key_of key_text (string t) = t
key_of key_text other = key_text other

-- `value[k] = v` for a name that is not `__proto__`
unfoldable pub set_field : Text → Value → Fields → Fields
set_field k v no_fields = field k v no_fields
set_field k v (field j w rest) =
    let more = set_field k v rest in if text_eq j k then field j v rest else field j w more

unfoldable pub decode_float16 : ℕ → Float
decode_float16 w =
    let sign = leb 32768 w in
    let exponent = (w / 1024) % 32 in
    let fraction = w % 1024 in
    if exponent == 31
    then (if fraction == 0 then infinity sign else nan)
    else if exponent == 0
    then scaled sign fraction 0
    else scaled sign (1024 + fraction) (exponent - 1)

unfoldable pub big_endian : ℕ → Bytes → ℕ
big_endian n [] = n
big_endian n (b ∷ bs) = big_endian (n * 256 + b) bs

module _ (bytes : Bytes) where
  unfoldable pub read_bytes : ℕ → ℕ → Result WebcError (Bytes × ℕ)
  read_bytes n offset =
      bind (require_available bytes offset n) λ _. ok (slice bytes offset n, offset + n)

  unfoldable pub read_number : ℕ → ℕ → Result WebcError (ℕ × ℕ)
  read_number n offset = bind (read_bytes n offset) λ r. ok (big_endian 0 r.0, r.1)

  unfoldable pub read_uint64 : ℕ → Result WebcError (ℕ × ℕ)
  read_uint64 offset = bind (read_number 8 offset) λ r. bind (safe_number r.0) λ n. ok (n, r.1)

  unfoldable pub read_argument : ℕ → ℕ → Result WebcError (ℕ × ℕ)
  read_argument additional offset =
      if ltb additional 24
      then ok (additional, offset)
      else if additional == 24
      then read_number 1 offset
      else if additional == 25
      then read_number 2 offset
      else if additional == 26
      then read_number 4 offset
      else if additional == 27
      then read_uint64 offset
      else err cbor_length

  unfoldable pub read_simple : ℕ → ℕ → Result WebcError (Value × ℕ)
  read_simple additional offset =
      if additional == 20
      then ok (boolean false, offset)
      else if additional == 21
      then ok (boolean true, offset)
      else if additional == 22
      then ok (null, offset)
      else if additional == 23
      then ok (undefined, offset)
      else if additional == 24
      then bind (read_number 1 offset) (λ r. ok (unsigned r.0, r.1))
      else if additional == 25
      then bind (read_number 2 offset) (λ r. ok (float (decode_float16 r.0), r.1))
      else if additional == 26
      then bind (read_bytes 4 offset) (λ r. ok (float_of r.0, r.1))
      else if additional == 27
      then bind (read_bytes 8 offset) (λ r. ok (float_of r.0, r.1))
      else err cbor_simple

module _ (inner : ℕ → Result WebcError (Value × ℕ)) where
  unfoldable pub read_array : ℕ → ℕ → Result WebcError (Values × ℕ)
  read_array zero offset = ok (no_values, offset)
  read_array (suc n) offset =
      bind (inner offset) λ v. bind (read_array n v.1) λ vs. ok (value v.0 vs.0, vs.1)

  -- `keyText` is `String(key)` for a key that is no string.
  unfoldable pub read_map : (Value → Text) → ℕ → ℕ → Fields → Result WebcError (Fields × ℕ)
  read_map key_text zero offset fields = ok (fields, offset)
  read_map key_text (suc n) offset fields = bind (inner offset) λ k. bind (inner k.1) λ v.
      let key = key_of key_text k.0 in
      if text_eq key (codes "__proto__")
      then err prototype_key
      else read_map key_text n v.1 (set_field key v.0 fields)

module _ (decode : Bytes → Text) (key_text : Value → Text) (bytes : Bytes) where
  -- The `switch` of `readValue`, with the reader of what is inside.
  unfoldable pub read_major :
      (ℕ → Result WebcError (Value × ℕ)) → Major → ℕ → ℕ → Result WebcError (Value × ℕ)
  read_major inner unsigned_major additional offset =
      bind (read_argument bytes additional offset) λ a. ok (unsigned a.0, a.1)
  read_major inner negative_major additional offset =
      bind (read_argument bytes additional offset) λ a. ok (negative a.0, a.1)
  read_major inner bytes_major additional offset =
      bind (read_argument bytes additional offset)
        λ a. bind (read_bytes bytes a.0 a.1) λ r. ok (byte_string r.0, r.1)
  read_major inner text_major additional offset =
      bind (read_argument bytes additional offset)
        λ a. bind (read_bytes bytes a.0 a.1) λ r. ok (string (decode r.0), r.1)
  read_major inner array_major additional offset =
      bind (read_argument bytes additional offset)
        λ a. bind (read_array inner a.0 a.1) λ r. ok (array r.0, r.1)
  read_major inner map_major additional offset =
      bind (read_argument bytes additional offset)
        λ a. bind (read_map inner key_text a.0 a.1 no_fields) λ r. ok (object r.0, r.1)
  read_major inner tag_major additional offset =
      bind (read_argument bytes additional offset)
        λ a. bind (inner a.1) λ r. ok (tagged a.0 r.0, r.1)
  read_major inner simple_major additional offset = read_simple bytes additional offset

  unfoldable pub read_value : ℕ → ℕ → Result WebcError (Value × ℕ)
  read_value zero offset = err cbor_too_deep
  read_value (suc levels) offset = bind (read_byte bytes offset) λ initial.
      read_major (read_value levels) (major_of (initial / 32)) (initial % 32) (offset + 1)

  unfoldable pub decode_cbor : Result WebcError Value
  decode_cbor =
      bind (read_value 129 0) λ r. if r.1 == length bytes then ok r.0 else err cbor_trailing
