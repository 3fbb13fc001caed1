-- ===== src/Webc/Objects.antt =====
-- Objects of the manifest and of a package, and what is read from them
-- (apps/web/src/webc-metadata.js).
use wasm_host.Prelude.{
  ℕ, suc, Text, Bool, false, not, ◌&&◌, ◌||◌, ◌==◌, Option, none, some, List, [], ◌∷◌, codes,
  text_eq, is_empty, trim, any, if◌then◌else◌,
}
use wasm_host.Prelude.Exec.{Result, ok, err, bind}
use wasm_host.Prelude.Dict.{Dict, get, has}
use wasm_host.Auth.Values.{decimal}
use wasm_host.Webc.Reader.{WebcError, not_a_map, Bytes}
use wasm_host.Webc.Volumes.{File, Volume}
use wasm_host.Webc.Cbor.{
  Value, unsigned, string, array, object, tagged, byte_string, null, undefined, Values, no_values,
  value, Fields, no_fields, field,
}

-- A property of an object, `undefined` where there is none.
unfoldable pub lookup : Text → Fields → Value
lookup k no_fields = undefined
lookup k (field j v rest) = let found = lookup k rest in if text_eq j k then v else found

unfoldable pub own : Text → Fields → Bool
own k no_fields = false
own k (field j v rest) = text_eq j k || own k rest

unfoldable pub byte_fields : ℕ → Bytes → Fields
byte_fields n [] = no_fields
byte_fields n (b ∷ bs) = field (decimal n) (unsigned b) (byte_fields (suc n) bs)

-- The properties of a value that is an object and no array: a map, a tagged value or bytes.
unfoldable pub object_value : Value → Result WebcError Fields
object_value (object fs) = ok fs
object_value (tagged n v) =
    ok (field (codes "tag") (unsigned n) (field (codes "value") v no_fields))
object_value (byte_string b) = ok (byte_fields 0 b)
object_value _ = err not_a_map

unfoldable pub optional_object : Value → Result WebcError (Option Fields)
optional_object null = ok none
optional_object undefined = ok none
optional_object v = bind (object_value v) λ fs. ok (some fs)

unfoldable pub optional_string : Value → Option Text
optional_string (string t) = let text = trim t in if is_empty text then none else some text
optional_string _ = none

unfoldable pub optional_string_list : Value → List Text
optional_string_list (array vs) = strings vs
  where
    strings : Values → List Text
    strings no_values = []
    strings (value (string t) vs) = t ∷ strings vs
    strings (value v vs) = strings vs
optional_string_list _ = []

-- `field(value, ...names)` on an object, or on none.
unfoldable pub first_own : Option Fields → List Text → Value
first_own none names = undefined
first_own (some fs) [] = undefined
first_own (some fs) (n ∷ ns) =
    let rest = first_own (some fs) ns in if own n fs then lookup n fs else rest

abbrev pub or_none : Option Text → Option Text → Option Text
or_none none b = b
or_none (some a) b = some a

abbrev pub lookup_in : Text → Option Fields → Value
lookup_in k none = undefined
lookup_in k (some fs) = lookup k fs

abbrev pub or_empty : Option Fields → Fields
or_empty none = no_fields
or_empty (some fs) = fs

abbrev pub member : Text → List Text → Bool
member n ns = any (λ m. text_eq m n) ns

-- The names that any object takes from `Object.prototype`, as ECMAScript lists them
abbrev pub prototype_names : List Text
prototype_names =
    codes "constructor"
    ∷ codes "hasOwnProperty"
    ∷ codes "isPrototypeOf"
    ∷ codes "propertyIsEnumerable"
    ∷ codes "toLocaleString"
    ∷ codes "toString"
    ∷ codes "valueOf"
    ∷ codes "__proto__"
    ∷ codes "__defineGetter__"
    ∷ codes "__defineSetter__"
    ∷ codes "__lookupGetter__"
    ∷ codes "__lookupSetter__"
    ∷ []

-- `!!table[name]`, which finds what the object has itself and what it takes from its prototype: an
-- entry that was set under `__proto__` is the prototype, so that its properties are found too,
-- unless they are 0, `null` or the empty text.
unfoldable pub found_in : {V : Type 0} → (Text → V → Bool) → Text → Dict V → Bool
found_in has_property name table =
    (has name table || member name prototype_names)
    || (elim (get (codes "__proto__") table) [ none ↦ false | some v ↦ has_property name v ])

-- The properties of a file's record and of a volume's
unfoldable pub file_property : Text → File → Bool
file_property name f =
    member name (codes "bytes" ∷ codes "checksumSha256" ∷ codes "span" ∷ [])
    || (text_eq name (codes "byteLength") && not (f.byte_length == 0))

unfoldable pub volume_property : Text → Volume → Bool
volume_property name v =
    member name (codes "dataSpan" ∷ codes "files" ∷ codes "headerSpan" ∷ codes "payloadSpan" ∷ [])
    || (text_eq name (codes "name") && not (is_empty v.name))
    || (text_eq name (codes "hash") && (elim v.hash [ none ↦ false | some h ↦ not (is_empty h) ]))
