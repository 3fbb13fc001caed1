-- ===== src/Auth/Values.antt =====
-- The values that the auth broker takes and their normalisation (apps/web/src/secrets.js).
use wasm_host.Prelude.{
  ℕ, suc, zero, ◌+◌, ◌/◌, ◌%◌, ◌^◌, Text, Bool, true, false, ◌&&◌, ◌||◌, not, ltb, leb, Option,
  none, some, List, [], ◌∷◌, ◌++◌, map, codes, text_eq, is_empty, includes, starts_with, trim,
  if◌then◌else◌,
}
use wasm_host.Prelude.Exec.{Result, ok, err, bind}
use wasm_host.Prelude.Dict.{Dict, set}

-- The `kind` of a `BrowserAuthBrokerError` or `BrowserSecretProviderError`.
pub data ErrorKind : Type 0 where
  auth_failure auth_expired auth_missing_login auth_missing_token auth_denied : ErrorKind
  cancelled timeout : ErrorKind

unfoldable pub auth_exit_code : ErrorKind → ℕ
auth_exit_code cancelled = 130
auth_exit_code timeout = 124
auth_exit_code _ = 2

-- `nonEmptyText` and `normalizeSecretRef`: the trimmed text, which must not be empty.
unfoldable pub nonempty_text : Text → Result ErrorKind Text
nonempty_text value = let text = trim value in if is_empty text then err auth_failure else ok text

abbrev pub normalize_secret_ref : Text → Result ErrorKind Text
normalize_secret_ref = nonempty_text

-- A number that the caller gives, where `none` is one that is no integer or is negative.
unfoldable pub non_negative_integer : Option ℕ → Result ErrorKind ℕ
non_negative_integer none = err auth_failure
non_negative_integer (some n) = if ltb n (2 ^ 53) then ok n else err auth_failure

unfoldable pub positive_integer : Option ℕ → Result ErrorKind ℕ
positive_integer none = err auth_failure
positive_integer (some n) = if ltb n (2 ^ 53) && ltb 0 n then ok n else err auth_failure

-- A token argument: none, a text, or an object with the token in `token` or `value`.
pub data Token : Type 0 where
  missing : Token
  text : Text → Token
  wrapped : Token → Token

-- A text that is not empty and holds no line break.
unfoldable pub is_bearer : Text → Bool
is_bearer t = not (is_empty t) && not (includes 10 t || includes 13 t)

unfoldable pub normalize_auth_bearer_token : Token → Result ErrorKind Text
normalize_auth_bearer_token missing = err auth_missing_token
normalize_auth_bearer_token (text t) = if is_bearer t then ok t else err auth_missing_token
normalize_auth_bearer_token (wrapped t) = normalize_auth_bearer_token t

unfoldable pub normalize_bearer_secret_value : Token → Result ErrorKind Text
normalize_bearer_secret_value missing = err auth_failure
normalize_bearer_secret_value (text t) = if is_bearer t then ok t else err auth_failure
normalize_bearer_secret_value (wrapped t) = normalize_bearer_secret_value t

-- A field of an account: `null` or `undefined`, a string, number or boolean by its text, or another
-- value.
pub data Field : Type 0 where
  nullish : Field
  scalar : Text → Field
  opaque : Field

-- An account is a map by name.
abbrev pub Account : Type 0
Account = Dict (Option Text)

-- A letter of a pattern under the flag `i`.
unfoldable pub to_lower : ℕ → ℕ
to_lower c = if leb b'A' c && leb c b'Z' then c + 32 else c

unfoldable pub contains : Text → Text → Bool
contains word [] = is_empty word
contains word (c ∷ s) = starts_with word (c ∷ s) || contains word s

-- `/authorization|cookie|refresh|secret|token/i.test(name)`
unfoldable pub is_sensitive_account_field : Text → Bool
is_sensitive_account_field name =
    let lower = map to_lower name in
    contains (codes "authorization") lower
    || contains (codes "cookie") lower
    || contains (codes "refresh") lower
    || contains (codes "secret") lower
    || contains (codes "token") lower

unfoldable pub put_own : Text → Field → Account → Account
put_own name nullish a = set name none a
put_own name (scalar t) a = set name (some t) a
put_own name opaque a = a

-- `result[name] = value`: with the name `__proto__` a text is dropped, and `null` takes the
-- prototype away, so that neither is a field.
unfoldable pub put_field : Text → Field → Account → Account
put_field name value a =
    let own = put_own name value a in if text_eq name (codes "__proto__") then a else own

-- The loop of `normalizeAccount` over the entries.
unfoldable pub normalize_account : List (Text × Field) → Account → Account
normalize_account [] result = result
normalize_account ((key, value) ∷ rest) result =
    let name = trim key in
    normalize_account rest (
      if is_empty name || is_sensitive_account_field name
      then result
      else put_field name value result)

-- The option `scopes`: an array, which is empty if there is no option, or no array.
pub data Scopes : Type 0 where
  array : List Text → Scopes
  no_array : Scopes

unfoldable pub nonempty_texts : List Text → Result ErrorKind (List Text)
nonempty_texts [] = ok []
nonempty_texts (s ∷ ss) = bind (nonempty_text s) λ t. bind (nonempty_texts ss) λ ts. ok (t ∷ ts)

unfoldable pub normalize_scopes : Scopes → Result ErrorKind (List Text)
normalize_scopes (array ss) = nonempty_texts ss
normalize_scopes no_array = err auth_failure

-- A text, or an object with a `type` and a token in `token` or `value`.
pub data SecretInput : Type 0 where
  plain : Text → SecretInput
  typed : Option Text → Token → SecretInput

pub record SecretRecord : Type 0 where
  pub kind : Text
  pub value : Text

unfoldable pub normalize_secret_record : SecretInput → Result ErrorKind SecretRecord
normalize_secret_record (plain t) =
    bind (normalize_bearer_secret_value (text t))
      λ v. ok (record { kind = codes "bearer"; value = v })
normalize_secret_record (typed kind t) =
    bind (normalize_bearer_secret_value t)
      λ v. ok (record { kind = trim (elim kind [ none ↦ codes "bearer" | some k ↦ k ]); value = v })

-- The decimal text of a number.
unfoldable pub decimal_from : ℕ → ℕ → Text
decimal_from zero n = []
decimal_from (suc fuel) n =
    let rest = decimal_from fuel (n / 10) in
    if ltb n 10 then (b'0' + n) ∷ [] else rest ++ ((b'0' + n % 10) ∷ [])

unfoldable pub decimal : ℕ → Text
decimal n = decimal_from (suc n) n

-- `text.padStart(4, "0")`
abbrev pub pad_four : Text → Text
pad_four [] = codes "0000"
pad_four (a ∷ []) = codes "000" ++ (a ∷ [])
pad_four (a ∷ b ∷ []) = codes "00" ++ (a ∷ b ∷ [])
pad_four (a ∷ b ∷ c ∷ []) = codes "0" ++ (a ∷ b ∷ c ∷ [])
pad_four t = t

-- `checkAuthSignal`: what `signal.aborted` and `signal.reason` tell.
pub data Signal : Type 0 where
  running : Signal
  aborted : Bool → Signal

unfoldable pub check_auth_signal : Signal → Result ErrorKind Unit
check_auth_signal running = ok tt
check_auth_signal (aborted true) = err timeout
check_auth_signal (aborted false) = err cancelled
