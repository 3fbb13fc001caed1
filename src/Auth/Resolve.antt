-- ===== src/Auth/Resolve.antt =====
-- `resolveBrowserBearerSecret` (apps/web/src/secrets.js). What a provider's
-- lookup does is the provider's own.
use wasm_host.Prelude.{
  Text, Bool, true, false, ◌≡◌, refl, subst, Option, none, some, is_empty, if◌then◌else◌,
  Bool-cases, inl, inr,
}
use wasm_host.Prelude.Exec.{Result, ok, err, bind, OnOk, OnOk-bind_any, OnOk_elim}
use wasm_host.Auth.Values.{
  ErrorKind, auth_failure, Token, missing, text, wrapped, is_bearer, normalize_secret_ref,
  normalize_bearer_secret_value,
}

-- What a lookup throws: an error marked safe, or another.
pub data Thrown : Type 0 where
  safe : ErrorKind → Thrown
  unsafe : Thrown

-- A provider, with the function that is tried.
pub data Provider : Type 0 where
  no_provider no_lookup : Provider
  by_lookup : (Text → Result Thrown Token) → Provider

unfoldable pub looked_up : Result Thrown Token → Result ErrorKind Text
looked_up (ok t) = normalize_bearer_secret_value t
looked_up (err (safe kind)) = err kind
looked_up (err unsafe) = err auth_failure

unfoldable pub resolve_bearer_secret : Provider → Option Text → Result ErrorKind (Option Text)
resolve_bearer_secret p none = ok none
resolve_bearer_secret p (some ref) =
    if is_empty ref
    then ok none
    else bind (normalize_secret_ref ref) λ name. elim p [
      | no_provider ↦ err auth_failure
      | no_lookup ↦ err auth_failure
      | by_lookup f ↦ bind (looked_up (f name)) λ t. ok (some t)
    ]

value-is_bearer : (t : Token) → OnOk (λ v. is_bearer v ≡ true) (normalize_bearer_secret_value t)
unfolding normalize_bearer_secret_value
value-is_bearer missing = tt
value-is_bearer (text t) = elim (Bool-cases (is_bearer t)) [ inl e ↦ rw e e | inr e ↦ rw e tt ]
value-is_bearer (wrapped t) = value-is_bearer t

looked_up-is_bearer : (r : Result Thrown Token) → OnOk (λ v. is_bearer v ≡ true) (looked_up r)
unfolding looked_up
looked_up-is_bearer (ok t) = value-is_bearer t
looked_up-is_bearer (err (safe k)) = tt
looked_up-is_bearer (err unsafe) = tt

abbrev IsClean : Option Text → Type 0
IsClean o = (t : Text) → o ≡ some t → is_bearer t ≡ true

resolve-OnOk : (p : Provider) (ref : Option Text) → OnOk IsClean (resolve_bearer_secret p ref)
unfolding resolve_bearer_secret
resolve-OnOk p none = λ t h. cc
resolve-OnOk p (some ref) = found p (is_empty ref)
  where
    by :
        (f : Text → Result Thrown Token) (n : Text)
        → OnOk IsClean (bind (looked_up (f n)) λ t. ok (some t))
    by f n = OnOk-bind_any IsClean (looked_up (f n)) _ λ v e t h.
        let same : v ≡ t = cc in
        subst (λ u. is_bearer u ≡ true) same
          (OnOk_elim (λ u. is_bearer u ≡ true) (looked_up (f n)) v (looked_up-is_bearer (f n)) e)

    found :
        (q : Provider) (b : Bool)
        → OnOk IsClean (
            if b
            then ok none
            else bind (normalize_secret_ref ref) λ name. elim q [
              | no_provider ↦ err auth_failure
              | no_lookup ↦ err auth_failure
              | by_lookup f ↦ bind (looked_up (f name)) λ t. ok (some t)
            ])
    found q true = λ t h. cc
    found no_provider false = OnOk-bind_any IsClean (normalize_secret_ref ref) _ λ n _. tt
    found no_lookup false = OnOk-bind_any IsClean (normalize_secret_ref ref) _ λ n _. tt
    found (by_lookup f) false = OnOk-bind_any IsClean (normalize_secret_ref ref) _ λ n _. by f n

-- A secret that is resolved is not empty and holds no line break, whatever the provider's lookup
-- returns or throws.
pub resolve_bearer_secret-is_bearer :
    (p : Provider) (ref : Option Text) (t : Text)
    → resolve_bearer_secret p ref ≡ ok (some t)
    → is_bearer t ≡ true
resolve_bearer_secret-is_bearer p ref t h =
    OnOk_elim IsClean (resolve_bearer_secret p ref) (some t) (resolve-OnOk p ref) h t refl
