-- ===== src/Auth/Completion.antt =====
-- What a completed login leaves behind (apps/web/src/secrets.js).
use wasm_host.Prelude.{
  ℕ, Text, Bool, true, false, ◌||◌, ◌≡◌, refl, ap, subst, ◌∙◌, inl, inr, Option, none, some, List,
  [], ◌∷◌, codes, text_eq, text_eq_iff, is_empty, trim, arith, if◌then◌else◌, Bool-cases,
}
use wasm_host.Prelude.Exec.{
  Result, ok, err, After, After-pure, After-lift, After-gets, After-modify, After-throw_if,
  After-call,
}
use wasm_host.Prelude.Dict.{get, set, get-set, get-set_self}
use wasm_host.Auth.Values.{
  ErrorKind, Field, nullish, scalar, opaque, Account, nonempty_text, normalize_auth_bearer_token,
  normalize_account, is_sensitive_account_field, put_own, put_field, Token, is_bearer,
  auth_missing_token, SecretRecord, typed, normalize_secret_record, normalize_bearer_secret_value,
}
use wasm_host.Auth.Broker.{
  authorized, Login, Session, Broker, CompleteOptions, complete_device_login, get_bearer_token,
}
use wasm_host.Auth.Logins.{IsSound}
use wasm_host.Auth.Logins.Methods.{nonempty_text-IsRef, After-clock, require-Pending}
use wasm_host.Auth.Tokens.{set_secret-is_set, served}

abbrev bearer : Text → SecretRecord
bearer t = record { kind = codes "bearer"; value = t }

ok_same : (u t : Text) → ◌≡◌ {A = Result ErrorKind Text} (ok u) (ok t) → u ≡ t
ok_same u t h = cc

not_ok : (e : ErrorKind) (t : Text) → ◌≡◌ {A = Result ErrorKind Text} (err e) (ok t) → ⊥
not_ok e t h = cc

-- A token that was taken is stored as it is.
kept_token :
    (x : Token) (t : Text)
    → normalize_auth_bearer_token x ≡ ok t
    → normalize_secret_record (typed (some (codes "bearer")) (Token.text t)) ≡ ok (bearer t)
unfolding normalize_auth_bearer_token normalize_secret_record normalize_bearer_secret_value trim
kept_token (Token.text u) t h = elim (Bool-cases (is_bearer u)) [
  | inl e ↦
      let same : u ≡ t = ok_same u t (rw e at h) in
      let clean : is_bearer t ≡ true = subst (λ v. is_bearer v ≡ true) same e in rw clean refl
  | inr e ↦ absurd (not_ok auth_missing_token t (rw e at h))
]
kept_token Token.missing t h = absurd (not_ok auth_missing_token t h)
kept_token (Token.wrapped x) t h = kept_token x t h

abbrev Served : CompleteOptions → Result ErrorKind Login → Broker → Type 0
Served o x c =
    (l : Login)
    → x ≡ ok l
    → (t : Text) × (normalize_auth_bearer_token o.token ≡ ok t)
      × ((get_bearer_token l.secret_ref c).0 ≡ ok t)

-- After a completion that succeeds, the token that it was given is handed out for the secret
-- reference of the login.
pub complete-serves :
    (now : ℕ → Option ℕ) (id : Text) (o : CompleteOptions) (b : Broker) (l : Login)
    → IsSound b
    → (complete_device_login now id o b).0 ≡ ok l
    → (t : Text) × (normalize_auth_bearer_token o.token ≡ ok t)
      × ((get_bearer_token l.secret_ref (complete_device_login now id o b).1).0 ≡ ok t)
unfolding complete_device_login
complete-serves now id o b l sound = ends.ends l
  where
    ends : After (Served o) (complete_device_login now id o) b
    ends =
        After-call _ _ _ b (require-Pending now id b sound) (λ e c g l x. cc)
          λ login c (good, there, p, rest).
            let ref = good.sound.login_ref _ login there in
            After-lift (normalize_auth_bearer_token o.token) _ c (λ e h l x. cc)
              λ token tok.
                After-clock now _ c (λ e l x. cc)
                  λ time _. After-gets _ _ _ (
                    After-lift (nonempty_text _) _ _ (λ e h l x. cc)
                      λ session_id named.
                        After-throw_if _ _ _ _ (λ _ l x. cc)
                          λ _. After-modify _ _ _ (
                            After-call
                              (λ x u. u.secrets ≡ set login.secret_ref (bearer token) c.secrets) _ _
                              _
                              (record {
                                ends =
                                    ap (λ z. z.1.secrets)
                                      (set_secret-is_set login.secret_ref _ ref _ (bearer token)
                                        (kept_token o.token token tok));
                              })
                              (λ e u h l x. cc)
                              λ _ u h. After-modify _ _ _ (
                                After-modify _ _ _ (
                                  After-pure _ _ λ l x.
                                    let same : login.secret_ref ≡ l.secret_ref = cc in
                                    let account = normalize_account o.account [] in
                                    let session : Session = record {
                                      account = account;
                                      completed_at = time;
                                      logged_out_at = none;
                                      scopes = login.scopes;
                                      secret_ref = login.secret_ref;
                                      session_id = session_id;
                                      status = authorized;
                                    } in
                                    (
                                      token,
                                      tok,
                                      served _ login.secret_ref l.secret_ref session_id token
                                          session same ref
                                          (get-set_self login.secret_ref session_id u.session_refs)
                                          (nonempty_text-IsRef _ session_id named).1
                                          (get-set_self session_id session u.sessions) refl
                                          (ap (get login.secret_ref) h
                                            ∙ get-set_self login.secret_ref (bearer token)
                                                c.secrets),
                                    )))))

-- No field of a normalised account has a name that tells of a secret, in any mix of cases.
pub normalize_account-private :
    (entries : List (Text × Field)) (name : Text) (v : Option Text)
    → get name (normalize_account entries []) ≡ some v
    → is_sensitive_account_field name ≡ false
unfolding normalize_account get put_own put_field
normalize_account-private entries name v = kept entries [] (λ n w h. cc) name v
  where
    IsPrivate : Account → Type 0
    IsPrivate a =
        (n : Text) (w : Option Text) → get n a ≡ some w → is_sensitive_account_field n ≡ false

    put_kept :
        (n : Text) (x : Option Text) (a : Account)
        → is_sensitive_account_field n ≡ false
        → IsPrivate a
        → IsPrivate (set n x a)
    put_kept n x a p f m w h = elim (Bool-cases (text_eq n m)) [
      | inl e ↦ subst (λ k. is_sensitive_account_field k ≡ false) ((text_eq_iff n m).0 e) p
      | inr e ↦ f m w (ground (arith, get-set n m x a))
    ]

    field_kept :
        (n : Text) (x : Field) (a : Account)
        → is_sensitive_account_field n ≡ false
        → IsPrivate a
        → IsPrivate (put_own n x a)
    field_kept n nullish a p f = put_kept n none a p f
    field_kept n (scalar t) a p f = put_kept n (some t) a p f
    field_kept n opaque a p f = f

    either_kept :
        (b : Bool) (a c : Account) → IsPrivate a → IsPrivate c → IsPrivate (if b then a else c)
    either_kept true a c f g = f
    either_kept false a c f g = g

    kept :
        (es : List (Text × Field)) (a : Account) → IsPrivate a → IsPrivate (normalize_account es a)
    kept [] a f = f
    kept ((k, x) ∷ es) a f =
        kept es _ (entry (is_empty (trim k)) (is_sensitive_account_field (trim k)) refl)
      where
        entry :
            (p q : Bool)
            → is_sensitive_account_field (trim k) ≡ q
            → IsPrivate (if p || q then a else put_field (trim k) x a)
        entry true q e = f
        entry false true e = f
        entry false false e =
            either_kept (text_eq (trim k) (codes "__proto__")) a _ f (field_kept (trim k) x a e f)
