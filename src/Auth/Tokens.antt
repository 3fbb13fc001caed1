-- ===== src/Auth/Tokens.antt =====
-- Which tokens the broker gives out, and when (apps/web/src/secrets.js).
use wasm_host.Prelude.{
  ℕ, Text, true, false, ◌≡◌, refl, sym, ap, subst, ◌∙◌, Option, none, some, codes, text_eq,
  text_eq_refl, text_eq_iff, is_empty, arith, if◌then◌else◌,
}
use wasm_host.Prelude.Exec.{
  Result, ok, err, ◌>>=◌, throw, pure, After, After-pure, After-throw, After-lift, After-lift_ok,
  After-gets, After-modify, After-call, After-if, After-option, After-weaken,
}
use wasm_host.Prelude.Dict.{get, has, set, delete, get-delete}
use wasm_host.Auth.Values.{
  ErrorKind, SecretInput, SecretRecord, normalize_secret_record, auth_missing_token, auth_failure,
  nonempty_text,
}
use wasm_host.Auth.Broker.{
  authorized, Session, Broker, set_secret, delete_secret, require_session, session_by_secret_ref,
  has_secret, provider_bearer_token, get_bearer_token, logout,
}
use wasm_host.Auth.Logins.{IsSound, IsRef}
use wasm_host.Auth.Logins.Methods.{After-status, After-clock}
use wasm_host.Auth.Logins.Ends.{require_session-IsRef}

IsRef-nonempty_text : (t : Text) → IsRef t → nonempty_text t ≡ ok t
unfolding nonempty_text
IsRef-nonempty_text t (p, q) = rw p (rw q refl)

-- What a session and a secret give under a reference.
module _ (ref : Text) (b : Broker) (is_ref : IsRef ref) where
  named : nonempty_text ref ≡ ok ref
  named = IsRef-nonempty_text ref is_ref

  -- The session that the reference leads to.
  abbrev session_at : Option Session
  session_at = elim (get ref b.session_refs) [
    | none ↦ none
    | some id ↦ if is_empty id then none else get id b.sessions
  ]

  session_found : session_by_secret_ref ref b ≡ ok session_at
  unfolding session_by_secret_ref
  session_found = rw named (found (get ref b.session_refs))
    where
      found :
          (o : Option Text)
          → ◌≡◌ {A = Result ErrorKind (Option Session)}
              (elim o [
                | none ↦ ok none
                | some id ↦ if is_empty id then ok none else ok (get id b.sessions)
              ])
              (ok (elim o [
                | none ↦ none
                | some id ↦ if is_empty id then none else get id b.sessions
              ]))
      found none = refl
      found (some id) = ground arith

  secret_found : has_secret ref b ≡ ok (has ref b.secrets)
  unfolding has_secret
  secret_found = rw named refl

  -- What is asked of the session and of the secret.
  After-token :
      {Q : Result ErrorKind Text → Broker → Type 0}
      → Q (err auth_missing_token) b
      → ((s : Session)
          → session_at ≡ some s
          → s.status ≡ authorized
          → has ref b.secrets ≡ true
          → After Q (provider_bearer_token ref) b)
      → After Q (get_bearer_token ref) b
  unfolding get_bearer_token
  After-token bad good =
      let refused = After-throw auth_missing_token b bad in
      After-lift_ok _ _ _ b named (
        After-gets _ _ b (
          After-lift_ok _ _ _ b session_found (
            After-lift_ok _ _ _ b secret_found (
              After-option session_at _ _ b (λ _. refused)
                λ s there.
                  After-status s.status _ _ _ b
                    (λ p. After-if (has ref b.secrets) _ _ b (good s there p) (λ _. refused))
                    (λ _. refused) refused))))

  pub refused_without_secret :
      get ref b.secrets ≡ none → (get_bearer_token ref b).0 ≡ err auth_missing_token
  refused_without_secret h =
      (After-token {Q = λ r c. r ≡ err auth_missing_token} refl λ s _ _ k. cc).ends

  pub set_secret-is_set :
      (x : SecretInput) (r : SecretRecord)
      → normalize_secret_record x ≡ ok r
      → set_secret ref x b ≡ (ok tt, record b { secrets = set ref r b.secrets })
  unfolding set_secret ◌>>=◌
  set_secret-is_set x r h = rw (named, h) refl

  delete_secret-is_deleted :
      delete_secret ref b ≡ (ok tt, record b { secrets = delete ref b.secrets })
  unfolding delete_secret ◌>>=◌
  delete_secret-is_deleted = rw named refl

  abbrev bearer : Text → SecretRecord
  bearer t = record { kind = codes "bearer"; value = t }

  provider_token :
      (t : Text)
      → get ref b.secrets ≡ some (bearer t)
      → After (λ x c. x ≡ ok t) (provider_bearer_token ref) b
  unfolding provider_bearer_token
  provider_token t h = After-lift_ok _ _ _ b named (
      After-gets _ _ b (
        After-option (get ref b.secrets) _ _ b (λ e. cc)
          λ r e.
            let same : r ≡ bearer t = cc in
            subst
              (λ z.
                After (λ x c. x ≡ ok t)
                  (if text_eq z.kind (codes "bearer") then pure z.value else throw auth_failure) b)
              (sym same) (After-pure t b refl)))

  is_bearer_record :
      (r : SecretRecord) (t : Text) → r.kind ≡ codes "bearer" → r.value ≡ t → r ≡ bearer t
  is_bearer_record r t p q =
      ap (λ k. record { kind = k; value = r.value }) p
      ∙ ap (λ v. record { kind = codes "bearer"; value = v }) q

  provider_only :
      After
        (λ x c. (t : Text) → x ≡ ok t → get ref b.secrets ≡ some (bearer t))
        (provider_bearer_token ref)
        b
  unfolding provider_bearer_token
  provider_only = After-lift_ok _ _ _ b named (
      After-gets _ _ b (
        After-option (get ref b.secrets) _ _ b (λ e. After-throw auth_failure b (λ t x. cc))
          λ r e.
            After-if (text_eq r.kind (codes "bearer")) _ _ b
              (λ k. After-pure r.value b λ t x.
                e ∙ ap some (is_bearer_record r t ((text_eq_iff r.kind (codes "bearer")).0 k) (cc)))
              (λ k. After-throw auth_failure b (λ t x. cc))))

  given_with_session :
      (t : Text) (s : Session)
      → session_at ≡ some s
      → s.status ≡ authorized
      → get ref b.secrets ≡ some (bearer t)
      → After (λ x c. x ≡ ok t) (get_bearer_token ref) b
  unfolding get_bearer_token
  given_with_session t s there p here = After-lift_ok _ _ _ b named (
      After-gets _ _ b (
        After-lift_ok _ _ _ b session_found (
          After-lift_ok _ _ _ b secret_found (
            After-option session_at _ _ b (λ e. cc)
              λ r e.
                let same : s ≡ r = cc in
                let q : r.status ≡ authorized = ap (λ (z : Session). z.status) (sym same) ∙ p in
                rw q (After-if (has ref b.secrets) _ _ b (λ _. provider_token t here) (λ k. cc))))))

pub served :
    (c : Broker) (name ref id t : Text) (s : Session)
    → name ≡ ref
    → IsRef name
    → get name c.session_refs ≡ some id
    → is_empty id ≡ false
    → get id c.sessions ≡ some s
    → s.status ≡ authorized
    → get name c.secrets ≡ some (record { kind = codes "bearer"; value = t })
    → (get_bearer_token ref c).0 ≡ ok t
served c name ref id t s same is_ref p q r a v =
    subst (λ x. (get_bearer_token x c).0 ≡ ok t) same
      (given_with_session name c is_ref t s (rw (session_at, p) (rw q r)) a v).ends

-- What a token that was given out tells.
abbrev Given : Text → Broker → Result ErrorKind Text → Broker → Type 0
Given ref b x c =
    (t : Text)
    → x ≡ ok t
    → (s : Session) × (session_by_secret_ref ref b ≡ ok (some s))
      × (s.status ≡ authorized)
      × (get ref b.secrets ≡ some (record { kind = codes "bearer"; value = t }))

abbrev Revoked : Result ErrorKind Session → Broker → Type 0
Revoked x c =
    (s : Session) → x ≡ ok s → (get_bearer_token s.secret_ref c).0 ≡ err auth_missing_token

-- A token is given out for a reference only while the reference leads to an authorized session,
-- and it is then the bearer value that the secret store has under the reference.
pub get_bearer_token-authorized :
    (ref : Text) (b : Broker) (t : Text)
    → IsRef ref
    → (get_bearer_token ref b).0 ≡ ok t
    → (s : Session) × (session_by_secret_ref ref b ≡ ok (some s))
      × (s.status ≡ authorized)
      × (get ref b.secrets ≡ some (record { kind = codes "bearer"; value = t }))
get_bearer_token-authorized ref b t is_ref h =
    (After-token ref b is_ref {Q = Given ref b} (λ t x. cc) found).ends t h
  where
    found :
        (s : Session)
        → session_at ref b is_ref ≡ some s
        → s.status ≡ authorized
        → has ref b.secrets ≡ true
        → After (Given ref b) (provider_bearer_token ref) b
    found s there p here =
        After-weaken _ b (λ x c k t e. (s, session_found ref b is_ref ∙ ap ok there, p, k t e))
          (provider_only ref b is_ref)

-- After a logout that succeeds, no token is given out for the reference of the session.
pub logout-revokes :
    (now : ℕ → Option ℕ) (id : Text) (b : Broker) (s : Session)
    → IsSound b
    → (logout now id b).0 ≡ ok s
    → (get_bearer_token s.secret_ref (logout now id b).1).0 ≡ err auth_missing_token
unfolding logout
logout-revokes now id b s sound = ends.ends s
  where
    ends : After Revoked (logout now id) b
    ends = After-gets _ _ b (
        After-lift (require_session id b) _ b (λ e h s x. cc)
          λ session found.
            let ref = require_session-IsRef id b session sound found in
            After-call (λ x c. c ≡ record b { secrets = delete session.secret_ref b.secrets }) _ _ b
              (record { ends = ap (λ z. z.1) (delete_secret-is_deleted session.secret_ref b ref) })
              (λ e c h s x. cc)
              λ _ c h.
                After-clock now _ c (λ e s x. cc)
                  λ time _. After-modify _ _ _ (
                    After-pure _ _ λ s x.
                      let same : session.secret_ref ≡ s.secret_ref = cc in
                      let gone : get session.secret_ref c.secrets ≡ none =
                        ap (λ z. get session.secret_ref z.secrets) h
                        ∙ (ground (
                          arith,
                          get-delete session.secret_ref session.secret_ref b.secrets,
                          text_eq_refl session.secret_ref,
                        )) in
                      refused_without_secret s.secret_ref _ (subst IsRef same ref)
                        (ap (λ k. get k c.secrets) (sym same) ∙ gone)))
