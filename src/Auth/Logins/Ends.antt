-- ===== src/Auth/Logins/Ends.antt =====
-- The methods that end a login or its session (apps/web/src/secrets.js).
use wasm_host.Prelude.{
  ℕ, Text, true, ◌≡◌, refl, sym, ap, subst, ◌∙◌, ◌⊎◌, inl, inr, Option, none, some, text_eq,
  text_eq_iff, is_empty, arith, Option-cases, Bool-cases,
}
use wasm_host.Prelude.Exec.{
  OnOk, OnOk-bind, OnOk-bind_any, OnOk_elim, Result, ok, err, After, After-pure, After-lift,
  After-gets, After-modify, After-throw_if, After-modify_last, After-call,
}
use wasm_host.Prelude.Dict.{get, set, get-set}
use wasm_host.Auth.Values.{
  ErrorKind, SecretInput, Account, auth_missing_token, nonempty_text, normalize_secret_ref,
}
use wasm_host.Auth.Broker.{
  Status, pending, authorized, denied, logged_out, Login, Session, Broker, CompleteOptions,
  log_out_logins, complete_device_login, deny_device_login, set_secret, delete_secret,
  require_session, session_by_secret_ref, logout,
}
use wasm_host.Auth.Logins.{
  IsSound, follows, Follow, IsRef, HasSession, Kept, put_login-Follow, put_login-IsSound,
  get-log_out, log_out-get, logged_out_login, logged_out_login-Kept,
}
use wasm_host.Auth.Logins.Methods.{Good, tick, Good-same, After-clock, require-Pending}

Follow-from :
    {b c d : Broker} → ((k : Text) → get k c.logins ≡ get k b.logins) → Follow c d → Follow b d
Follow-from same f = record { at = λ k l h. f.at k l (same k ∙ h) }

pub Good-then :
    {b c d : Broker} → Good b c → d.logins ≡ c.logins → d.sessions ≡ c.sessions → Good b d
Good-then {b} {c} {d} g l e = record {
  sound = (Good-same {b = c} {c = d} l e g.sound).sound;
  follow = record {
    at = λ k x h. let (m, there, kept) = g.follow.at k x h in (m, ap (get k) l ∙ there, kept);
  };
}

-- A pending login has no session.
pub pending_session :
    (l : Login) (t : Status)
    → l.status ≡ pending
    → HasSession l
    → HasSession (record l { status = t })
pending_session l t p h = elim h [ inl n ↦ inl n | inr (inl a) ↦ cc | inr (inr a) ↦ cc ]

pub pending-Kept :
    (l : Login) (t : Status)
    → l.status ≡ pending
    → follows pending t ≡ true
    → Kept l (record l { status = t })
pending-Kept l t p h = record {
  status = ap (λ x. follows x t) p ∙ h;
  login_id = refl;
  secret_ref = refl;
  created_at = refl;
  expires_at = refl;
}

-- A session written over, or added.
pub put_session-IsSound :
    {b c : Broker} (s : Session)
    → c.logins ≡ b.logins
    → c.sessions ≡ set s.session_id s b.sessions
    → IsSound b
    → IsRef s.secret_ref
    → IsSound c
put_session-IsSound {b} {c} s l e sound ref = record {
  login_named = rw l sound.login_named;
  login_session = rw l sound.login_session;
  login_ref = rw l sound.login_ref;
  session_named = λ k x h. elim (written k x h) [
    | inl (p, q) ↦ ap (λ (y : Session). y.session_id) (sym q) ∙ p
    | inr o ↦ sound.session_named k x o
  ];
  session_ref = λ k x h. elim (written k x h) [
    | inl (p, q) ↦ subst (λ (y : Session). IsRef y.secret_ref) q ref
    | inr o ↦ sound.session_ref k x o
  ];
}
  where
    written :
        (k : Text) (x : Session)
        → get k c.sessions ≡ some x
        → ((s.session_id ≡ k) × (s ≡ x)) ⊎ (get k b.sessions ≡ some x)
    written k x h =
        let g : get k (set s.session_id s b.sessions) ≡ some x = ap (get k) (sym e) ∙ h in
        elim (Bool-cases (text_eq s.session_id k)) [
          | inl t ↦ inl (
            (text_eq_iff s.session_id k).0 t,
            ground (arith, get-set s.session_id k s b.sessions),
          )
          | inr t ↦ inr (ground (arith, get-set s.session_id k s b.sessions))
        ]

abbrev pub Same : {A : Type 0} → Broker → Result ErrorKind A → Broker → Type 0
Same b r c = (c.logins ≡ b.logins) × (c.sessions ≡ b.sessions)

pub set_secret-Same :
    (ref : Text) (r : SecretInput) (b : Broker) → After (Same b) (set_secret ref r) b
unfolding set_secret
set_secret-Same ref r b =
    After-lift _ _ b (λ _ _. (refl, refl))
      λ _ _. After-lift _ _ b (λ _ _. (refl, refl)) λ _ _. After-modify_last _ b (refl, refl)

pub delete_secret-Same : (ref : Text) (b : Broker) → After (Same b) (delete_secret ref) b
unfolding delete_secret
delete_secret-Same ref b =
    After-lift _ _ b (λ _ _. (refl, refl)) λ _ _. After-modify_last _ b (refl, refl)

completed-Kept :
    (l : Login) (a : Option Account) (t : Option ℕ) (s : Option Text)
    → l.status ≡ pending
    → Kept l (record l { account = a; completed_at = t; session_id = s; status = authorized })
completed-Kept l a t s p = record {
  status = ap (λ x. follows x authorized) p;
  login_id = refl;
  secret_ref = refl;
  created_at = refl;
  expires_at = refl;
}

session_found-IsRef :
    (key : Text) (b : Broker)
    → IsSound b
    → OnOk (λ o. (s : Session) → o ≡ some s → IsRef s.secret_ref) (session_by_secret_ref key b)
unfolding session_by_secret_ref
session_found-IsRef key b sound = OnOk-bind_any _ (normalize_secret_ref key) _ λ name _.
    elim (Option-cases (get name b.session_refs)) [
      | inl e ↦ rw e (λ s h. cc)
      | inr (id, e) ↦ elim (Bool-cases (is_empty id)) [
        | inl t ↦ rw e (rw t (λ s h. cc))
        | inr t ↦ rw e (rw t (λ s h. sound.session_ref id s h))
      ]
    ]

required-IsRef :
    (key : Text) (b : Broker)
    → IsSound b
    → OnOk (λ (s : Session). IsRef s.secret_ref) (require_session key b)
unfolding require_session
required-IsRef key b sound = OnOk-bind_any _ (nonempty_text key) _ λ id _.
    elim (Option-cases (get id b.sessions)) [
      | inr (s, e) ↦ rw e (sound.session_ref id s e)
      | inl e ↦ rw e (
          OnOk-bind _ _ (session_by_secret_ref id b) _ (session_found-IsRef id b sound)
            λ o _ p. found o p)
    ]
  where
    found :
        (o : Option Session)
        → ((s : Session) → o ≡ some s → IsRef s.secret_ref)
        → OnOk {E = ErrorKind}
            (λ (s : Session). IsRef s.secret_ref)
            (elim o [ some s ↦ ok s | none ↦ err auth_missing_token ])
    found none p = tt
    found (some s) p = p s refl

pub require_session-IsRef :
    (key : Text) (b : Broker) (s : Session)
    → IsSound b
    → require_session key b ≡ ok s
    → IsRef s.secret_ref
require_session-IsRef key b s sound =
    OnOk_elim (λ (s : Session). IsRef s.secret_ref) (require_session key b) s
      (required-IsRef key b sound)

module _ (now : ℕ → Option ℕ) where
  pub deny-Good :
      (id : Text) (b : Broker) → IsSound b → After (λ _. Good b) (deny_device_login now id) b
  unfolding deny_device_login
  deny-Good id b s =
      After-call _ _ _ b (require-Pending now id b s) (λ e c g. g)
        λ l c (good, there, p, rest). After-modify _ _ _ (
          After-pure _ _ (record {
            sound =
                put_login-IsSound c _ good.sound
                  (pending_session l denied p (good.sound.login_session _ l there))
                  (good.sound.login_ref _ l there);
            follow = Follow-from rest (put_login-Follow c l _ there (pending-Kept l denied p refl));
          }))

  pub complete-Good :
      (id : Text) (o : CompleteOptions) (b : Broker)
      → IsSound b
      → After (λ _. Good b) (complete_device_login now id o) b
  unfolding complete_device_login
  complete-Good id o b s =
      After-call _ _ _ b (require-Pending now id b s) (λ e c g. g)
        λ l c (good, there, p, rest).
          let ref = good.sound.login_ref _ l there in
          let same = λ (d : Broker) (x : d.logins ≡ c.logins) (y : d.sessions ≡ c.sessions).
            Good-then {b = b} {c = c} {d = d} good x y in
          After-lift _ _ c (λ _ _. good)
            λ token _.
              After-clock now _ c (λ _. same (tick c) refl refl)
                λ time _. After-gets _ _ _ (
                  After-lift _ _ _ (λ _ _. same (tick c) refl refl)
                    λ session_id _.
                      After-throw_if _ _ _ _ (λ _. same (tick c) refl refl)
                        λ _. After-modify _ _ _ (
                          After-call _ _ _ _ (set_secret-Same l.secret_ref _ _)
                            (λ e u (x, y). same u x y)
                            λ _ u (x, y). After-modify _ _ _ (
                              After-modify _ _ _ (
                                After-pure _ _ (record {
                                  sound =
                                      put_login-IsSound _ _
                                        (put_session-IsSound {b = u} _ refl refl (same u x y).sound
                                          ref)
                                        (inr (inl refl)) ref;
                                  follow = record {
                                    at =
                                        (Follow-from {b = b} {c = u} (λ k. ap (get k) x ∙ rest k)
                                          (put_login-Follow u l _ (ap (get _) x ∙ there)
                                            (completed-Kept l _ _ _ p))).at;
                                  };
                                })))))

  logged_out-IsSound :
      (b : Broker) (id : Text)
      → IsSound b
      → Good b (record b { logins = log_out_logins id b.logins })
  logged_out-IsSound b id s = record {
    sound = record {
      login_named = λ k y h.
          let (x, g, e) = log_out-get id k b.logins y h in
          subst (λ z. z.login_id ≡ k) e
            ((logged_out_login-Kept id x (s.login_session k x g)).login_id ∙ s.login_named k x g);
      login_session = λ k y h.
          let (x, g, e) = log_out-get id k b.logins y h in
          subst HasSession e (after x (s.login_session k x g));
      login_ref = λ k y h.
          let (x, g, e) = log_out-get id k b.logins y h in
          subst (λ z. IsRef z.secret_ref) e
            (subst IsRef (sym ((logged_out_login-Kept id x (s.login_session k x g)).secret_ref))
              (s.login_ref k x g));
      session_named = s.session_named;
      session_ref = s.session_ref;
    };
    follow = record {
      at = λ k x h. (
        logged_out_login id x,
        get-log_out id k b.logins x h,
        logged_out_login-Kept id x (s.login_session k x h),
      );
    };
  }
    where
      after : (x : Login) → HasSession x → HasSession (logged_out_login id x)
      after x h = ground arith

  pub logout-Good : (id : Text) (b : Broker) → IsSound b → After (λ _. Good b) (logout now id) b
  unfolding logout
  logout-Good id b s = After-gets _ _ b (
      After-lift (require_session id b) _ b (λ _ _. Good-same refl refl s)
        λ session found.
          After-call _ _ _ b (delete_secret-Same session.secret_ref b)
            (λ e c (x, y). Good-same x y s)
            λ _ c (x, y).
              After-clock now _ c (λ _. Good-same x y s)
                λ time _. After-modify _ _ _ (
                  After-pure _ _ (
                    let good = logged_out-IsSound b session.session_id s in
                    record {
                      sound =
                          put_session-IsSound
                            {b = record b { logins = log_out_logins session.session_id b.logins }}
                            (record session { logged_out_at = some time; status = logged_out })
                            (ap (log_out_logins session.session_id) x)
                            (ap (set session.session_id _) y) good.sound
                            (require_session-IsRef id b session s found);
                      follow = record {
                        at =
                            (Good-then
                              {d = record c { logins = log_out_logins session.session_id c.logins }}
                              good (ap (log_out_logins session.session_id) x) y).follow.at;
                      };
                    })))
