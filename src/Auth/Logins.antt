-- ===== src/Auth/Logins.antt =====
-- The life cycle of device logins (apps/web/src/secrets.js): the statuses that follow one another,
-- the invariant of the broker, and the two kinds of writes to its logins.
pub mod Methods
pub mod Ends
use wasm_host.Prelude.{
  ℕ, Text, Bool, true, false, ◌≡◌, refl, sym, ap, subst, ◌∙◌, ◌⊎◌, inl, inr, Option, none, some,
  List, [], ◌∷◌, text_eq, text_eq_iff, text_eq_refl, is_empty, trim, arith, if◌then◌else◌,
  Option-cases, Bool-cases,
}
use wasm_host.Prelude.Exec.{Result, ok, err}
use wasm_host.Prelude.Dict.{Dict, get, set, get-set, get-set_self}
use wasm_host.Auth.Broker.{
  Status, pending, authorized, denied, expired, cancelled_login, logged_out, Login, Session, Broker,
  put_login, log_out_logins,
}

-- Which status a login of a status may have later.
abbrev pub follows : Status → Status → Bool
follows pending _ = true
follows authorized authorized = true
follows authorized logged_out = true
follows authorized _ = false
follows denied denied = true
follows denied _ = false
follows expired expired = true
follows expired _ = false
follows cancelled_login cancelled_login = true
follows cancelled_login _ = false
follows logged_out logged_out = true
follows logged_out _ = false

-- What a later state of a login keeps.
pub record Kept (l m : Login) : Type 0 where
  pub status : follows l.status m.status ≡ true
  pub login_id : m.login_id ≡ l.login_id
  pub secret_ref : m.secret_ref ≡ l.secret_ref
  pub created_at : m.created_at ≡ l.created_at
  pub expires_at : m.expires_at ≡ l.expires_at

-- Every login of the first broker is in the second, in a later state.
pub record Follow (b c : Broker) : Type 0 where
  pub at :
      (k : Text) (l : Login)
      → get k b.logins ≡ some l
      → (m : Login) × (get k c.logins ≡ some m) × Kept l m

-- A reference as `normalizeSecretRef` returns it.
abbrev pub IsRef : Text → Type 0
IsRef t = (trim t ≡ t) × (is_empty t ≡ false)

-- Only an authorized login, or one that was, has a session.
abbrev pub HasSession : Login → Type 0
HasSession l = (l.session_id ≡ none) ⊎ ((l.status ≡ authorized) ⊎ (l.status ≡ logged_out))

pub record IsSound (b : Broker) : Type 0 where
  pub login_named : (k : Text) (l : Login) → get k b.logins ≡ some l → l.login_id ≡ k
  pub login_session : (k : Text) (l : Login) → get k b.logins ≡ some l → HasSession l
  pub login_ref : (k : Text) (l : Login) → get k b.logins ≡ some l → IsRef l.secret_ref
  pub session_named : (k : Text) (s : Session) → get k b.sessions ≡ some s → s.session_id ≡ k
  pub session_ref : (k : Text) (s : Session) → get k b.sessions ≡ some s → IsRef s.secret_ref

pub Kept-refl : (l : Login) → Kept l l
Kept-refl l = record {
  status = same l.status;
  login_id = refl;
  secret_ref = refl;
  created_at = refl;
  expires_at = refl;
}
  where
    same : (s : Status) → follows s s ≡ true
    same pending = refl
    same authorized = refl
    same denied = refl
    same expired = refl
    same cancelled_login = refl
    same logged_out = refl

pub Follow-refl : {b c : Broker} → c.logins ≡ b.logins → Follow b c
Follow-refl e = record { at = λ k l h. (l, ap (get k) e ∙ h, Kept-refl l) }

-- A login written over its earlier state.
pub put_login-Follow :
    (b : Broker) (l m : Login)
    → get m.login_id b.logins ≡ some l
    → Kept l m
    → Follow b (put_login m b)
put_login-Follow b l m old kept = record {
  at = λ k x h. elim (Bool-cases (text_eq m.login_id k)) [
    | inl e ↦
        let same = (text_eq_iff m.login_id k).0 e in
        let there : get k b.logins ≡ some l = ap (λ j. get j b.logins) (sym same) ∙ old in
        let first : l ≡ x = cc in
        (m, ground (arith, get-set m.login_id k m b.logins), subst (λ y. Kept y m) first kept)
    | inr e ↦ (x, ground (arith, get-set m.login_id k m b.logins), Kept-refl x)
  ];
}

-- A login that is new, or is written over another.
pub put_new-Follow :
    (b : Broker) (m : Login) → get m.login_id b.logins ≡ none → Follow b (put_login m b)
put_new-Follow b m new = record {
  at = λ k x h.
      (x, ground (arith, get-set m.login_id k m b.logins, text_eq_iff m.login_id k), Kept-refl x);
}

module _ (b : Broker) (m : Login) where
  written :
      (k : Text) (x : Login)
      → get k (put_login m b).logins ≡ some x
      → ((m.login_id ≡ k) × (m ≡ x)) ⊎ (get k b.logins ≡ some x)
  written k x h = elim (Bool-cases (text_eq m.login_id k)) [
    | inl e ↦ inl ((text_eq_iff m.login_id k).0 e, ground (arith, get-set m.login_id k m b.logins))
    | inr e ↦ inr (ground (arith, get-set m.login_id k m b.logins))
  ]

  pub put_login-IsSound : IsSound b → HasSession m → IsRef m.secret_ref → IsSound (put_login m b)
  put_login-IsSound s hs ref = record {
    login_named = λ k x h. elim (written k x h) [
      | inl (p, q) ↦ ap (λ (y : Login). y.login_id) (sym q) ∙ p
      | inr o ↦ s.login_named k x o
    ];
    login_session = λ k x h. elim (written k x h) [
      | inl (p, q) ↦ subst HasSession q hs
      | inr o ↦ s.login_session k x o
    ];
    login_ref = λ k x h. elim (written k x h) [
      | inl (p, q) ↦ subst (λ (y : Login). IsRef y.secret_ref) q ref
      | inr o ↦ s.login_ref k x o
    ];
    session_named = s.session_named;
    session_ref = s.session_ref;
  }

-- The loop of `logout` changes the status of a login, at most.
abbrev logged_out_login : Text → Login → Login
logged_out_login id l = elim l.session_id [
  | none ↦ l
  | some s ↦ if text_eq s id then record l { status = logged_out } else l
]

get-log_out :
    (id k : Text) (d : Dict Login) (x : Login)
    → get k d ≡ some x
    → get k (log_out_logins id d) ≡ some (logged_out_login id x)
unfolding log_out_logins get
get-log_out id k [] x h = cc
get-log_out id k ((j, l) ∷ d) x h = ground (arith, get-log_out id k d x)

log_out-get :
    (id k : Text) (d : Dict Login) (y : Login)
    → get k (log_out_logins id d) ≡ some y
    → (x : Login) × (get k d ≡ some x) × (logged_out_login id x ≡ y)
unfolding log_out_logins get
log_out-get id k [] y h = cc
log_out-get id k ((j, l) ∷ d) y h = elim (Bool-cases (text_eq j k)) [
  | inl e ↦ (l, rw e, ground arith)
  | inr e ↦ let (x, g, p) = log_out-get id k d y (rw e at h) in (x, rw e g, p)
]

logged_out_login-Kept : (id : Text) (x : Login) → HasSession x → Kept x (logged_out_login id x)
logged_out_login-Kept id x h = record {
  status = status_after x.session_id refl;
  login_id = ground arith;
  secret_ref = ground arith;
  created_at = ground arith;
  expires_at = ground arith;
}
  where
    status_after :
        (o : Option Text)
        → x.session_id ≡ o
        → follows x.status (logged_out_login id x).status ≡ true
    status_after o e = ground arith
