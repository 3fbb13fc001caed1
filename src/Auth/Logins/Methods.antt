-- ===== src/Auth/Logins/Methods.antt =====
-- Each method of the broker keeps the invariant and moves logins forward (apps/web/src/secrets.js).
use wasm_host.Prelude.{
  ℕ, suc, Text, false, ◌≡◌, refl, sym, ap, subst, ◌∙◌, inl, inr, Option, none, some, text_eq_iff,
  is_empty, leb, trim, arith, Option-cases, Bool-cases, is_some,
}
use wasm_host.Prelude.Texts.Trim.{trim-trim}
use wasm_host.Prelude.Exec.{
  OnOk, OnOk-bind_any, OnOk_elim, Result, ok, err, ◌>>=◌, After, After-pure, After-lift, After-gets,
  After-modify, After-throw_if, After-bind, After-error, After-lift_last, After-call, After-weaken,
}
use wasm_host.Prelude.Dict.{get, has, get-set, get-set_self}
use wasm_host.Auth.Values.{
  ErrorKind, Signal, nonempty_text, normalize_scopes, positive_integer, non_negative_integer,
  check_auth_signal,
}
use wasm_host.Auth.Broker.{
  Status, pending, authorized, denied, expired, cancelled_login, logged_out, Login, Broker, Action,
  StartOptions, put_login, current_time, start_device_login, require_login, refresh_login,
  update_expired_login, poll_device_login, require_pending_login, pending_or_error,
}
use wasm_host.Auth.Logins.{
  IsSound, Follow, Follow-refl, IsRef, HasSession, Kept, put_login-Follow, put_new-Follow,
  put_login-IsSound,
}

pub record Good (b c : Broker) : Type 0 where
  pub sound : IsSound c
  pub follow : Follow b c

abbrev pub tick : Broker → Broker
tick b = record b { readings = suc b.readings }

pub IsSound-same :
    {b c : Broker} → c.logins ≡ b.logins → c.sessions ≡ b.sessions → IsSound b → IsSound c
IsSound-same l e s = record {
  login_named = rw l s.login_named;
  login_session = rw l s.login_session;
  login_ref = rw l s.login_ref;
  session_named = rw e s.session_named;
  session_ref = rw e s.session_ref;
}

pub Good-same :
    {b c : Broker} → c.logins ≡ b.logins → c.sessions ≡ b.sessions → IsSound b → Good b c
Good-same l e s = record { sound = IsSound-same l e s; follow = Follow-refl l }

pub nonempty_text-IsRef : (v t : Text) → nonempty_text v ≡ ok t → IsRef t
unfolding nonempty_text
nonempty_text-IsRef v t h = elim (Bool-cases (is_empty (trim v))) [
  | inl e ↦ cc (rw e at h)
  | inr e ↦
      let same : trim v ≡ t = ok-injective (rw e at h) in
      (ap trim (sym same) ∙ trim-trim v ∙ same, ap is_empty (sym same) ∙ e)
]
  where
    ok-injective : {x y : Text} → ◌≡◌ {A = Result ErrorKind Text} (ok x) (ok y) → x ≡ y
    ok-injective h = cc

none_of : {A : Type 0} {o : Option A} → is_some o ≡ false → o ≡ none
none_of {o = none} h = refl
none_of {o = some a} h = cc

-- A match on the status of a login.
pub After-status :
    {A : Type 0} {Q : Result ErrorKind A → Broker → Type 0} (t : Status) (m n o : Action A)
    (b : Broker)
    → (t ≡ authorized → After Q m b)
    → (t ≡ pending → After Q n b)
    → After Q o b
    → After Q (elim t [ authorized ↦ m | pending ↦ n | _ ↦ o ]) b
After-status authorized m n o b f g h = f refl
After-status pending m n o b f g h = g refl
After-status denied m n o b f g h = h
After-status expired m n o b f g h = h
After-status cancelled_login m n o b f g h = h
After-status logged_out m n o b f g h = h

-- What is known after a login is read and its expiry is looked at.
abbrev pub Refreshed : Broker → Result ErrorKind Login → Broker → Type 0
Refreshed b (err e) c = Good b c
Refreshed b (ok l) c =
    Good b c
    × (get l.login_id c.logins ≡ some l)
    × (l.status ≡ pending → (k : Text) → get k c.logins ≡ get k b.logins)

module _ (now : ℕ → Option ℕ) where
  pub After-clock :
      {A : Type 0} {Q : Result ErrorKind A → Broker → Type 0} (f : ℕ → Action A) (b : Broker)
      → ((e : ErrorKind) → Q (err e) (tick b))
      → ((time : ℕ) → non_negative_integer (now b.readings) ≡ ok time → After Q (f time) (tick b))
      → After Q (current_time now >>= f) b
  unfolding current_time
  After-clock f b bad next = After-bind _ f b (
      After-gets _ _ b (
        After-modify _ _ b (
          After-lift_last _ (tick b) (λ e _. After-error e f (tick b) (bad e))
            λ time h. next time h)))

  pub start-Good :
      (o : StartOptions) (b : Broker) → IsSound b → After (λ _. Good b) (start_device_login now o) b
  unfolding start_device_login
  start-Good o b s =
      let same = λ (c : Broker) (p : c.logins ≡ b.logins) (q : c.sessions ≡ b.sessions).
        Good-same {b = b} {c = c} p q s in
      After-clock _ b (λ _. same (tick b) refl refl)
        λ created_at _. After-gets _ _ _ (
          After-lift (nonempty_text _) _ _ (λ _ _. same (tick b) refl refl)
            λ login_id _.
              After-throw_if (has login_id b.logins) _ _ _ (λ _. same (tick b) refl refl)
                λ new. After-modify _ _ _ (
                  After-lift (nonempty_text _) _ _ (λ _ _. same _ refl refl)
                    λ secret_ref ref.
                      After-lift (nonempty_text _) _ _ (λ _ _. same _ refl refl)
                        λ user_code _.
                          After-lift (non_negative_integer _) _ _ (λ _ _. same _ refl refl)
                            λ expires_at _.
                              After-throw_if (leb expires_at created_at) _ _ _
                                (λ _. same _ refl refl)
                                λ _.
                                  After-lift (positive_integer _) _ _ (λ _ _. same _ refl refl)
                                    λ interval _.
                                      After-lift (normalize_scopes o.scopes) _ _
                                        (λ _ _. same _ refl refl)
                                        λ scopes _.
                                          After-lift (nonempty_text _) _ _ (λ _ _. same _ refl refl)
                                            λ uri _.
                                              After-lift _ _ _ (λ _ _. same _ refl refl)
                                                λ complete _. After-modify _ _ _ (
                                                  After-pure _ _ (record {
                                                    sound =
                                                        put_login-IsSound _ _
                                                          (IsSound-same refl refl s) (inl refl)
                                                          (nonempty_text-IsRef _ secret_ref ref);
                                                    follow = record {
                                                      at = (put_new-Follow b _ (none_of new)).at;
                                                    };
                                                  }))))

  expired-Kept : (time : ℕ) (l : Login) → Kept l (update_expired_login time l)
  unfolding update_expired_login
  expired-Kept time l = record {
    status = ground arith;
    login_id = ground arith;
    secret_ref = ground arith;
    created_at = ground arith;
    expires_at = ground arith;
  }

  expired-HasSession :
      (time : ℕ) (l : Login) → HasSession l → HasSession (update_expired_login time l)
  unfolding update_expired_login
  expired-HasSession time l h = ground arith

  expired-pending :
      (time : ℕ) (l : Login)
      → (update_expired_login time l).status ≡ pending
      → update_expired_login time l ≡ l
  unfolding update_expired_login
  expired-pending time l h = ground arith

  require_login-OnOk :
      (id : Text) (b : Broker)
      → IsSound b
      → OnOk (λ l. get l.login_id b.logins ≡ some l) (require_login id b)
  unfolding require_login
  require_login-OnOk id b s =
      OnOk-bind_any (λ (l : Login). get l.login_id b.logins ≡ some l) (nonempty_text id) _
        λ key _. elim (Option-cases (get key b.logins)) [
          | inl e ↦ rw e tt
          | inr (l, e) ↦ rw e (ap (λ j. get j b.logins) (s.login_named key l e) ∙ e)
        ]

  pub require_login-get :
      (id : Text) (b : Broker) (l : Login)
      → IsSound b
      → require_login id b ≡ ok l
      → get l.login_id b.logins ≡ some l
  require_login-get id b l s h =
      OnOk_elim (λ (l : Login). get l.login_id b.logins ≡ some l) (require_login id b) l
        (require_login-OnOk id b s) h

  put_same :
      (b : Broker) (l : Login)
      → get l.login_id b.logins ≡ some l
      → (k : Text) → get k (put_login l b).logins ≡ get k b.logins
  put_same b l g k = ground (arith, get-set l.login_id k l b.logins, text_eq_iff l.login_id k)

  pub refresh-Refreshed :
      (id : Text) (b : Broker) → IsSound b → After (Refreshed b) (refresh_login now id) b
  unfolding refresh_login
  refresh-Refreshed id b s = After-gets _ _ b (
      After-lift (require_login id b) _ b (λ _ _. Good-same refl refl s)
        λ l found.
          let g = require_login-get id b l s found in
          After-clock _ b (λ _. Good-same refl refl s)
            λ time _.
              let m = update_expired_login time l in
              let kept = expired-Kept time l in
              let old : get m.login_id b.logins ≡ some l =
                ap (λ k. get k b.logins) kept.login_id ∙ g in
              After-modify _ _ _ (
                After-pure _ _ (
                  record {
                    sound =
                        put_login-IsSound (tick b) m (IsSound-same refl refl s)
                          (expired-HasSession time l (s.login_session _ l g))
                          (subst IsRef (sym kept.secret_ref) (s.login_ref _ l g));
                    follow = record { at = (put_login-Follow b l m old kept).at };
                  },
                  get-set_self m.login_id m b.logins,
                  λ p k.
                      ap (λ y. get k (put_login y b).logins) (expired-pending time l p)
                      ∙ put_same b l g k,
                )))

  pub poll-Good :
      (id : Text) (signal : Signal) (b : Broker)
      → IsSound b
      → After (λ _. Good b) (poll_device_login now id signal) b
  unfolding poll_device_login
  poll-Good id signal b s =
      After-lift (check_auth_signal signal) _ b (λ _ _. Good-same refl refl s)
        λ _ _. After-weaken _ b weaken (refresh-Refreshed id b s)
    where
      weaken : (r : Result ErrorKind Login) (c : Broker) → Refreshed b r c → Good b c
      weaken (ok l) c h = h.0
      weaken (err e) c h = h

  -- What `requirePendingLogin` returns is pending, and nothing has changed but the clock.
  abbrev pub Pending : Broker → Result ErrorKind Login → Broker → Type 0
  Pending b (err e) c = Good b c
  Pending b (ok l) c =
      Good b c
      × (get l.login_id c.logins ≡ some l)
      × (l.status ≡ pending)
      × ((k : Text) → get k c.logins ≡ get k b.logins)

  pending_only : (l m : Login) → pending_or_error l ≡ ok m → (l.status ≡ pending) × (l ≡ m)
  unfolding pending_or_error
  pending_only l m h = ground arith

  pub require-Pending :
      (id : Text) (b : Broker) → IsSound b → After (Pending b) (require_pending_login now id) b
  unfolding require_pending_login
  require-Pending id b s =
      After-call _ _ _ b (refresh-Refreshed id b s) (λ e c g. g)
        λ l c (good, there, rest).
          After-lift_last (pending_or_error l) c (λ e _. good)
            λ m h.
              let (p, q) = pending_only l m h in
              subst (λ x. Pending b (ok x) c) q (good, there, p, rest p)
