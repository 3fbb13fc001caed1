-- ===== src/Auth/Broker.antt =====
-- `MemorySecretProvider` and `FakeBrowserDeviceFlowAuthBroker` (apps/web/src/secrets.js). A method
-- is an action on the broker. Logins and sessions are reached only through the broker's maps, so a
-- change of one is a write to its map.
use wasm_host.Prelude.{
  ℕ, suc, ◌+◌, Text, Bool, leb, Option, none, some, List, [], ◌∷◌, ◌++◌, codes, text_eq, is_empty,
  if◌then◌else◌,
}
use wasm_host.Prelude.Exec.{
  Result, ok, err, bind, Exec, pure, throw, lift, gets, modify, throw_if, ◌>>=◌, ◌>>◌,
}
use wasm_host.Prelude.Dict.{Dict, get, has, set, delete}
use wasm_host.Auth.Values.{
  ErrorKind, auth_failure, auth_expired, auth_missing_login, auth_missing_token, auth_denied,
  cancelled, Token, SecretInput, typed, SecretRecord, normalize_secret_record, Scopes, Field,
  Account, Signal, running, nonempty_text, normalize_secret_ref, non_negative_integer,
  positive_integer, normalize_auth_bearer_token, normalize_account, normalize_scopes, decimal,
  pad_four, check_auth_signal,
}

pub data Status : Type 0 where
  pending authorized denied expired cancelled_login logged_out : Status

pub record Login : Type 0 where
  pub account : Option Account
  pub account_hint : Option Account
  pub completed_at : Option ℕ
  pub created_at : ℕ
  pub expires_at : ℕ
  pub interval_ms : ℕ
  pub login_id : Text
  pub scopes : List Text
  pub secret_ref : Text
  pub session_id : Option Text
  pub status : Status
  pub user_code : Text
  pub verification_uri : Text
  pub verification_uri_complete : Option Text

pub record Session : Type 0 where
  pub account : Account
  pub completed_at : ℕ
  pub logged_out_at : Option ℕ
  pub scopes : List Text
  pub secret_ref : Text
  pub session_id : Text
  pub status : Status

pub record Broker : Type 0 where
  pub secrets : Dict SecretRecord
  pub default_expires_in_ms : ℕ
  pub default_interval_ms : ℕ
  pub default_verification_uri : Text
  pub login_sequence : ℕ
  pub logins : Dict Login
  pub session_refs : Dict Text
  pub session_sequence : ℕ
  pub sessions : Dict Session
  pub readings : ℕ

abbrev pub Action : Type 0 → Type 0
Action A = Exec ErrorKind Broker A

-- The options of `startDeviceLogin`; a number is given as a value that may be no integer.
pub record StartOptions : Type 0 where
  pub login_id : Option Text
  pub secret_ref : Option Text
  pub user_code : Option Text
  pub expires_at : Option (Option ℕ)
  pub account_hint : Option (List (Text × Field))
  pub interval_ms : Option (Option ℕ)
  pub scopes : Scopes
  pub verification_uri : Option Text
  pub verification_uri_complete : Option Text

pub record CompleteOptions : Type 0 where
  pub token : Token
  pub session_id : Option Text
  pub account : List (Text × Field)

-- `a ?? b`
abbrev pub or_else {ℓ} : {A : Type ℓ} → Option A → A → A
or_else none b = b
or_else (some a) b = a

abbrev optional_account : Option (List (Text × Field)) → Option Account
optional_account none = none
optional_account (some entries) = some (normalize_account entries [])

abbrev optional_text : Option Text → Result ErrorKind (Option Text)
optional_text none = ok none
optional_text (some t) = bind (nonempty_text t) λ u. ok (some u)

abbrev pub put_login : Login → Broker → Broker
put_login l b = record b { logins = set l.login_id l b.logins }

unfoldable pub has_secret : Text → Broker → Result ErrorKind Bool
has_secret name b = bind (normalize_secret_ref name) λ ref. ok (has ref b.secrets)

unfoldable pub delete_secret : Text → Action Unit
delete_secret name = do
  ref ← lift (normalize_secret_ref name)
  modify (λ b. record b { secrets = delete ref b.secrets })

unfoldable pub set_secret : Text → SecretInput → Action Unit
set_secret name secret = do
  ref ← lift (normalize_secret_ref name)
  r ← lift (normalize_secret_record secret)
  modify (λ b. record b { secrets = set ref r b.secrets })

-- `getBearerToken` of the secret provider.
unfoldable pub provider_bearer_token : Text → Action Text
provider_bearer_token name = do
  ref ← lift (normalize_secret_ref name)
  b ← gets (λ b. b)
  elim (get ref b.secrets) [
    | none ↦ throw auth_failure
    | some r ↦ if text_eq r.kind (codes "bearer") then pure r.value else throw auth_failure
  ]

unfoldable pub session_by_secret_ref : Text → Broker → Result ErrorKind (Option Session)
session_by_secret_ref ref b = bind (normalize_secret_ref ref) λ name.
    elim (get name b.session_refs) [
      | none ↦ ok none
      | some id ↦ if is_empty id then ok none else ok (get id b.sessions)
    ]

unfoldable pub require_session : Text → Broker → Result ErrorKind Session
require_session id_or_ref b = bind (nonempty_text id_or_ref) λ key. elim (get key b.sessions) [
  | some session ↦ ok session
  | none ↦
      bind (session_by_secret_ref key b)
        λ found. elim found [ some session ↦ ok session | none ↦ err auth_missing_token ]
]

unfoldable pub require_login : Text → Broker → Result ErrorKind Login
require_login login_id b =
    bind (nonempty_text login_id)
      λ id. elim (get id b.logins) [ some l ↦ ok l | none ↦ err auth_missing_login ]

unfoldable pub update_expired_login : ℕ → Login → Login
update_expired_login now l = elim l.status [
  | pending ↦ if leb l.expires_at now then record l { status = expired } else l
  | _ ↦ l
]

-- The `switch` of `requirePendingLogin`.
unfoldable pub pending_or_error : Login → Result ErrorKind Login
pending_or_error l = elim l.status [
  | pending ↦ ok l
  | denied ↦ err auth_denied
  | expired ↦ err auth_expired
  | cancelled_login ↦ err cancelled
  | authorized ↦ err auth_failure
  | logged_out ↦ err auth_failure
]

-- The loop of `logout` over the logins.
unfoldable pub log_out_logins : Text → Dict Login → Dict Login
log_out_logins id [] = []
log_out_logins id ((k, l) ∷ d) =
    let rest = log_out_logins id d in
    (
      k,
      elim l.session_id [
        | none ↦ l
        | some s ↦ if text_eq s id then record l { status = logged_out } else l
      ],
    )
    ∷ rest

module _ (now : ℕ → Option ℕ) where
  unfoldable pub current_time : Action ℕ
  current_time = do
    b ← gets (λ b. b)
    modify (λ b. record b { readings = suc b.readings })
    lift (non_negative_integer (now b.readings))

  unfoldable pub start_device_login : StartOptions → Action Login
  start_device_login options = do
    created_at ← current_time
    b ← gets (λ b. b)
    let number = b.login_sequence + 1
    login_id ←
        lift (nonempty_text (or_else options.login_id (codes "device-login-" ++ decimal number)))
    throw_if (has login_id b.logins) auth_failure
    modify (λ b. record b { login_sequence = number })
    secret_ref ←
        lift (normalize_secret_ref (or_else options.secret_ref (codes "codex-model-" ++ login_id)))
    user_code ←
        lift
          (nonempty_text (or_else options.user_code (codes "CODEX-" ++ pad_four (decimal number))))
    expires_at ← lift (
        non_negative_integer
          (or_else options.expires_at (some (created_at + b.default_expires_in_ms))))
    throw_if (leb expires_at created_at) auth_expired
    interval_ms ← lift (positive_integer (or_else options.interval_ms (some b.default_interval_ms)))
    scopes ← lift (normalize_scopes options.scopes)
    verification_uri ←
        lift (nonempty_text (or_else options.verification_uri b.default_verification_uri))
    complete ← lift (optional_text options.verification_uri_complete)
    let login : Login = record {
      account = none;
      account_hint = optional_account options.account_hint;
      completed_at = none;
      created_at = created_at;
      expires_at = expires_at;
      interval_ms = interval_ms;
      login_id = login_id;
      scopes = scopes;
      secret_ref = secret_ref;
      session_id = none;
      status = pending;
      user_code = user_code;
      verification_uri = verification_uri;
      verification_uri_complete = complete;
    }
    modify (put_login login)
    pure login

  -- A login that is read again with the clock is written back with its new status.
  unfoldable pub refresh_login : Text → Action Login
  refresh_login login_id = do
    b ← gets (λ b. b)
    login ← lift (require_login login_id b)
    time ← current_time
    let fresh = update_expired_login time login
    modify (put_login fresh)
    pure fresh

  unfoldable pub poll_device_login : Text → Signal → Action Login
  poll_device_login login_id signal = do lift (check_auth_signal signal); refresh_login login_id

  unfoldable pub get_device_login_status : Text → Action Login
  get_device_login_status login_id = poll_device_login login_id running

  unfoldable pub require_pending_login : Text → Action Login
  require_pending_login login_id = do login ← refresh_login login_id; lift (pending_or_error login)

  unfoldable pub complete_device_login : Text → CompleteOptions → Action Login
  complete_device_login login_id options = do
    login ← require_pending_login login_id
    token ← lift (normalize_auth_bearer_token options.token)
    completed_at ← current_time
    b ← gets (λ b. b)
    let number = b.session_sequence + 1
    session_id ←
        lift
          (nonempty_text (or_else options.session_id (codes "device-session-" ++ decimal number)))
    throw_if (has session_id b.sessions) auth_failure
    modify (λ b. record b { session_sequence = number })
    let account = normalize_account options.account []
    set_secret login.secret_ref (typed (some (codes "bearer")) (Token.text token))
    let session : Session = record {
      account = account;
      completed_at = completed_at;
      logged_out_at = none;
      scopes = login.scopes;
      secret_ref = login.secret_ref;
      session_id = session_id;
      status = authorized;
    }
    let done = record login {
      account = some account;
      completed_at = some completed_at;
      session_id = some session_id;
      status = authorized;
    }
    modify (λ b. record b {
      sessions = set session_id session b.sessions;
      session_refs = set login.secret_ref session_id b.session_refs;
    })
    modify (put_login done)
    pure done

  unfoldable pub deny_device_login : Text → Action Login
  deny_device_login login_id = do
    login ← require_pending_login login_id
    let done = record login { status = denied }
    modify (put_login done)
    pure done

  unfoldable pub logout : Text → Action Session
  logout id_or_ref = do
    b ← gets (λ b. b)
    session ← lift (require_session id_or_ref b)
    delete_secret session.secret_ref
    time ← current_time
    let done = record session { logged_out_at = some time; status = logged_out }
    modify (λ b. record b {
      sessions = set session.session_id done b.sessions;
      logins = log_out_logins session.session_id b.logins;
    })
    pure done

  unfoldable pub cancel_device_login : Text → Action Login
  cancel_device_login login_id = do
    b ← gets (λ b. b)
    login ← lift (require_login login_id b)
    elim login.status [
      | authorized ↦ do
        logout (or_else login.session_id login.secret_ref)
        after ← gets (λ b. b)
        lift (require_login login_id after)
      | pending ↦ do
        let done = record login { status = cancelled_login }
        modify (put_login done)
        pure done
      | _ ↦ pure login
    ]

unfoldable pub get_session_status : Text → Action Session
get_session_status id_or_ref = do b ← gets (λ b. b); lift (require_session id_or_ref b)

-- `getBearerToken` of the broker: the session of the reference must be authorized.
unfoldable pub get_bearer_token : Text → Action Text
get_bearer_token secret_ref = do
  ref ← lift (normalize_secret_ref secret_ref)
  b ← gets (λ b. b)
  found ← lift (session_by_secret_ref ref b)
  here ← lift (has_secret ref b)
  elim found [
    | none ↦ throw auth_missing_token
    | some session ↦ elim session.status [
      | authorized ↦ if here then provider_bearer_token ref else throw auth_missing_token
      | _ ↦ throw auth_missing_token
    ]
  ]
