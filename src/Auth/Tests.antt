-- ===== src/Auth/Tests.antt =====
-- Runs of the auth broker.
use wasm_host.Prelude.{
  ℕ, ◌+◌, Text, true, false, ◌≡◌, refl, Option, none, some, List, [], ◌∷◌, codes, trim,
}
use wasm_host.Prelude.Exec.{Result, ok, err, ◌>>=◌}
use wasm_host.Prelude.Dict.{get, set, delete}
use wasm_host.Auth.Values.{
  ErrorKind, auth_missing_token, text, Field, scalar, nonempty_text, normalize_scopes,
  positive_integer, non_negative_integer, is_bearer, normalize_auth_bearer_token,
  normalize_bearer_secret_value, to_lower, contains, is_sensitive_account_field, put_own, put_field,
  normalize_secret_record, nonempty_texts, array, plain, normalize_account, decimal_from, decimal,
  check_auth_signal,
}
use wasm_host.Auth.Broker.{
  authorized, denied, Login, Session, Broker, StartOptions, CompleteOptions, has_secret,
  delete_secret, set_secret, provider_bearer_token, session_by_secret_ref, require_session,
  require_login, update_expired_login, pending_or_error, log_out_logins, current_time,
  start_device_login, refresh_login, poll_device_login, require_pending_login,
  complete_device_login, deny_device_login, logout, cancel_device_login, get_bearer_token,
}
use wasm_host.Auth.Create.{BrokerOptions, create_broker}
use wasm_host.Auth.Commands.{
  Command, start_login, complete_login, deny_login, execute, run, run-Good,
}
use wasm_host.Auth.Logins.{IsSound, IsRef}
use wasm_host.Auth.Logins.Methods.{Good}
use wasm_host.Auth.Tokens.{get_bearer_token-authorized, logout-revokes}
use wasm_host.Auth.Completion.{complete-serves, normalize_account-private}
use wasm_host.Auth.Resolve.{
  Provider, by_lookup, looked_up, resolve_bearer_secret, resolve_bearer_secret-is_bearer,
}

program : Unit {0}
unfolding ◌>>=◌ trim get set delete nonempty_text nonempty_texts normalize_scopes put_own
    normalize_secret_record positive_integer non_negative_integer is_bearer
    normalize_auth_bearer_token normalize_bearer_secret_value to_lower contains
    is_sensitive_account_field put_field normalize_account decimal_from decimal check_auth_signal
    has_secret delete_secret set_secret provider_bearer_token session_by_secret_ref require_session
    require_login update_expired_login pending_or_error log_out_logins current_time
    start_device_login refresh_login poll_device_login require_pending_login complete_device_login
    deny_device_login logout cancel_device_login get_bearer_token execute run looked_up
    resolve_bearer_secret
program = tt

abbrev clock : ℕ → Option ℕ
clock n = some (1000 + n)

abbrev fresh : Broker
fresh = record {
  secrets = [];
  default_expires_in_ms = 600000;
  default_interval_ms = 5000;
  default_verification_uri = codes "https://auth.example.test/device";
  login_sequence = 0;
  logins = [];
  session_refs = [];
  session_sequence = 0;
  sessions = [];
  readings = 0;
}

fresh-IsSound : IsSound fresh
unfolding program
fresh-IsSound = record {
  login_named = λ k l h. cc;
  login_session = λ k l h. cc;
  login_ref = λ k l h. cc;
  session_named = λ k s h. cc;
  session_ref = λ k s h. cc;
}

abbrev by_default : StartOptions
by_default = record {
  login_id = none;
  secret_ref = some (codes " model ");
  user_code = none;
  expires_at = none;
  account_hint = none;
  interval_ms = none;
  scopes = array (codes "read" ∷ []);
  verification_uri = none;
  verification_uri_complete = none;
}

abbrev granted : CompleteOptions
granted = record { token = text (codes "t-1"); session_id = none; account = [] }

abbrev first_login : Text
first_login = codes "device-login-1"

abbrev script : List Command
script =
    start_login by_default
    ∷ start_login by_default
    ∷ deny_login (codes "device-login-2")
    ∷ complete_login first_login granted
    ∷ []

run-Good_example : Good fresh (run clock script fresh)
run-Good_example = run-Good clock script fresh fresh-IsSound

-- The options of a broker with one secret
abbrev options : BrokerOptions
options = record {
  secrets = (codes " model ", plain (codes "t-0")) ∷ [];
  expires_in_ms = none;
  interval_ms = none;
  verification_uri = none;
}

abbrev broker_of : Result ErrorKind Broker → Broker
broker_of (ok b) = b
broker_of (err e) = fresh

abbrev created : Broker
created = broker_of (create_broker options)

abbrev started : Broker
started = run clock (start_login by_default ∷ []) fresh

abbrev logged_in : Broker
logged_in = run clock (complete_login first_login granted ∷ []) started

logged_in-IsSound : IsSound logged_in
logged_in-IsSound = (run-Good clock _ started (run-Good clock _ fresh fresh-IsSound).sound).sound

abbrev login_of : Result ErrorKind Login → Login
login_of (ok l) = l
login_of (err e) = record {
  account = none;
  account_hint = none;
  completed_at = none;
  created_at = 0;
  expires_at = 0;
  interval_ms = 0;
  login_id = [];
  scopes = [];
  secret_ref = [];
  session_id = none;
  status = denied;
  user_code = [];
  verification_uri = [];
  verification_uri_complete = none;
}

abbrev session_of : Result ErrorKind Session → Session
session_of (ok s) = s
session_of (err e) = record {
  account = [];
  completed_at = 0;
  logged_out_at = none;
  scopes = [];
  secret_ref = [];
  session_id = [];
  status = denied;
}

completed :
    (complete_device_login clock first_login granted started).0
    ≡ ok (login_of (complete_device_login clock first_login granted started).0)
unfolding program
completed = refl

complete-serves_example :
    (t : Text) × (normalize_auth_bearer_token granted.token ≡ ok t)
    × ((get_bearer_token
          (login_of (complete_device_login clock first_login granted started).0).secret_ref
          (complete_device_login clock first_login granted started).1).0
        ≡ ok t)
complete-serves_example =
    complete-serves clock first_login granted started
      (login_of (complete_device_login clock first_login granted started).0)
      (run-Good clock _ fresh fresh-IsSound).sound completed

left :
    (logout clock (codes "model") logged_in).0
    ≡ ok (session_of (logout clock (codes "model") logged_in).0)
unfolding program
left = refl

logout-revokes_example :
    (get_bearer_token
      (session_of (logout clock (codes "model") logged_in).0).secret_ref
      (logout clock (codes "model") logged_in).1).0
    ≡ err auth_missing_token
logout-revokes_example =
    logout-revokes clock (codes "model") logged_in
      (session_of (logout clock (codes "model") logged_in).0) logged_in-IsSound left

model-IsRef : IsRef (codes "model")
unfolding program
model-IsRef = (refl, refl)

token_there : (get_bearer_token (codes "model") logged_in).0 ≡ ok (codes "t-1")
unfolding program
token_there = refl

get_bearer_token-authorized_example :
    (s : Session) × (session_by_secret_ref (codes "model") logged_in ≡ ok (some s))
    × (s.status ≡ authorized)
    × (get (codes "model") logged_in.secrets
        ≡ some (record { kind = codes "bearer"; value = codes "t-1" }))
get_bearer_token-authorized_example =
    get_bearer_token-authorized (codes "model") logged_in (codes "t-1") model-IsRef token_there

abbrev entries : List (Text × Field)
entries = (codes "Access-Token", scalar (codes "x")) ∷ (codes "plan", scalar (codes "pro")) ∷ []

plan_kept : get (codes "plan") (normalize_account entries []) ≡ some (some (codes "pro"))
unfolding program
plan_kept = refl

normalize_account-private_example : is_sensitive_account_field (codes "plan") ≡ false
normalize_account-private_example =
    normalize_account-private entries (codes "plan") (some (codes "pro")) plan_kept

abbrev provider : Provider
provider = by_lookup (λ name. ok (text name))

resolved : resolve_bearer_secret provider (some (codes " k ")) ≡ ok (some (codes "k"))
unfolding program
resolved = refl

resolve_bearer_secret-is_bearer_example : is_bearer (codes "k") ≡ true
resolve_bearer_secret-is_bearer_example =
    resolve_bearer_secret-is_bearer provider (some (codes " k ")) (codes "k") resolved
