-- ===== src/Auth/Commands.antt =====
-- The calls of the broker's methods, in any order (apps/web/src/secrets.js).
use wasm_host.Prelude.{ℕ, Text, true, ◌≡◌, refl, ap, ◌∙◌, Option, List, [], ◌∷◌, arith}
use wasm_host.Prelude.Exec.{
  Result, After, After-pure, After-throw, After-lift, After-gets, After-modify, After-lift_last,
  After-call, After-if, After-option,
}
use wasm_host.Prelude.Dict.{get}
use wasm_host.Auth.Values.{
  ErrorKind, Signal, running, SecretInput, auth_failure, auth_missing_token, normalize_secret_ref,
}
use wasm_host.Auth.Broker.{
  Status, pending, authorized, denied, expired, cancelled_login, logged_out, Broker, StartOptions,
  CompleteOptions, start_device_login, poll_device_login, get_device_login_status,
  complete_device_login, deny_device_login, cancel_device_login, logout, get_bearer_token,
  set_secret, delete_secret, require_login, session_by_secret_ref, has_secret,
  provider_bearer_token,
}
use wasm_host.Auth.Logins.{IsSound, Follow, follows, put_login-Follow, put_login-IsSound}
use wasm_host.Auth.Logins.Methods.{
  After-status, Good, Good-same, start-Good, poll-Good, require_login-get,
}
use wasm_host.Auth.Logins.Ends.{
  deny-Good, complete-Good, logout-Good, set_secret-Same, delete_secret-Same, pending-Kept,
  pending_session,
}

pub data Command : Type 0 where
  start_login : StartOptions → Command
  poll_login : Text → Signal → Command
  login_status : Text → Command
  complete_login : Text → CompleteOptions → Command
  deny_login : Text → Command
  cancel_login : Text → Command
  log_out : Text → Command
  bearer_token : Text → Command
  put_secret : Text → SecretInput → Command
  drop_secret : Text → Command

module _ (now : ℕ → Option ℕ) where
  unfoldable pub execute : Command → Broker → Broker
  execute (start_login o) b = (start_device_login now o b).1
  execute (poll_login id s) b = (poll_device_login now id s b).1
  execute (login_status id) b = (get_device_login_status now id b).1
  execute (complete_login id o) b = (complete_device_login now id o b).1
  execute (deny_login id) b = (deny_device_login now id b).1
  execute (cancel_login id) b = (cancel_device_login now id b).1
  execute (log_out id) b = (logout now id b).1
  execute (bearer_token ref) b = (get_bearer_token ref b).1
  execute (put_secret ref r) b = (set_secret ref r b).1
  execute (drop_secret ref) b = (delete_secret ref b).1

  unfoldable pub run : List Command → Broker → Broker
  run [] b = b
  run (c ∷ cs) b = run cs (execute c b)

follows_trans : (s t u : Status) → follows s t ≡ true → follows t u ≡ true → follows s u ≡ true
follows_trans pending t u p q = ground arith
follows_trans authorized t u p q = ground arith
follows_trans denied t u p q = ground arith
follows_trans expired t u p q = ground arith
follows_trans cancelled_login t u p q = ground arith
follows_trans logged_out t u p q = ground arith

Follow-trans : {b c d : Broker} → Follow b c → Follow c d → Follow b d
Follow-trans f g = record {
  at = λ k l h.
      let (m, p, x) = f.at k l h in
      let (n, q, y) = g.at k m p in
      (
        n,
        q,
        record {
          status = follows_trans l.status m.status n.status x.status y.status;
          login_id = y.login_id ∙ x.login_id;
          secret_ref = y.secret_ref ∙ x.secret_ref;
          created_at = y.created_at ∙ x.created_at;
          expires_at = y.expires_at ∙ x.expires_at;
        },
      );
}

-- Asking for a token changes nothing.
abbrev Unchanged : {A : Type 0} → Broker → Result ErrorKind A → Broker → Type 0
Unchanged b r c = c ≡ b

provider-Unchanged : (ref : Text) (b : Broker) → After (Unchanged b) (provider_bearer_token ref) b
unfolding provider_bearer_token
provider-Unchanged ref b =
    After-lift (normalize_secret_ref ref) _ b (λ _ _. refl)
      λ name _. After-gets _ _ b (
        After-option (get name b.secrets) _ _ b (λ _. After-throw auth_failure b refl)
          λ r _.
            After-if _ _ _ b (λ _. After-pure r.value b refl)
              (λ _. After-throw auth_failure b refl))

pub get_bearer_token-Unchanged :
    (ref : Text) (b : Broker) → After (Unchanged b) (get_bearer_token ref) b
unfolding get_bearer_token
get_bearer_token-Unchanged ref b =
    let refused = After-throw {Q = Unchanged b} auth_missing_token b refl in
    After-lift (normalize_secret_ref ref) _ b (λ _ _. refl)
      λ name _. After-gets _ _ b (
        After-lift (session_by_secret_ref name b) _ b (λ _ _. refl)
          λ found _.
            After-lift (has_secret name b) _ b (λ _ _. refl)
              λ here _.
                After-option found _ _ b (λ _. refused)
                  λ session _.
                    After-status session.status _ _ _ b
                      (λ _. After-if here _ _ b (λ _. provider-Unchanged name b) (λ _. refused))
                      (λ _. refused) refused)

module _ (now : ℕ → Option ℕ) where
  cancel-Good :
      (id : Text) (b : Broker) → IsSound b → After (λ _. Good b) (cancel_device_login now id) b
  unfolding cancel_device_login
  cancel-Good id b s = After-gets _ _ b (
      After-lift (require_login id b) _ b (λ _ _. Good-same refl refl s)
        λ l found.
          let there = require_login-get now id b l s found in
          After-status l.status _ _ _ b
            (λ _.
              After-call _ _ _ b (logout-Good now _ b s) (λ e c g. g)
                λ r c g. After-gets _ _ c (After-lift_last _ c (λ _ _. g) (λ _ _. g)))
            (λ p. After-modify _ _ b (
              After-pure _ _ (record {
                sound =
                    put_login-IsSound b _ s
                      (pending_session l cancelled_login p (s.login_session _ l there))
                      (s.login_ref _ l there);
                follow = put_login-Follow b l _ there (pending-Kept l cancelled_login p refl);
              })))
            (After-pure l b (Good-same refl refl s)))

  status-Good : (id : Text) (b : Broker) → IsSound b → Good b (get_device_login_status now id b).1
  unfolding get_device_login_status
  status-Good id b s = (poll-Good now id running b s).ends

  execute-Good : (c : Command) (b : Broker) → IsSound b → Good b (execute now c b)
  unfolding execute
  execute-Good (start_login o) b s = (start-Good now o b s).ends
  execute-Good (poll_login id t) b s = (poll-Good now id t b s).ends
  execute-Good (login_status id) b s = status-Good id b s
  execute-Good (complete_login id o) b s = (complete-Good now id o b s).ends
  execute-Good (deny_login id) b s = (deny-Good now id b s).ends
  execute-Good (cancel_login id) b s = (cancel-Good id b s).ends
  execute-Good (log_out id) b s = (logout-Good now id b s).ends
  execute-Good (bearer_token ref) b s =
      let e = (get_bearer_token-Unchanged ref b).ends in
      Good-same (ap (λ x. x.logins) e) (ap (λ x. x.sessions) e) s
  execute-Good (put_secret ref r) b s =
      let (x, y) = (set_secret-Same ref r b).ends in Good-same x y s
  execute-Good (drop_secret ref) b s =
      let (x, y) = (delete_secret-Same ref b).ends in Good-same x y s

  -- After any calls of the broker's methods, and any writes to its secrets, on a broker whose
  -- maps are consistent, the maps are consistent, and every login is still in the map under its id
  -- with its secret reference and its times, where a login that was authorized is authorized or
  -- logged out, and one that was denied, expired, cancelled or logged out has the same status.
  pub run-Good : (cs : List Command) (b : Broker) → IsSound b → Good b (run now cs b)
  unfolding run
  run-Good [] b s = Good-same refl refl s
  run-Good (c ∷ cs) b s =
      let first = execute-Good c b s in
      let rest = run-Good cs (execute now c b) first.sound in
      record { sound = rest.sound; follow = Follow-trans first.follow rest.follow }
