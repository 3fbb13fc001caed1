-- ===== src/Auth/Create.antt =====
-- The constructors of `MemorySecretProvider` and `FakeBrowserDeviceFlowAuthBroker`
-- (apps/web/src/secrets.js).
use wasm_host.Prelude.{ℕ, Text, Option, some, List, [], ◌∷◌, codes}
use wasm_host.Prelude.Exec.{Result, ok, bind}
use wasm_host.Prelude.Dict.{Dict, set}
use wasm_host.Auth.Values.{
  ErrorKind, SecretInput, SecretRecord, normalize_secret_record, normalize_secret_ref,
  nonempty_text, positive_integer,
}
use wasm_host.Auth.Broker.{Broker, or_else}

-- The loop of the secret provider's constructor
unfoldable pub load_secrets :
    List (Text × SecretInput) → Dict SecretRecord → Result ErrorKind (Dict SecretRecord)
load_secrets [] secrets = ok secrets
load_secrets ((name, secret) ∷ rest) secrets =
    bind (normalize_secret_ref name)
      λ ref. bind (normalize_secret_record secret) λ r. load_secrets rest (set ref r secrets)

-- The options of the broker's constructor, besides the clock
pub record BrokerOptions : Type 0 where
  pub secrets : List (Text × SecretInput)
  pub expires_in_ms : Option (Option ℕ)
  pub interval_ms : Option (Option ℕ)
  pub verification_uri : Option Text

unfoldable pub create_broker : BrokerOptions → Result ErrorKind Broker
create_broker options = bind (load_secrets options.secrets []) λ secrets.
    bind (positive_integer (or_else options.expires_in_ms (some 600000))) λ expires_in_ms.
      bind (positive_integer (or_else options.interval_ms (some 5000))) λ interval_ms.
        bind
          (nonempty_text
            (or_else options.verification_uri (codes "https://auth.example.test/device")))
          λ verification_uri. ok (record {
            secrets = secrets;
            default_expires_in_ms = expires_in_ms;
            default_interval_ms = interval_ms;
            default_verification_uri = verification_uri;
            login_sequence = 0;
            logins = [];
            session_refs = [];
            session_sequence = 0;
            sessions = [];
            readings = 0;
          })
