-- ===== src/Tests/Subscriber.antt =====
-- The theorems on the subscriber, at a server that holds one ConfigMap and no organization.
use invora_controller.Prelude.{
  false, ℕ, ◌≡◌, ◌≤◌, refl, Option, none, some, List, [], ◌∷◌, ◌==◌, ◌&&◌, eqb, eq_iff, eq_refl,
  if◌then◌else◌, arith, trim_space,
}
use invora_controller.Go
use invora_controller.Go.{pos, Error, Result, ok, err, errorf}
use invora_controller.Api.{NamespacedName}
use invora_controller.Subscriber.{ConfigMap, Event, Server, Lib, SubscriberConfig}
use invora_controller.Subscriber.Poll.{read_state, write_state, write_state_if_advanced, poll}
use invora_controller.Subscriber.Progress.{Progress}
use invora_controller.Subscriber.Token.{Crypto, SystemTokenSource, token, new_system_token_source}
use invora_controller.Subscriber.Start.{AdminOptions}
use invora_controller.Subscriber.Cursor.{StoresConfigMaps, poll-Progress, read_state-write_state}
use invora_controller.Tests.World.{text_differs}

abbrev pub missing : Error
missing = record { text = "not found"; grpc_code = none; reason = Go.not_found }

-- Sequences below three, in decimal.
abbrev pub small : Lib
small = record {
  to_lower = λ s. s;
  format_uint = λ n. if eqb n 0 then "0" else if eqb n 1 then "1" else "2";
  parse_uint = λ s.
      if s == "0" then ok 0 else if s == "1" then ok 1 else if s == "2" then ok 2 else err missing;
  pod_namespace = "";
}

abbrev batch_of_two : List Event
batch_of_two =
    record { sequence = 1; event_type = "org.removed"; aggregate_id = "a"; payload = [] }
    ∷ record { sequence = 2; event_type = "org.changed"; aggregate_id = "b"; payload = [] }
    ∷ []

abbrev pub look : NamespacedName → Option ConfigMap → Result ConfigMap
look n none = err missing
look n (some cm) = if cm.namespace == n.namespace && cm.name == n.name then ok cm else err missing

pub look-name :
    (n : NamespacedName) (s : Option ConfigMap) (cm : ConfigMap)
    → look n s ≡ ok cm
    → (cm.namespace ≡ n.namespace) × (cm.name ≡ n.name)
look-name n none cm h = absurd (ground arith)
look-name n (some held) cm h =
    (ground (arith, eq_iff held.namespace n.namespace), ground (arith, eq_iff held.name n.name))

-- The state is the ConfigMap that was written last.
abbrev one_map : Server (Option ConfigMap)
one_map = record {
  get_organization = λ n s. (err missing, s);
  create_organization = λ o s. (some missing, s);
  update_organization = λ o s. (some missing, s);
  delete_organization = λ o s. (some missing, s);
  get_config_map = λ n s. (look n s, s);
  create_config_map = λ cm s. (none, some cm);
  update_config_map = λ cm s. (none, some cm);
  list_events = λ r s. (ok batch_of_two, s);
}

abbrev pub settings : SubscriberConfig
settings = record {
  zitadel_domain = "auth.example.org";
  zitadel_port = "";
  zitadel_insecure = false;
  system_api_user = "";
  system_api_private_key = [];
  access_token = "t";
  instance_name = "main";
  instance_namespace = "billing";
  tenant_namespace = "tenants";
  state_namespace = "billing";
  interval = pos 0;
  batch = 0;
}

abbrev empty : Option ConfigMap
empty = none

one_map-StoresConfigMaps : StoresConfigMaps small one_map settings
one_map-StoresConfigMaps = record {
  created = λ cm s h. ground (arith, eq_refl cm.namespace, eq_refl cm.name);
  updated = λ cm s h. ground (arith, eq_refl cm.namespace, eq_refl cm.name);
  same_name = λ n cm s h. look-name n s cm h;
}

read_state-write_state_example :
    (read_state small one_map settings (write_state small one_map settings 2 empty).1).0 ≡ ok 2
unfolding write_state trim_space
read_state-write_state_example =
    read_state-write_state small one_map settings one_map-StoresConfigMaps 2
      (text_differs "2" "" refl) refl empty refl

poll-Progress_example :
    (highest : ℕ) × (final : Option ConfigMap) × Progress small one_map settings 0 highest
      batch_of_two empty final
    × (0 ≤ highest)
    × (poll small one_map settings empty
        ≡ write_state_if_advanced small one_map settings 0 highest final)
unfolding read_state
poll-Progress_example =
    poll-Progress small one_map settings empty 0 batch_of_two refl refl
      ((omega arith, tt), (tt, tt))

-- Every key is the number 7, and a signature is the issuer.
abbrev pub signs : Crypto ℕ
signs = record {
  pem_decode = λ key. some (record { block_type = "RSA PRIVATE KEY"; bytes = key });
  parse_pkcs1 = λ key. ok 7;
  parse_pkcs8 = λ key. ok none;
  new_signer = λ key. none;
  numeric_date = λ t. t;
  sign = λ key claims. ok claims.issuer;
}

abbrev pub connects : AdminOptions ℕ → Option Error
connects options = none

-- With no audience the tokens are for the user, and a token expires an hour after its time.
abbrev source : SystemTokenSource ℕ
source = record { signer = 7; issuer = "user"; aud = "user"; exp_time = 3_600_000_000_000 }

token_run :
    (new_system_token_source signs [] "user" "" ≡ ok source)
    × (token signs source 5
        ≡ ok (record { access_token = "user"; token_type = "Bearer"; expiry = 3_600_000_000_005 }))
unfolding new_system_token_source token
token_run = (refl, refl)
