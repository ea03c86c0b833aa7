-- ===== src/Process.antt =====
-- cmd/main.go: what the process reads from its environment.
pub mod Namespaces
pub mod Main
use invora_controller.Prelude.{
  ℕ, String, ◌<>◌, Bool, Option, none, some, List, [], ◌∷◌, ◌==◌, not, eqb, if◌then◌else◌,
  trim_space, codes,
}
use Prim.Native.Char.{Char, code}
use invora_controller.Go.{Error, Result, ok, err, ℤ, pos}
use invora_controller.Subscriber.{SubscriberConfig}

abbrev pub put_first : Char → List String → List String
put_first c [] = String.◌∷◌ c "" ∷ []
put_first c (part ∷ parts) = String.◌∷◌ c part ∷ parts

-- strings.Split with the separator ","
unfoldable pub split_commas : String → List String
split_commas String.[] = "" ∷ []
split_commas (String.◌∷◌ c s) =
    let rest = split_commas s in if eqb (code c) b',' then "" ∷ rest else put_first c rest

-- The loop that trims each part and drops the empty ones.
unfoldable pub trimmed_parts : List String → List String
trimmed_parts [] = []
trimmed_parts (part ∷ parts) =
    let name = trim_space part in
    let rest = trimmed_parts parts in if not (name == "") then name ∷ rest else rest

unfoldable pub split_namespaces : String → List String
unfolding split_commas trimmed_parts
split_namespaces v = if v == "" then [] else trimmed_parts (split_commas v)

-- The environment of the process: os.Getenv and os.ReadFile, and the library functions
-- time.ParseDuration and strings.EqualFold.
pub record Os : Type 0 where
  pub getenv : String → String
  pub read_file : String → Result (List ℕ)
  pub parse_duration : String → Option ℤ
  pub equal_fold : String → String → Bool

module _ (os : Os) where
  unfoldable pub tenant_namespace_from_env : String
  tenant_namespace_from_env =
      if not (os.getenv "TENANT_NAMESPACE" == "")
      then os.getenv "TENANT_NAMESPACE"
      else if not (os.getenv "INVORA_ENV" == "")
      then "invora-" <> os.getenv "INVORA_ENV"
      else ""

  unfoldable pub poll_interval_from_env : ℤ
  poll_interval_from_env =
      let v = os.getenv "ZITADEL_SUBSCRIBER_INTERVAL" in
      if v == "" then pos 0 else elim (os.parse_duration v) [ some d ↦ d | none ↦ pos 0 ]

  unfoldable pub config_with_key : List ℕ → SubscriberConfig
  unfolding tenant_namespace_from_env poll_interval_from_env
  config_with_key key = record {
    zitadel_domain = os.getenv "ZITADEL_DOMAIN";
    zitadel_port = os.getenv "ZITADEL_PORT";
    zitadel_insecure = os.equal_fold (os.getenv "ZITADEL_INSECURE") "true";
    system_api_user = os.getenv "ZITADEL_SYSTEM_API_USER";
    system_api_private_key = key;
    access_token = os.getenv "ZITADEL_ACCESS_TOKEN";
    instance_name = os.getenv "BILLING_INSTANCE_NAME";
    instance_namespace = os.getenv "BILLING_INSTANCE_NAMESPACE";
    tenant_namespace = tenant_namespace_from_env;
    state_namespace = os.getenv "POD_NAMESPACE";
    interval = poll_interval_from_env;
    batch = 0;
  }

  -- setupZitadelSubscriber up to the registration: the configuration, or the error that stops the
  -- process.
  unfoldable pub subscriber_config : Result SubscriberConfig
  unfolding config_with_key
  subscriber_config =
      let path = os.getenv "ZITADEL_SYSTEM_API_KEY_FILE" in
      if path == ""
      then ok (config_with_key [])
      else elim (os.read_file path) [ err e ↦ err e | ok key ↦ ok (config_with_key key) ]

-- SetupWithManager of the subscriber: whether it is added to the manager.
abbrev pub is_registered : SubscriberConfig → Bool
is_registered c = not (c.zitadel_domain == "")
