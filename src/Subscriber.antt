-- ===== src/Subscriber.antt =====
-- internal/controller/zitadelorgevent_subscriber.go: the subscriber that turns the org events of
-- Zitadel into InvoraBillingOrganization objects. The state S is the API server and Zitadel; every
-- call may change it. Logging is left out.
pub mod Handlers
pub mod Poll
pub mod Progress
pub mod Cursor
pub mod Live
pub mod Directory
pub mod Mirror
pub mod Replay
pub mod Redelivery
pub mod Follow
pub mod Polls
pub mod CatchUp
pub mod Token
pub mod Start
use invora_controller.Prelude.{
  ℕ, ◌^◌, String, ◌<>◌, Bool, true, false, Option, none, some, List, [], ◌∷◌, ◌==◌, ◌&&◌, ◌||◌, not,
  if◌then◌else◌, leb, ltb, eqb, lookup, trim_space,
}
use invora_controller.Go.{
  ℤ, Error, errorf, wrap, quoted, is_api_not_found, is_api_already_exists, Result, ok, err, M,
  ◌>>=◌, ◌>>◌, pure,
}
use invora_controller.Api.{ObjectMeta, NamespacedName, ResourceRef, Organization, OrganizationSpec}

-- corev1.ConfigMap; a nil Data map is an empty one.
pub record ConfigMap : Type 0 where
  pub name : String
  pub namespace : String
  pub labels : List (String × String)
  pub entries : List (String × String)

-- An event; a value of its payload that is not a string is none.
pub record Event : Type 0 where
  pub sequence : ℕ
  pub event_type : String
  pub aggregate_id : String
  pub payload : List (String × Option String)

pub record ListEventsRequest : Type 0 where
  pub sequence : ℕ
  pub limit : ℕ
  pub asc : Bool
  pub event_types : List String
  pub aggregate_types : List String

-- An object for Create, of which the API server fills in the rest.
pub record NewOrganization : Type 0 where
  pub name : String
  pub namespace : String
  pub labels : List (String × String)
  pub spec : OrganizationSpec

-- The API server and Zitadel.
pub record Server (S : Type 0) : Type 0 where
  pub get_organization : NamespacedName → M S (Result Organization)
  pub create_organization : NewOrganization → M S (Option Error)
  pub update_organization : Organization → M S (Option Error)
  pub delete_organization : Organization → M S (Option Error)
  pub get_config_map : NamespacedName → M S (Result ConfigMap)
  pub create_config_map : ConfigMap → M S (Option Error)
  pub update_config_map : ConfigMap → M S (Option Error)
  pub list_events : ListEventsRequest → M S (Result (List Event))

-- The functions of strings, strconv and os that are called.
pub record Lib : Type 0 where
  pub to_lower : String → String
  pub format_uint : ℕ → String
  pub parse_uint : String → Result ℕ
  pub pod_namespace : String

pub record SubscriberConfig : Type 0 where
  pub zitadel_domain : String
  pub zitadel_port : String
  pub zitadel_insecure : Bool
  pub system_api_user : String
  pub system_api_private_key : List ℕ
  pub access_token : String
  pub instance_name : String
  pub instance_namespace : String
  pub tenant_namespace : String
  pub state_namespace : String
  pub interval : ℤ
  pub batch : ℕ

abbrev pub subscriber_state_config_map_name : String
subscriber_state_config_map_name = "zitadel-subscriber-state"

abbrev pub subscriber_state_config_map_key : String
subscriber_state_config_map_key = "sequence"

abbrev pub default_subscriber_batch : ℕ
default_subscriber_batch = 100

unfoldable pub validate_config : SubscriberConfig → Option Error
validate_config c =
    if c.zitadel_domain == ""
    then some (errorf "ZitadelDomain is required")
    else if c.instance_name == ""
    then some (errorf "InvoraBillingInstanceName is required")
    else if c.instance_namespace == ""
    then some (errorf "InvoraBillingInstanceNamespace is required")
    else if c.tenant_namespace == ""
    then some (errorf "TenantNamespace is required")
    else if c.access_token == ""
        && (c.system_api_user == "" || elim c.system_api_private_key [ [] ↦ true | _ ∷ _ ↦ false ])
    then some (errorf "either AccessToken or (SystemAPIUser + SystemAPIPrivateKey) is required")
    else none

unfoldable pub string_from_payload : List (String × Option String) → String → String
string_from_payload payload key = elim (lookup key payload) [
  | none ↦ ""
  | some none ↦ ""
  | some (some s) ↦ s
]

-- A missing key and an empty value are the same to readState.
abbrev pub stored : ConfigMap → String
stored cm = elim (lookup subscriber_state_config_map_key cm.entries) [ none ↦ "" | some s ↦ s ]

-- m[k] = v
abbrev pub insert : String → String → List (String × String) → List (String × String)
insert k v [] = (k, v) ∷ []
insert k v ((j, w) ∷ m) = let rest = insert k v m in if j == k then (j, v) ∷ m else (j, w) ∷ rest

-- An error of a call, in the words of the caller.
abbrev pub wrapped_error : String → Option Error → Option Error
wrapped_error s none = none
wrapped_error s (some e) = some (wrap s e)

-- `if seq > highest { highest = seq }`
unfoldable pub advance : ℕ → ℕ → ℕ
advance highest seq = if ltb highest seq then seq else highest
