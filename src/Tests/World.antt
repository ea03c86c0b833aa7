-- ===== src/Tests/World.antt =====
-- A platform whose condition and finalizer functions do what those of apimachinery and
-- controller-runtime are documented to do, and an environment with one ready organization.
use invora_controller.Prelude.{
  ℕ, String, true, false, Option, none, some, List, [], ◌∷◌, ◌++◌, ◌==◌, if◌then◌else◌, contains,
  ◌≡◌, ◌≢◌, arith, eq_iff,
}
use invora_controller.Go
use invora_controller.Go.{Error, Result, ok, err, ℤ, pos}
use invora_controller.Api.{
  ObjectMeta, Condition, condition_true, BillingResourceStatus, Instance, Organization,
  finalizer_name,
}
use invora_controller.Cluster.{Platform, Env}
use invora_controller.Convert.{Floats}

abbrev pub find_condition : List Condition → String → Option Condition
find_condition [] t = none
find_condition (c ∷ cs) t = if c.type_name == t then some c else find_condition cs t

abbrev pub put_condition : List Condition → Condition → List Condition
put_condition [] c = c ∷ []
put_condition (d ∷ cs) c = if d.type_name == c.type_name then c ∷ cs else d ∷ put_condition cs c

abbrev without : List String → String → List String
without [] s = []
without (x ∷ xs) s = let rest = without xs s in if x == s then rest else x ∷ rest

abbrev pub plain_platform : Platform
plain_platform = record {
  find_status_condition = find_condition;
  set_status_condition = put_condition;
  contains_finalizer = λ m f. contains m.finalizers f;
  add_finalizer = λ m f. record m { finalizers = m.finalizers ++ f ∷ [] };
  remove_finalizer = λ m f. record m { finalizers = without m.finalizers f };
  parse_duration = λ s. none;
  url_parse = λ s. err (record { text = "no URL"; grpc_code = none; reason = Go.other });
}

abbrev pub named : String → ObjectMeta
named name = record {
  name = name;
  namespace = "billing";
  generation = 1;
  deletion_timestamp = none;
  finalizers = finalizer_name ∷ [];
  annotations = [];
  labels = [];
}

abbrev pub ready : BillingResourceStatus
ready = record {
  id = "";
  observed_generation = 1;
  conditions =
      record {
        type_name = "Ready";
        status = condition_true;
        observed_generation = 1;
        reason = "Ready";
        message = "";
        last_transition_time = some 1;
      }
      ∷ [];
  last_synced_at = none;
}

abbrev pub fresh : BillingResourceStatus
fresh = record { id = ""; observed_generation = 0; conditions = []; last_synced_at = none }

abbrev pub acme : Organization
acme = record {
  meta = named "acme";
  spec = record {
    instance_ref = record { name = "main"; namespace = "" };
    deletion_policy = "Delete";
    name = "Acme";
    email = "";
    timezone = "";
    document_numbering = "";
    parent_org_ref = none;
    enable_parent_dual_write = none;
    external_id = "0123abcd-0123-4567-89AB-0123456789ab";
  };
  status = record {
    base = ready;
    organization_id = "org-1";
    parent_org_ref = none;
    parent_customer_id = none;
  };
}

abbrev pub main_instance : Instance
main_instance = record {
  meta = named "main";
  spec = record {
    gateway_url = "gateway:443";
    insecure = false;
    token_ref = record { name = "token"; namespace = ""; key = "key" };
  };
  status = record { base = ready; last_connected_at = none };
}

-- Every write is stored as it is sent.
abbrev pub calm_env : {O Q : Type 0} → O → Env O Q
calm_env o = record {
  platform = plain_platform;
  now = λ l. 7;
  get_own = λ l n. ok o;
  get_instance = λ l n. ok main_instance;
  get_organization = λ l n. ok acme;
  get_secret = λ l n. ok (record { entries = ("key", "secret-token") ∷ [] });
  update = λ l o'. ok o';
  update_status = λ l o'. ok o';
  new_client = λ l t tls. ok (record { target = t; tls = tls });
}

abbrev pub unavailable : Error
unavailable = record { text = "unavailable"; grpc_code = some 14; reason = Go.other }

-- Numbers for floats.
abbrev pub whole : Floats ℕ
whole = record {
  parse_float = λ s. (0, true);
  to_int64 = λ n. pos n;
  to_int32 = λ n. pos n;
  of_int64 = λ z. 0;
  sub = λ a b. 0;
  times_billion = λ a. a;
  round = λ a. a;
  zero_float = 0;
}

pub text_differs : (s t : String) → (s == t) ≡ false → s ≢ t
text_differs s t h = ground (arith, eq_iff s t)
