-- ===== src/Tests/Mirrors.antt =====
-- The theorems on the organizations that the subscriber keeps, at a server that is a map of them.
use invora_controller.Prelude.{◌≡◌, refl, Option, none, some, List, [], ◌∷◌}
use invora_controller.Go.{Result, ok, err}
use invora_controller.Api.{NamespacedName, Organization, OrganizationSpec}
use invora_controller.Subscriber.{Event, Server}
use invora_controller.Subscriber.Poll.{apply_events}
use invora_controller.Subscriber.Directory.{Tenants, put, KeepsOrganizations}
use invora_controller.Subscriber.Replay.{latest, replay, apply_events-replay}
use invora_controller.Subscriber.Redelivery.{apply_events-redelivered}
use invora_controller.Tests.Subscriber.{missing, small, settings}
use invora_controller.Tests.World.{acme}

abbrev pub org_named : NamespacedName → OrganizationSpec → Organization
org_named n spec = record {
  meta = record (acme.meta) { namespace = n.namespace; name = n.name };
  spec = spec;
  status = acme.status;
}

abbrev pub answer : NamespacedName → Option OrganizationSpec → Result Organization
answer n none = err missing
answer n (some spec) = ok (org_named n spec)

-- The state is the organizations of the tenant namespace.
abbrev directory : Server Tenants
directory = record {
  get_organization = λ n s. (answer n (s n.name), s);
  create_organization = λ o s. (none, put o.name (some o.spec) s);
  update_organization = λ o s. (none, put o.meta.name (some o.spec) s);
  delete_organization = λ o s. (none, put o.meta.name none s);
  get_config_map = λ n s. (err missing, s);
  create_config_map = λ cm s. (none, s);
  update_config_map = λ cm s. (none, s);
  list_events = λ r s. (ok [], s);
}

directory-KeepsOrganizations : KeepsOrganizations directory "tenants"
directory-KeepsOrganizations = record {
  tenants = λ s. s;
  finds = λ n s spec h.
      (org_named (record { namespace = "tenants"; name = n }) spec, rw h refl, refl, refl, refl);
  misses = λ n s h. (missing, rw h refl, refl);
  gets = λ n s. refl;
  creates = λ o s ns h. (refl, refl);
  updates = λ o s spec ns h. (refl, refl);
  deletes = λ o s spec ns h. (refl, refl);
}

abbrev pub no_tenants : Tenants
no_tenants n = none

abbrev arrivals : List Event
arrivals =
    record {
      sequence = 1;
      event_type = "org.added";
      aggregate_id = "a";
      payload = ("name", some "Acme") ∷ [];
    }
    ∷ record {
      sequence = 2;
      event_type = "org.changed";
      aggregate_id = "a";
      payload = ("name", some "Acme Ltd") ∷ [];
    }
    ∷ record { sequence = 3; event_type = "org.removed"; aggregate_id = "b"; payload = [] }
    ∷ []

apply_events-replay_example :
    ((apply_events small directory settings 0 0 arrivals no_tenants).0 ≡ latest 0 0 arrivals)
    × ((apply_events small directory settings 0 0 arrivals no_tenants).1
        ≡ replay small directory settings 0 arrivals no_tenants)
unfolding directory-KeepsOrganizations
apply_events-replay_example =
    apply_events-replay small directory settings directory-KeepsOrganizations 0 0 arrivals
      no_tenants

apply_events-redelivered_example :
    (apply_events small directory settings 0 0 arrivals
      (apply_events small directory settings 0 0 arrivals no_tenants).1).1
    ≡ (apply_events small directory settings 0 0 arrivals no_tenants).1
unfolding directory-KeepsOrganizations
apply_events-redelivered_example =
    apply_events-redelivered small directory settings directory-KeepsOrganizations 0 0 arrivals
      no_tenants
