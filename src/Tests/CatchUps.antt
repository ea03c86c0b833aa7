-- ===== src/Tests/CatchUps.antt =====
-- The theorem on a series of polls, at a server that is a ConfigMap and a map of organizations.
use invora_controller.Prelude.{
  ℕ, ◌≡◌, refl, inl, Option, none, some, List, [], ◌∷◌, arith, eq_iff, trim_space,
}
use invora_controller.Go.{Result, ok, err}
use invora_controller.Api.{NamespacedName}
use invora_controller.Subscriber.{ConfigMap, Event, Server}
use invora_controller.Subscriber.Handlers.{state_namespace}
use invora_controller.Subscriber.Directory.{Tenants, put, KeepsOrganizations}
use invora_controller.Subscriber.Replay.{replay}
use invora_controller.Subscriber.Start.{run_ticks}
use invora_controller.Subscriber.Poll.{list_request}
use invora_controller.Subscriber.Follow.{Follows, HasCursor}
use invora_controller.Subscriber.CatchUp.{newer, take, run_ticks-caught_up}
use invora_controller.Tests.Subscriber.{missing, small, settings, signs, connects, look, look-name}
use invora_controller.Tests.Mirrors.{no_tenants, answer, org_named}
use invora_controller.Tests.World.{text_differs}

abbrev two_arrivals : List Event
two_arrivals =
    record {
      sequence = 1;
      event_type = "org.added";
      aggregate_id = "a";
      payload = ("name", some "Acme") ∷ [];
    }
    ∷ record { sequence = 2; event_type = "org.added"; aggregate_id = "b"; payload = [] }
    ∷ []

abbrev Site : Type 0
Site = Option ConfigMap × Tenants

-- Zitadel answers one event at a time.
abbrev one_by_one : ℕ → List Event
one_by_one n = take 1 (newer n two_arrivals)

-- The ConfigMap of the state, under its one name, and the organizations.
abbrev site : Server Site
site = record {
  get_organization = λ n s. (answer n (s.1 n.name), s);
  create_organization = λ o s. (none, (s.0, put o.name (some o.spec) s.1));
  update_organization = λ o s. (none, (s.0, put o.meta.name (some o.spec) s.1));
  delete_organization = λ o s. (none, (s.0, put o.meta.name none s.1));
  get_config_map = λ n s. (look n s.0, s);
  create_config_map = λ cm s. (none, (some cm, s.1));
  update_config_map = λ cm s. (none, (some cm, s.1));
  list_events = λ r s. (ok (one_by_one r.sequence), s);
}

abbrev place : NamespacedName
place = record { namespace = "billing"; name = "zitadel-subscriber-state" }

abbrev found : Result ConfigMap → Option ConfigMap
found (ok cm) = some cm
found (err e) = none

found-ok : (r : Result ConfigMap) (cm : ConfigMap) → found r ≡ some cm → r ≡ ok cm
found-ok (ok _) cm h = ground arith
found-ok (err _) cm h = absurd (ground arith)

found-none : (s : Option ConfigMap) → found (look place s) ≡ none → look place s ≡ err missing
found-none none h = refl
found-none (some cm) h = ground arith

look_stored :
    (cm : ConfigMap)
    → cm.namespace ≡ place.namespace
    → cm.name ≡ place.name
    → found (look place (some cm)) ≡ some cm
look_stored cm ns name =
    ground (arith, eq_iff cm.namespace place.namespace, eq_iff cm.name place.name)

site-KeepsOrganizations : KeepsOrganizations site "tenants"
site-KeepsOrganizations = record {
  tenants = λ s. s.1;
  finds = λ n s spec h.
      (org_named (record { namespace = "tenants"; name = n }) spec, rw h refl, refl, refl, refl);
  misses = λ n s h. (missing, rw h refl, refl);
  gets = λ n s. refl;
  creates = λ o s ns h. (refl, refl);
  updates = λ o s spec ns h. (refl, refl);
  deletes = λ o s spec ns h. (refl, refl);
}

site-Follows : Follows small site settings one_by_one
unfolding state_namespace site-KeepsOrganizations list_request
site-Follows = record {
  orgs = site-KeepsOrganizations;
  held_map = λ s. found (look place s.0);
  finds_map = λ s cm h. found-ok (look place s.0) cm h;
  misses_map = λ s h. (missing, found-none s.0 h, refl);
  gets_map = λ n s. (refl, refl);
  names_map = λ s cm h. look-name place s.0 cm (found-ok (look place s.0) cm h);
  creates_map = λ cm s ns name h. (refl, look_stored cm ns name, refl);
  updates_map = λ cm old s ns name h. (refl, look_stored cm ns name, refl);
  lists = λ n s. (refl, refl, refl);
  map_after_get = λ n s. refl;
  map_after_create = λ o s. refl;
  map_after_update = λ o s. refl;
  map_after_delete = λ o s. refl;
}

run_ticks-caught_up_example :
    ((run_ticks small site settings signs connects 2 (none, no_tenants)).1.1
      ≡ replay small site settings 0 (newer 0 two_arrivals) no_tenants)
    × (m : ℕ) × HasCursor small site settings one_by_one site-Follows m
        (run_ticks small site settings signs connects 2 (none, no_tenants)).1
    × (newer m two_arrivals ≡ [])
unfolding site-Follows site-KeepsOrganizations trim_space
run_ticks-caught_up_example =
    run_ticks-caught_up small site settings two_arrivals ((omega arith, tt), (tt, tt)) 1
      (omega arith) site-Follows signs connects
      ((text_differs "1" "" refl, refl), ((text_differs "2" "" refl, refl), tt)) 2 0
      (none, no_tenants) (text_differs "0" "" refl, refl) (inl (refl, refl)) (omega arith)
