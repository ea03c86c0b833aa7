-- ===== src/Subscriber/Redelivery.antt =====
-- A batch of events that is delivered again.
use invora_controller.Prelude.{
  ℕ, inl, inr, String, ◌≡◌, refl, sym, ap, ◌∙◌, Option, none, some, List, [], ◌∷◌, ◌==◌, arith,
  eq_iff, if◌then◌else◌, leb, Bool-cases,
}
use mathlib.Core.Path.{fun_ext}
use invora_controller.Api.{OrganizationSpec}
use invora_controller.Subscriber.{Event, Server, Lib, SubscriberConfig, string_from_payload}
use invora_controller.Subscriber.Handlers.{tenant_org_cr_name, desired_organization}
use invora_controller.Subscriber.Poll.{apply_events}
use invora_controller.Subscriber.Directory.{Tenants, renamed, relabelled, KeepsOrganizations}
use invora_controller.Subscriber.Mirror.{welcomed, added_name, after}
use invora_controller.Subscriber.Replay.{changed_by, replay, apply_events-replay}

-- What a series of events comes to for one organization.
data Net : Type 0 where
  keep : Net
  rename : String → Net
  ensure : OrganizationSpec → String → Net
  leave : Option OrganizationSpec → Net

abbrev act : Net → Option OrganizationSpec → Option OrganizationSpec
act keep held = held
act (rename d) held = relabelled d held
act (ensure spec d) none = some (renamed d spec)
act (ensure spec d) (some held) = some (renamed d held)
act (leave v) held = v

act_twice : (net : Net) (held : Option OrganizationSpec) → act net (act net held) ≡ act net held
act_twice keep held = refl
act_twice (rename d) none = refl
act_twice (rename d) (some held) = refl
act_twice (ensure spec d) none = refl
act_twice (ensure spec d) (some held) = refl
act_twice (leave v) held = refl

then_relabelled : String → Net → Net
then_relabelled d keep = rename d
then_relabelled d (rename _) = rename d
then_relabelled d (ensure spec _) = ensure spec d
then_relabelled d (leave v) = leave (relabelled d v)

act-then_relabelled :
    (d : String) (net : Net) (held : Option OrganizationSpec)
    → act (then_relabelled d net) held ≡ relabelled d (act net held)
unfolding then_relabelled
act-then_relabelled d keep held = refl
act-then_relabelled d (rename _) none = refl
act-then_relabelled d (rename _) (some held) = refl
act-then_relabelled d (ensure spec _) none = refl
act-then_relabelled d (ensure spec _) (some held) = refl
act-then_relabelled d (leave v) held = refl

module _ {S : Type 0} (lib : Lib) (server : Server S) (config : SubscriberConfig) where
  then_welcomed : String → String → Net → Net
  then_welcomed id d keep = ensure (desired_organization lib server config id d).spec d
  then_welcomed id d (rename _) = ensure (desired_organization lib server config id d).spec d
  then_welcomed id d (ensure spec _) = ensure spec d
  then_welcomed id d (leave v) = leave (welcomed lib server config id d v)

  act-then_welcomed :
      (id d : String) (net : Net) (held : Option OrganizationSpec)
      → act (then_welcomed id d net) held ≡ welcomed lib server config id d (act net held)
  unfolding then_welcomed desired_organization
  act-then_welcomed id d keep none = refl
  act-then_welcomed id d keep (some held) = refl
  act-then_welcomed id d (rename _) none = refl
  act-then_welcomed id d (rename _) (some held) = refl
  act-then_welcomed id d (ensure spec _) none = refl
  act-then_welcomed id d (ensure spec _) (some held) = refl
  act-then_welcomed id d (leave v) held = refl

  -- One event more.
  then_event : Event → Net → Net
  then_event ev net =
      if ev.event_type == "org.added"
      then then_welcomed ev.aggregate_id (added_name lib server config ev.aggregate_id ev.payload)
          net
      else if ev.event_type == "org.changed"
      then (if string_from_payload ev.payload "name" == ""
          then net
          else then_relabelled (string_from_payload ev.payload "name") net)
      else if ev.event_type == "org.removed"
      then leave none
      else net

  act-then_event :
      (ev : Event) (net : Net) (held : Option OrganizationSpec)
      → act (then_event ev net) held ≡ after lib server config ev (act net held)
  unfolding then_event
  act-then_event ev net held = ground (
    arith,
    act-then_relabelled (string_from_payload ev.payload "name") net held,
    act-then_welcomed ev.aggregate_id (added_name lib server config ev.aggregate_id ev.payload) net
        held,
  )

  -- The events of a batch that a pass applies to the organization of a name.
  net_after : String → ℕ → Event → Net → Net
  net_after m last_seq ev net =
      if leb ev.sequence last_seq
      then net
      else if ev.aggregate_id == ""
      then net
      else if tenant_org_cr_name lib server config ev.aggregate_id == m
      then then_event ev net
      else net

  net_of : String → ℕ → List Event → Net → Net
  net_of m last_seq [] net = net
  net_of m last_seq (ev ∷ events) net = net_of m last_seq events (net_after m last_seq ev net)

  changed_by-net_after :
      (m : String) (last_seq : ℕ) (ev : Event) (net : Net) (t : Tenants)
      (held : Option OrganizationSpec)
      → t m ≡ act net held
      → (if leb ev.sequence last_seq then t else changed_by lib server config ev t) m
        ≡ act (net_after m last_seq ev net) held
  unfolding net_after
  changed_by-net_after m last_seq ev net t held h =
      let n = tenant_org_cr_name lib server config ev.aggregate_id in
      elim (Bool-cases (n == m)) [
        | inr miss ↦ ground (arith, miss, h)
        | inl hit ↦
            let same : after lib server config ev (t n) ≡ act (then_event ev net) held =
              (ap (λ x. after lib server config ev (t x)) ((eq_iff n m).0 hit))
              ∙ (ap (after lib server config ev) h ∙ sym (act-then_event ev net held)) in
            ground (arith, hit, h, same)
      ]

  replay-net_of :
      (m : String) (last_seq : ℕ) (events : List Event) (net : Net) (t : Tenants)
      (held : Option OrganizationSpec)
      → t m ≡ act net held
      → replay lib server config last_seq events t m ≡ act (net_of m last_seq events net) held
  unfolding net_of
  replay-net_of m last_seq [] net t held h = h
  replay-net_of m last_seq (ev ∷ events) net t held h =
      replay-net_of m last_seq events (net_after m last_seq ev net)
        (if leb ev.sequence last_seq then t else changed_by lib server config ev t) held
        (changed_by-net_after m last_seq ev net t held h)

  pub replay-replay :
      (last_seq : ℕ) (events : List Event) (t : Tenants)
      → replay lib server config last_seq events (replay lib server config last_seq events t)
        ≡ replay lib server config last_seq events t
  replay-replay last_seq events t = fun_ext λ m.
      let net = net_of m last_seq events keep in
      let once = replay-net_of m last_seq events keep t (t m) refl in
      let twice =
        replay-net_of m last_seq events keep (replay lib server config last_seq events t)
          (replay lib server config last_seq events t m) refl in
      twice ∙ (ap (act net) once ∙ (act_twice net (t m) ∙ sym once))

  -- Where the API server does not fail and no finalizer holds back a deleted organization of the
  -- tenant namespace: a second pass over a batch, from the same cursor, as after a cursor that was
  -- not stored, leaves the organizations as the first pass has left them.
  pub apply_events-redelivered :
      (keeps : KeepsOrganizations server config.tenant_namespace) (last_seq highest : ℕ)
      (events : List Event) (s : S)
      → let once = (apply_events lib server config last_seq highest events s).1 in
        keeps.tenants (apply_events lib server config last_seq highest events once).1
        ≡ keeps.tenants once
  apply_events-redelivered keeps last_seq highest events s =
      let once = apply_events-replay lib server config keeps last_seq highest events s in
      let s' = (apply_events lib server config last_seq highest events s).1 in
      let twice = apply_events-replay lib server config keeps last_seq highest events s' in
      twice.1
      ∙ (ap (replay lib server config last_seq events) once.1
          ∙ (replay-replay last_seq events (keeps.tenants s) ∙ sym once.1))
