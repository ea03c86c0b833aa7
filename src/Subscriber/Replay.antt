-- ===== src/Subscriber/Replay.antt =====
-- A pass over a batch of events, against the batch as changes of a map of organizations.
use invora_controller.Prelude.{
  ℕ, inl, inr, ◌≡◌, refl, sym, ap, ◌∙◌, false, none, List, [], ◌∷◌, ◌==◌, if◌then◌else◌, leb,
  Bool-cases,
}
use invora_controller.Subscriber.{
  Event, Server, Lib, SubscriberConfig, advance, string_from_payload,
}
use invora_controller.Subscriber.Handlers.{tenant_org_cr_name, apply_event}
use invora_controller.Subscriber.Poll.{apply_events}
use invora_controller.Subscriber.Progress.{apply_events-fine}
use invora_controller.Subscriber.Directory.{Tenants, put, put_self, KeepsOrganizations}
use invora_controller.Subscriber.Mirror.{
  after, handle_org_changed_blank, added-Leaves, changed-Leaves, removed-Leaves,
}

-- The cursor after a batch: the highest sequence above the last one, or the one it starts from.
abbrev pub latest : ℕ → ℕ → List Event → ℕ
latest last_seq highest [] = highest
latest last_seq highest (ev ∷ events) =
    latest last_seq (if leb ev.sequence last_seq then highest else advance highest ev.sequence)
      events

module _ {S : Type 0} (lib : Lib) (server : Server S) (config : SubscriberConfig) where
  -- What a batch does to the organizations: each event above the cursor that names an organization
  -- changes that one, in the order of the batch.
  abbrev pub changed_by : Event → Tenants → Tenants
  changed_by ev t =
      let n = tenant_org_cr_name lib server config ev.aggregate_id in
      if ev.aggregate_id == "" then t else put n (after lib server config ev (t n)) t

  abbrev pub replay : ℕ → List Event → Tenants → Tenants
  replay last_seq [] t = t
  replay last_seq (ev ∷ events) t =
      replay last_seq events (if leb ev.sequence last_seq then t else changed_by ev t)

  module _ (keeps : KeepsOrganizations server config.tenant_namespace) where
    pub apply_event-changed_by :
        (ev : Event) (s : S)
        → (ev.aggregate_id == "") ≡ false
        → let r = apply_event lib server config ev s in
          (r.0 ≡ none) × (keeps.tenants r.1 ≡ changed_by ev (keeps.tenants s))
    unfolding apply_event
    apply_event-changed_by ev s named =
        let n = tenant_org_cr_name lib server config ev.aggregate_id in
        let same = put_self n (keeps.tenants s n) (keeps.tenants s) refl in
        elim (Bool-cases (ev.event_type == "org.added")) [
          | inl added ↦
              rw (named, added) (added-Leaves lib server config keeps ev.aggregate_id s ev.payload)
          | inr not_added ↦ elim (Bool-cases (ev.event_type == "org.changed")) [
            | inl changed ↦ elim (Bool-cases (string_from_payload ev.payload "name" == "")) [
              | inl blank ↦
                  rw
                    (
                      named,
                      not_added,
                      changed,
                      blank,
                      handle_org_changed_blank lib server config ev.aggregate_id ev.payload s blank,
                    )
                    (refl, sym same)
              | inr given ↦
                  rw (named, not_added, changed, given)
                    (changed-Leaves lib server config keeps ev.aggregate_id s ev.payload given)
            ]
            | inr not_changed ↦ elim (Bool-cases (ev.event_type == "org.removed")) [
              | inl removed ↦
                  rw (named, not_added, not_changed, removed)
                    (removed-Leaves lib server config keeps ev.aggregate_id s)
              | inr other ↦ rw (named, not_added, not_changed, other) (refl, sym same)
            ]
          ]
        ]

    -- Where the API server does not fail and no finalizer holds back a deleted organization of the
    -- tenant namespace: a pass over a batch, from a cursor, ends at the highest sequence of the
    -- batch, or at the cursor it starts from, and leaves just the organizations that the events above
    -- the last cursor give, taken one by one in the order of the batch.
    pub apply_events-replay :
        (last_seq highest : ℕ) (events : List Event) (s : S)
        → let r = apply_events lib server config last_seq highest events s in
          (r.0 ≡ latest last_seq highest events)
          × (keeps.tenants r.1 ≡ replay last_seq events (keeps.tenants s))
    unfolding apply_events
    apply_events-replay last_seq highest [] s = (refl, refl)
    apply_events-replay last_seq highest (ev ∷ events) s =
        elim (Bool-cases (leb ev.sequence last_seq)) [
          | inl seen ↦ rw (apply_events, seen) (apply_events-replay last_seq highest events s)
          | inr new ↦ elim (Bool-cases (ev.aggregate_id == "")) [
            | inl blank ↦
                rw (apply_events, new, blank)
                  (apply_events-replay last_seq (advance highest ev.sequence) events s)
            | inr named ↦
                let (fine, change) = apply_event-changed_by ev s named in
                let rest =
                  apply_events-replay last_seq (advance highest ev.sequence) events
                    (apply_event lib server config ev s).1 in
                rw
                  (
                    apply_events-fine lib server config last_seq highest ev events s new named fine,
                    new,
                  )
                  (rest.0, rest.1 ∙ ap (replay last_seq events) change)
          ]
        ]
