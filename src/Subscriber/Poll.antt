-- ===== src/Subscriber/Poll.antt =====
-- The poll of the subscriber: its cursor and the loop over a batch of events.
use invora_controller.Prelude.{
  ℕ, ◌<>◌, true, false, Option, none, some, List, [], ◌∷◌, ◌==◌, if◌then◌else◌, leb, eqb,
  trim_space,
}
use invora_controller.Go.{Error, wrap, quoted, is_api_not_found, Result, ok, err, M, ◌>>=◌, pure}
use invora_controller.Api.{NamespacedName}
use invora_controller.Subscriber.{
  ConfigMap, Event, ListEventsRequest, Server, Lib, SubscriberConfig,
  subscriber_state_config_map_name, subscriber_state_config_map_key, default_subscriber_batch,
  stored, insert, wrapped_error, advance,
}
use invora_controller.Subscriber.Handlers.{state_namespace, apply_event}

module _ {S : Type 0} (lib : Lib) (server : Server S) (config : SubscriberConfig) where
  abbrev pub state_name : NamespacedName
  state_name = record {
    namespace = state_namespace lib server config;
    name = subscriber_state_config_map_name;
  }

  unfoldable pub read_state : M S (Result ℕ)
  read_state = do
    got ← server.get_config_map state_name
    elim got [
      | err e ↦ if is_api_not_found e then pure (ok 0) else pure (err e)
      | ok cm ↦
          let raw = stored cm in
          if raw == "" then pure (ok 0) else elim (lib.parse_uint (trim_space raw)) [
            | ok seq ↦ pure (ok seq)
            | err e ↦ pure (err (wrap ("parsing state sequence " <> quoted raw) e))
          ]
    ]

  -- The ConfigMap for a first sequence.
  abbrev pub new_state_map : ℕ → ConfigMap
  new_state_map seq = record {
    name = subscriber_state_config_map_name;
    namespace = state_namespace lib server config;
    labels =
        ("app.kubernetes.io/name", "invora-billing-controller")
        ∷ ("app.kubernetes.io/component", "zitadel-event-subscriber")
        ∷ [];
    entries = (subscriber_state_config_map_key, lib.format_uint seq) ∷ [];
  }

  -- The stored ConfigMap with another sequence.
  abbrev pub with_sequence : ConfigMap → ℕ → ConfigMap
  with_sequence existing seq = record existing {
    entries = insert subscriber_state_config_map_key (lib.format_uint seq) existing.entries;
  }

  unfoldable pub write_state : ℕ → M S (Option Error)
  write_state seq = do
    got ← server.get_config_map state_name
    elim got [
      | err e ↦
          if is_api_not_found e
          then (do
            e ← server.create_config_map (new_state_map seq)
            pure (wrapped_error "creating state ConfigMap" e))
          else pure (some (wrap "getting state ConfigMap" e))
      | ok existing ↦ do
        e ← server.update_config_map (with_sequence existing seq)
        pure (wrapped_error "updating state ConfigMap" e)
    ]

  unfoldable pub write_state_if_advanced : ℕ → ℕ → M S (Option Error)
  write_state_if_advanced prev next = if leb next prev then pure none else write_state next

  -- The loop of poll, from the events that are left: the highest sequence that it reaches. An event
  -- that fails ends it.
  unfoldable pub apply_events : ℕ → ℕ → List Event → M S ℕ
  apply_events last_seq highest [] = pure highest
  apply_events last_seq highest (ev ∷ events) = elim (leb ev.sequence last_seq) [
    | true ↦ apply_events last_seq highest events
    | false ↦ elim (ev.aggregate_id == "") [
      | true ↦ apply_events last_seq (advance highest ev.sequence) events
      | false ↦ do
        e ← apply_event lib server config ev
        elim e [
          | none ↦ apply_events last_seq (advance highest ev.sequence) events
          | some _ ↦ pure highest
        ]
    ]
  ]

  unfoldable pub list_request : ℕ → ListEventsRequest
  list_request last_seq = record {
    sequence = last_seq;
    limit = if eqb config.batch 0 then default_subscriber_batch else config.batch;
    asc = true;
    event_types = "org.added" ∷ "org.changed" ∷ "org.removed" ∷ [];
    aggregate_types = "org" ∷ [];
  }

  unfoldable pub poll : M S (Option Error)
  poll = do
    read ← read_state
    elim read [
      | err e ↦ pure (some (wrap "reading subscriber state" e))
      | ok last_seq ↦ do
        listed ← server.list_events (list_request last_seq)
        elim listed [
          | err e ↦ pure (some (wrap "ListEvents" e))
          | ok events ↦ do
            highest ← apply_events last_seq last_seq events
            write_state_if_advanced last_seq highest
        ]
    ]
