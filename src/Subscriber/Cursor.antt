-- ===== src/Subscriber/Cursor.antt =====
-- The cursor that poll keeps in a ConfigMap.
use invora_controller.Prelude.{
  ℕ, String, ◌≡◌, ◌≢◌, ◌≤◌, refl, sym, ap, ◌∙◌, inl, inr, false, none, some, List, [], ◌∷◌, ◌==◌,
  eq_iff, eq_refl, arith, lookup, trim_space,
}
use invora_controller.Go.{Error, Result-cases, ok, err}
use invora_controller.Api.{NamespacedName}
use invora_controller.Subscriber.{
  ConfigMap, Event, Server, Lib, SubscriberConfig, subscriber_state_config_map_key, insert, stored,
}
use invora_controller.Subscriber.Poll.{
  state_name, new_state_map, with_sequence, read_state, write_state, write_state_if_advanced,
  apply_events, list_request, poll,
}
use invora_controller.Subscriber.Progress.{
  Ascending, Progress, apply_events-advances, apply_events-Progress,
}

pub lookup-insert : (k v : String) (m : List (String × String)) → lookup k (insert k v m) ≡ some v
lookup-insert k v [] = rw (eq_refl k) refl
lookup-insert k v ((j, w) ∷ m) = ground (arith, lookup-insert k v m, eq_iff j k)

module _ {S : Type 0} (lib : Lib) (server : Server S) (config : SubscriberConfig) where
  -- A poll that reads a cursor and is given a batch in ascending order makes Progress over the batch
  -- to a cursor that is not lower, and then stores that cursor if it is higher.
  pub poll-Progress :
      (s : S) (last_seq : ℕ) (events : List Event)
      → (read_state lib server config s).0 ≡ ok last_seq
      → (server.list_events
          (list_request lib server config last_seq)
          (read_state lib server config s).1).0
        ≡ ok events
      → Ascending events
      → (highest : ℕ) × (final : S) × Progress lib server config last_seq highest events
          (server.list_events
            (list_request lib server config last_seq)
            (read_state lib server config s).1).1
          final
        × (last_seq ≤ highest)
        × (poll lib server config s
            ≡ write_state_if_advanced lib server config last_seq highest final)
  unfolding poll
  poll-Progress s last_seq events read listed asc =
      let at =
        (server.list_events (list_request lib server config last_seq)
          (read_state lib server config s).1).1 in
      let r = apply_events lib server config last_seq last_seq events at in
      (
        r.0,
        r.1,
        apply_events-Progress lib server config last_seq events at asc,
        apply_events-advances lib server config last_seq last_seq events at,
        ground (arith, read, listed),
      )

  -- What the API server does with a ConfigMap: a Create or an Update with no error is what the next
  -- Get of that name returns, and a Get returns a ConfigMap of the name it is given.
  pub record StoresConfigMaps : Type 0 where
    pub created :
        (cm : ConfigMap) (s : S)
        → (server.create_config_map cm s).0 ≡ none
        → (server.get_config_map
            (record { namespace = cm.namespace; name = cm.name })
            (server.create_config_map cm s).1).0
          ≡ ok cm
    pub updated :
        (cm : ConfigMap) (s : S)
        → (server.update_config_map cm s).0 ≡ none
        → (server.get_config_map
            (record { namespace = cm.namespace; name = cm.name })
            (server.update_config_map cm s).1).0
          ≡ ok cm
    pub same_name :
        (n : NamespacedName) (cm : ConfigMap) (s : S)
        → (server.get_config_map n s).0 ≡ ok cm
        → (cm.namespace ≡ n.namespace) × (cm.name ≡ n.name)

  got_by_name :
      (cm : ConfigMap) (n : NamespacedName) (s : S)
      → cm.namespace ≡ n.namespace
      → cm.name ≡ n.name
      → (server.get_config_map (record { namespace = cm.namespace; name = cm.name }) s).0 ≡ ok cm
      → (server.get_config_map n s).0 ≡ ok cm
  got_by_name cm n s same_namespace same_text got =
      (ap (λ m. (server.get_config_map m s).0)
        (λ i. record { namespace = sym same_namespace i; name = sym same_text i }))
      ∙ got

  read_state-stored :
      (cm : ConfigMap) (n : ℕ) (s : S)
      → (server.get_config_map (state_name lib server config) s).0 ≡ ok cm
      → stored cm ≡ lib.format_uint n
      → lib.format_uint n ≢ ""
      → lib.parse_uint (trim_space (lib.format_uint n)) ≡ ok n
      → (read_state lib server config s).0 ≡ ok n
  unfolding read_state
  read_state-stored cm n s got is_n filled parsed =
      let some_text : (lib.format_uint n == "") ≡ false =
        ground (arith, eq_iff (lib.format_uint n) "") in
      ground (arith, got, is_n, some_text, parsed)

  write_state-created :
      (n : ℕ) (e : Error) (s : S)
      → (server.get_config_map (state_name lib server config) s).0 ≡ err e
      → (write_state lib server config n s).0 ≡ none
      → ((server.create_config_map
            (new_state_map lib server config n)
            (server.get_config_map (state_name lib server config) s).1).0
          ≡ none)
        × ((write_state lib server config n s).1
            ≡ (server.create_config_map
                (new_state_map lib server config n)
                (server.get_config_map (state_name lib server config) s).1).1)
  unfolding write_state
  write_state-created n e s missing written = ground (arith, missing, written)

  write_state-updated :
      (n : ℕ) (cm : ConfigMap) (s : S)
      → (server.get_config_map (state_name lib server config) s).0 ≡ ok cm
      → (write_state lib server config n s).0 ≡ none
      → ((server.update_config_map
            (with_sequence lib server config cm n)
            (server.get_config_map (state_name lib server config) s).1).0
          ≡ none)
        × ((write_state lib server config n s).1
            ≡ (server.update_config_map
                (with_sequence lib server config cm n)
                (server.get_config_map (state_name lib server config) s).1).1)
  unfolding write_state
  write_state-updated n cm s found written = ground (arith, found, written)

  -- Where the API server stores ConfigMaps, and the decimal text of a sequence is read back: a
  -- sequence that is written with no error is the one that is read next.
  pub read_state-write_state :
      StoresConfigMaps
      → (n : ℕ) → lib.format_uint n ≢ ""
      → lib.parse_uint (trim_space (lib.format_uint n)) ≡ ok n
      → (s : S) → (write_state lib server config n s).0 ≡ none
      → (read_state lib server config (write_state lib server config n s).1).0 ≡ ok n
  read_state-write_state laws n filled parsed s written =
      let got = server.get_config_map (state_name lib server config) s in
      elim (Result-cases got.0) [
        | inl (e, missing) ↦
            let (fine, same) = write_state-created n e s missing written in
            let cm = new_state_map lib server config n in
            rw same (read_state-stored cm n _ (laws.created cm got.1 fine) refl filled parsed)
        | inr (cm, found) ↦
            let (fine, same) = write_state-updated n cm s found written in
            let (same_namespace, same_text) =
              laws.same_name (state_name lib server config) cm s found in
            let cm' = with_sequence lib server config cm n in
            rw same (
              read_state-stored cm' n _
                (got_by_name cm' (state_name lib server config) _ same_namespace same_text
                  (laws.updated cm' got.1 fine))
                (rw
                  (
                    stored,
                    lookup-insert subscriber_state_config_map_key (lib.format_uint n) cm.entries,
                  )
                  refl)
                filled parsed)
      ]
