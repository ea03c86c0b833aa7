-- ===== src/Subscriber/Follow.antt =====
-- One poll against Zitadel and an API server that do not fail: the cursor and the organizations.
use invora_controller.Prelude.{
  ℕ, inl, inr, String, ◌≡◌, ◌≢◌, ◌⊎◌, refl, ◌∙◌, true, Option, none, some, List, [], ◌∷◌, ◌==◌,
  arith, eq_iff, leb, Bool-cases, Option-cases, trim_space,
}
use invora_controller.Go.{Error, ok, err, is_api_not_found}
use invora_controller.Api.{NamespacedName, Organization}
use invora_controller.Subscriber.{
  ConfigMap, Event, NewOrganization, Server, Lib, SubscriberConfig, advance, stored,
  subscriber_state_config_map_key,
}
use invora_controller.Subscriber.Handlers.{
  apply_event, handle_org_added, handle_org_changed, handle_org_removed, rename_organization,
}
use invora_controller.Subscriber.Poll.{
  apply_events, read_state, write_state, state_name, list_request, new_state_map, with_sequence,
}
use invora_controller.Subscriber.Directory.{KeepsOrganizations}
use invora_controller.Subscriber.Replay.{apply_event-changed_by}
use invora_controller.Subscriber.Progress.{apply_events-fine}
use invora_controller.Subscriber.Cursor.{lookup-insert}

module _ {S : Type 0} (lib : Lib) (server : Server S) (config : SubscriberConfig) where
  -- An API server that does not fail and that stores the subscriber's ConfigMap, apart from the
  -- organizations, and a Zitadel that answers a request for the events after a sequence.
  pub record Follows (answers : ℕ → List Event) : Type 0 where
    pub orgs : KeepsOrganizations server config.tenant_namespace
    pub held_map : S → Option ConfigMap
    pub finds_map :
        (s : S) (cm : ConfigMap)
        → held_map s ≡ some cm
        → (server.get_config_map (state_name lib server config) s).0 ≡ ok cm
    pub misses_map :
        (s : S)
        → held_map s ≡ none
        → (e : Error) × ((server.get_config_map (state_name lib server config) s).0 ≡ err e)
          × (is_api_not_found e ≡ true)
    pub gets_map :
        (n : NamespacedName) (s : S)
        → (held_map (server.get_config_map n s).1 ≡ held_map s)
          × (orgs.tenants (server.get_config_map n s).1 ≡ orgs.tenants s)
    pub names_map :
        (s : S) (cm : ConfigMap)
        → held_map s ≡ some cm
        → (cm.namespace ≡ (state_name lib server config).namespace)
          × (cm.name ≡ (state_name lib server config).name)
    pub creates_map :
        (cm : ConfigMap) (s : S)
        → cm.namespace ≡ (state_name lib server config).namespace
        → cm.name ≡ (state_name lib server config).name
        → held_map s ≡ none
        → ((server.create_config_map cm s).0 ≡ none)
          × (held_map (server.create_config_map cm s).1 ≡ some cm)
          × (orgs.tenants (server.create_config_map cm s).1 ≡ orgs.tenants s)
    pub updates_map :
        (cm old : ConfigMap) (s : S)
        → cm.namespace ≡ (state_name lib server config).namespace
        → cm.name ≡ (state_name lib server config).name
        → held_map s ≡ some old
        → ((server.update_config_map cm s).0 ≡ none)
          × (held_map (server.update_config_map cm s).1 ≡ some cm)
          × (orgs.tenants (server.update_config_map cm s).1 ≡ orgs.tenants s)
    pub lists :
        (last_seq : ℕ) (s : S)
        → let r = server.list_events (list_request lib server config last_seq) s in
          (r.0 ≡ ok (answers last_seq))
          × (held_map r.1 ≡ held_map s)
          × (orgs.tenants r.1 ≡ orgs.tenants s)
    pub map_after_get :
        (n : NamespacedName) (s : S) → held_map (server.get_organization n s).1 ≡ held_map s
    pub map_after_create :
        (o : NewOrganization) (s : S) → held_map (server.create_organization o s).1 ≡ held_map s
    pub map_after_update :
        (o : Organization) (s : S) → held_map (server.update_organization o s).1 ≡ held_map s
    pub map_after_delete :
        (o : Organization) (s : S) → held_map (server.delete_organization o s).1 ≡ held_map s

  module _ (answers : ℕ → List Event) (follows : Follows answers) where
    map-rename_organization :
        (o : Organization) (d : String) (s : S)
        → follows.held_map (rename_organization lib server config o d s).1 ≡ follows.held_map s
    unfolding rename_organization
    map-rename_organization o d s = follows.map_after_update _ s

    map-handle_org_added :
        (id : String) (payload : List (String × Option String)) (s : S)
        → follows.held_map (handle_org_added lib server config id payload s).1 ≡ follows.held_map s
    unfolding handle_org_added
    map-handle_org_added id payload s =
        grind (arith, follows.map_after_get, follows.map_after_create, map-rename_organization)

    map-handle_org_changed :
        (id : String) (payload : List (String × Option String)) (s : S)
        → follows.held_map (handle_org_changed lib server config id payload s).1
          ≡ follows.held_map s
    unfolding handle_org_changed
    map-handle_org_changed id payload s =
        grind (arith, follows.map_after_get, map-rename_organization)

    map-handle_org_removed :
        (id : String) (s : S)
        → follows.held_map (handle_org_removed lib server config id s).1 ≡ follows.held_map s
    unfolding handle_org_removed
    map-handle_org_removed id s = grind (arith, follows.map_after_get, follows.map_after_delete)

    map-apply_event :
        (ev : Event) (s : S)
        → follows.held_map (apply_event lib server config ev s).1 ≡ follows.held_map s
    unfolding apply_event
    map-apply_event ev s = ground (
      arith,
      map-handle_org_added ev.aggregate_id ev.payload s,
      map-handle_org_changed ev.aggregate_id ev.payload s,
      map-handle_org_removed ev.aggregate_id s,
    )

    pub map-apply_events :
        (last_seq highest : ℕ) (events : List Event) (s : S)
        → follows.held_map (apply_events lib server config last_seq highest events s).1
          ≡ follows.held_map s
    unfolding apply_events
    map-apply_events last_seq highest [] s = refl
    map-apply_events last_seq highest (ev ∷ events) s =
        let highest' = advance highest ev.sequence in
        elim (Bool-cases (leb ev.sequence last_seq)) [
          | inl seen ↦ rw (apply_events, seen) (map-apply_events last_seq highest events s)
          | inr new ↦ elim (Bool-cases (ev.aggregate_id == "")) [
            | inl blank ↦
                rw (apply_events, new, blank) (map-apply_events last_seq highest' events s)
            | inr named ↦
                let fine = (apply_event-changed_by lib server config follows.orgs ev s named).0 in
                rw (apply_events-fine lib server config last_seq highest ev events s new named fine)
                  (map-apply_events last_seq highest' events (apply_event lib server config ev s).1
                    ∙ map-apply_event ev s)
          ]
        ]

    -- A sequence whose decimal text is read back.
    abbrev pub Readable : ℕ → Type 0
    Readable n = (lib.format_uint n ≢ "") × (lib.parse_uint (trim_space (lib.format_uint n)) ≡ ok n)

    -- The cursor that the API server holds.
    abbrev pub HasCursor : ℕ → S → Type 0
    HasCursor n s =
        ((follows.held_map s ≡ none) × (n ≡ 0))
        ⊎ ((cm : ConfigMap) × (follows.held_map s ≡ some cm) × (stored cm ≡ lib.format_uint n))

    pub read_state-HasCursor :
        (n : ℕ) (s : S) → Readable n → HasCursor n s → (read_state lib server config s).0 ≡ ok n
    unfolding read_state
    read_state-HasCursor n s (filled, parsed) (inl (nothing, is_zero)) =
        let (e, got, missing) = follows.misses_map s nothing in
        ground (arith, got, missing, is_zero)
    read_state-HasCursor n s (filled, parsed) (inr (cm, held, is_n)) =
        ground (arith, follows.finds_map s cm held, is_n, parsed, eq_iff (lib.format_uint n) "")

    pub read_state-state :
        (s : S)
        → (read_state lib server config s).1
          ≡ (server.get_config_map (state_name lib server config) s).1
    unfolding read_state
    read_state-state s = ground arith

    pub write_state-HasCursor :
        (n : ℕ) (s : S)
        → let r = write_state lib server config n s in
          (r.0 ≡ none) × HasCursor n r.1 × (follows.orgs.tenants r.1 ≡ follows.orgs.tenants s)
    unfolding write_state
    write_state-HasCursor n s =
        let read = (server.get_config_map (state_name lib server config) s).1 in
        let (map_same, orgs_same) = follows.gets_map (state_name lib server config) s in
        elim (Option-cases (follows.held_map s)) [
          | inl nothing ↦
              let (e, got, missing) = follows.misses_map s nothing in
              let cm = new_state_map lib server config n in
              let (fine, put, same) = follows.creates_map cm read refl refl (map_same ∙ nothing) in
              (
                ground (arith, got, missing, fine),
                inr (cm, ground (arith, got, missing, put), refl),
                ground (arith, got, missing, same, orgs_same),
              )
          | inr (old, held) ↦
              let got = follows.finds_map s old held in
              let cm = with_sequence lib server config old n in
              let (ns, name) = follows.names_map s old held in
              let (fine, put, same) = follows.updates_map cm old read ns name (map_same ∙ held) in
              let is_n : stored cm ≡ lib.format_uint n =
                rw
                  (
                    stored,
                    lookup-insert subscriber_state_config_map_key (lib.format_uint n) old.entries,
                  )
                  refl in
              (
                ground (arith, got, fine),
                inr (cm, ground (arith, got, put), is_n),
                ground (arith, got, same, orgs_same),
              )
        ]
