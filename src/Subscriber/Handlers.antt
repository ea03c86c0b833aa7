-- ===== src/Subscriber/Handlers.antt =====
-- handleOrgAdded, handleOrgChanged and handleOrgRemoved of zitadelorgevent_subscriber.go.
use invora_controller.Prelude.{
  String, ◌<>◌, Option, none, some, List, [], ◌∷◌, ◌==◌, ◌&&◌, not, if◌then◌else◌,
}
use invora_controller.Go.{
  Error, wrap, is_api_not_found, is_api_already_exists, ok, err, M, ◌>>=◌, pure,
}
use invora_controller.Api.{NamespacedName, Organization}
use invora_controller.Subscriber.{
  Event, NewOrganization, Server, Lib, SubscriberConfig, string_from_payload, wrapped_error,
}

module _ {S : Type 0} (lib : Lib) (server : Server S) (config : SubscriberConfig) where
  unfoldable pub tenant_org_cr_name : String → String
  tenant_org_cr_name org_id = "tenant-" <> lib.to_lower org_id

  unfoldable pub state_namespace : String
  state_namespace =
      if not (config.state_namespace == "")
      then config.state_namespace
      else if not (lib.pod_namespace == "")
      then lib.pod_namespace
      else "invora-billing-controller"

  abbrev tenant_org : String → NamespacedName
  tenant_org org_id = record {
    namespace = config.tenant_namespace;
    name = tenant_org_cr_name org_id;
  }

  -- The object that an org.added event asks for.
  unfoldable pub desired_organization : String → String → NewOrganization
  desired_organization org_id display_name = record {
    name = tenant_org_cr_name org_id;
    namespace = config.tenant_namespace;
    labels =
        ("billing.invora.app/managed-by", "zitadel-event-subscriber")
        ∷ ("zitadel.bdaya-dev.com/org-id", org_id)
        ∷ ("app.kubernetes.io/component", "tenant-billing")
        ∷ [];
    spec = record {
      instance_ref = record { name = config.instance_name; namespace = config.instance_namespace };
      deletion_policy = "";
      name = display_name;
      email = "";
      timezone = "";
      document_numbering = "";
      parent_org_ref = none;
      enable_parent_dual_write = none;
      external_id = org_id;
    };
  }

  unfoldable pub rename_organization : Organization → String → M S (Option Error)
  rename_organization existing display_name = do
    e ←
        server.update_organization
          (record existing { spec = record (existing.spec) { name = display_name } })
    pure (wrapped_error "updating InvoraBillingOrganization name" e)

  unfoldable pub handle_org_added : String → List (String × Option String) → M S (Option Error)
  unfolding string_from_payload rename_organization
  handle_org_added org_id payload = do
    let given = string_from_payload payload "name"
    let display_name = if given == "" then tenant_org_cr_name org_id else given
    got ← server.get_organization (tenant_org org_id)
    elim got [
      | err e ↦
          if is_api_not_found e
          then (do
            created ← server.create_organization (desired_organization org_id display_name)
            elim created [
              | none ↦ pure none
              | some e ↦
                  if is_api_already_exists e
                  then pure none
                  else pure (some (wrap "creating InvoraBillingOrganization" e))
            ])
          else pure (some (wrap "getting InvoraBillingOrganization" e))
      | ok existing ↦
          if not (existing.spec.name == display_name) && not (display_name == "")
          then rename_organization existing display_name
          else pure none
    ]

  unfoldable pub handle_org_changed : String → List (String × Option String) → M S (Option Error)
  unfolding string_from_payload rename_organization
  handle_org_changed org_id payload =
      let display_name = string_from_payload payload "name" in
      if display_name == "" then pure none else do
        got ← server.get_organization (tenant_org org_id)
        elim got [
          | err e ↦
              if is_api_not_found e
              then pure none
              else pure (some (wrap "getting InvoraBillingOrganization" e))
          | ok existing ↦
              if existing.spec.name == display_name
              then pure none
              else rename_organization existing display_name
        ]

  unfoldable pub handle_org_removed : String → M S (Option Error)
  handle_org_removed org_id = do
    got ← server.get_organization (tenant_org org_id)
    elim got [
      | err e ↦
          if is_api_not_found e
          then pure none
          else pure (some (wrap "getting InvoraBillingOrganization" e))
      | ok existing ↦ do
        e ← server.delete_organization existing
        elim e [
          | none ↦ pure none
          | some e ↦
              if is_api_not_found e
              then pure none
              else pure (some (wrap "deleting InvoraBillingOrganization" e))
        ]
    ]

  -- The switch on the type of an event.
  unfoldable pub apply_event : Event → M S (Option Error)
  apply_event ev =
      if ev.event_type == "org.added"
      then handle_org_added ev.aggregate_id ev.payload
      else if ev.event_type == "org.changed"
      then handle_org_changed ev.aggregate_id ev.payload
      else if ev.event_type == "org.removed"
      then handle_org_removed ev.aggregate_id
      else pure none
