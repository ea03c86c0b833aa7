-- ===== src/Subscriber/Mirror.antt =====
-- The handlers of the subscriber, as changes of a map of organizations.
use invora_controller.Prelude.{
  inl, inr, String, ◌≡◌, refl, sym, ap, ◌∙◌, true, false, Option, none, some, List, ◌<>◌, ◌==◌,
  arith, eq_iff, if◌then◌else◌, Bool-cases, Option-cases,
}
use text.Mathlib.TextLemmas.{length-append}
use Prim.Native.String.{count}
use invora_controller.Go.{Error}
use invora_controller.Api.{NamespacedName, Organization, OrganizationSpec}
use invora_controller.Subscriber.{Event, Server, Lib, SubscriberConfig, string_from_payload}
use invora_controller.Subscriber.Handlers.{
  tenant_org_cr_name, desired_organization, handle_org_added, handle_org_changed,
  handle_org_removed, rename_organization,
}
use invora_controller.Subscriber.Directory.{
  put, KeepsOrganizations, put_self, renamed, relabelled, renamed_same,
}

module _ {S : Type 0} (lib : Lib) (server : Server S) (config : SubscriberConfig) where
  -- What an event does to the organization of its id.
  abbrev pub welcomed : String → String → Option OrganizationSpec → Option OrganizationSpec
  welcomed id display_name none = some (desired_organization lib server config id display_name).spec
  welcomed id display_name (some spec) = some (renamed display_name spec)

  abbrev pub added_name : String → List (String × Option String) → String
  added_name id payload =
      let given = string_from_payload payload "name" in
      if given == "" then tenant_org_cr_name lib server config id else given

  abbrev pub after : Event → Option OrganizationSpec → Option OrganizationSpec
  after ev held =
      if ev.event_type == "org.added"
      then welcomed ev.aggregate_id (added_name ev.aggregate_id ev.payload) held
      else if ev.event_type == "org.changed"
      then (if string_from_payload ev.payload "name" == ""
          then held
          else relabelled (string_from_payload ev.payload "name") held)
      else if ev.event_type == "org.removed"
      then none
      else held

  desired_place :
      (id display_name : String)
      → let o = desired_organization lib server config id display_name in
        (o.namespace ≡ config.tenant_namespace) × (o.name ≡ tenant_org_cr_name lib server config id)
  unfolding desired_organization
  desired_place id display_name = (refl, refl)

  cr_name-ne-empty : (id : String) → (tenant_org_cr_name lib server config id == "") ≡ false
  unfolding tenant_org_cr_name
  cr_name-ne-empty id =
      let whole = "tenant-" <> lib.to_lower id in
      elim (Bool-cases (whole == "")) [
        | inr other ↦ other
        | inl empty ↦ absurd (
            omega (
              arith,
              length-append "tenant-" (lib.to_lower id),
              ap count ((eq_iff whole "").0 empty),
            ))
      ]

  added_name-ne-empty :
      (id : String) (payload : List (String × Option String))
      → (added_name id payload == "") ≡ false
  added_name-ne-empty id payload = ground (arith, cr_name-ne-empty id)

  pub handle_org_changed_blank :
      (id : String) (payload : List (String × Option String)) (s : S)
      → (string_from_payload payload "name" == "") ≡ true
      → handle_org_changed lib server config id payload s ≡ (none, s)
  unfolding handle_org_changed
  handle_org_changed_blank id payload s blank = rw blank refl

  module _ (keeps : KeepsOrganizations server config.tenant_namespace) where
    -- A handler has ended with no error and has left the object of a name with a spec, or with none.
    abbrev Leaves : String → Option OrganizationSpec → S → Option Error × S → Type 0
    Leaves n v s r = (r.0 ≡ none) × (keeps.tenants r.1 ≡ put n v (keeps.tenants s))

    abbrev tenant_org : String → NamespacedName
    tenant_org id = record {
      namespace = config.tenant_namespace;
      name = tenant_org_cr_name lib server config id;
    }

    module _ (id : String) (s : S) where
      abbrev n : String
      n = tenant_org_cr_name lib server config id

      abbrev read : S
      read = (server.get_organization (tenant_org id) s).1

      Leaves-self :
          (v : Option OrganizationSpec)
          → keeps.tenants s n ≡ v
          → keeps.tenants read ≡ put n v (keeps.tenants s)
      Leaves-self v same = keeps.gets (tenant_org id) s ∙ sym (put_self n v (keeps.tenants s) same)

      -- What a Create, an Update or a Delete after the Get does to what was held before it.
      put-read :
          (m : String) (v : Option OrganizationSpec)
          → m ≡ n
          → put m v (keeps.tenants read) ≡ put n v (keeps.tenants s)
      put-read m v same = λ i. put (same i) v (keeps.gets (tenant_org id) s i)

      pub removed-Leaves : Leaves n none s (handle_org_removed lib server config id s)
      unfolding handle_org_removed
      removed-Leaves = elim (Option-cases (keeps.tenants s n)) [
        | inl nothing ↦
            let (e, got, gone) = keeps.misses n s nothing in
            (ground (arith, got, gone), ground (arith, got, gone, Leaves-self none nothing))
        | inr (spec, held) ↦
            let (o, got, ns, same, is_spec) = keeps.finds n s spec held in
            let still : keeps.tenants read o.meta.name ≡ some spec =
              rw (same, keeps.gets (tenant_org id) s) held in
            let (fine, change) = keeps.deletes o read spec ns still in
            let whole = change ∙ put-read o.meta.name none same in
            (ground (arith, got, fine), ground (arith, got, fine, whole))
      ]

      renamed-Leaves :
          (o : Organization) (spec : OrganizationSpec) (d : String)
          → keeps.tenants s n ≡ some spec
          → o.meta.namespace ≡ config.tenant_namespace
          → o.meta.name ≡ n
          → o.spec ≡ spec
          → Leaves n (some (renamed d spec)) s (rename_organization lib server config o d read)
      unfolding rename_organization
      renamed-Leaves o spec d held ns same is_spec =
          let o' = record o { spec = record (o.spec) { name = d } } in
          let still : keeps.tenants read o.meta.name ≡ some spec =
            rw (same, keeps.gets (tenant_org id) s) held in
          let (fine, change) = keeps.updates o' read spec ns still in
          (
            rw fine refl,
            change
                ∙ (put-read o.meta.name (some (renamed d o.spec)) same
                    ∙ ap (λ sp. put n (some (renamed d sp)) (keeps.tenants s)) is_spec),
          )

      -- The handler finds the object under its name, and renames it where that changes it.
      tracked-Leaves :
          (o : Organization) (spec : OrganizationSpec) (d : String)
          → keeps.tenants s n ≡ some spec
          → o.meta.namespace ≡ config.tenant_namespace
          → o.meta.name ≡ n
          → o.spec ≡ spec
          → Leaves n (some (renamed d spec)) s (
              if o.spec.name == d
              then (none, read)
              else rename_organization lib server config o d read)
      tracked-Leaves o spec d held ns same is_spec = elim (Bool-cases (o.spec.name == d)) [
        | inr other ↦ rw other (renamed-Leaves o spec d held ns same is_spec)
        | inl named ↦ rw named (
          refl,
          Leaves-self (some (renamed d spec))
              (held ∙ ap some (sym (renamed_same d spec (rw (← is_spec) named)))),
        )
      ]

      pub changed-Leaves :
          (payload : List (String × Option String))
          → (string_from_payload payload "name" == "") ≡ false
          → Leaves n
              (relabelled (string_from_payload payload "name") (keeps.tenants s n))
              s
              (handle_org_changed lib server config id payload s)
      unfolding handle_org_changed
      changed-Leaves payload given = elim (Option-cases (keeps.tenants s n)) [
        | inl nothing ↦
            let (e, got, gone) = keeps.misses n s nothing in
            (
              ground (arith, given, got, gone),
              ground (arith, given, got, gone, nothing, Leaves-self none nothing),
            )
        | inr (spec, held) ↦
            let (o, got, ns, same, is_spec) = keeps.finds n s spec held in
            let (fine, whole) =
              tracked-Leaves o spec (string_from_payload payload "name") held ns same is_spec in
            (ground (arith, given, got, fine), ground (arith, given, got, held, whole))
      ]

      pub added-Leaves :
          (payload : List (String × Option String))
          → Leaves n
              (welcomed id (added_name id payload) (keeps.tenants s n))
              s
              (handle_org_added lib server config id payload s)
      unfolding handle_org_added
      added-Leaves payload =
          let d = added_name id payload in
          elim (Option-cases (keeps.tenants s n)) [
            | inl nothing ↦
                let (e, got, gone) = keeps.misses n s nothing in
                let o = desired_organization lib server config id d in
                let place = desired_place id d in
                let (fine, change) =
                  keeps.creates o read place.0
                    (rw (place.1, keeps.gets (tenant_org id) s) nothing) in
                let whole = change ∙ put-read o.name (some o.spec) place.1 in
                (ground (arith, got, gone, fine), ground (arith, got, gone, fine, nothing, whole))
            | inr (spec, held) ↦
                let (o, got, ns, same, is_spec) = keeps.finds n s spec held in
                let (fine, whole) = tracked-Leaves o spec d held ns same is_spec in
                let filled = added_name-ne-empty id payload in
                (ground (arith, got, fine, filled), ground (arith, got, held, whole, filled))
          ]
