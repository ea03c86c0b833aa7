-- ===== src/Catalog/Probed.antt =====
-- The look for an existing record before a Create.
use invora_controller.Prelude.{
  inl, inr, String, ◌≡◌, refl, ap, ◌∙◌, ◌⊎◌, true, some, ◌∷◌, arith, Bool-cases, Option-cases, ◌==◌,
  eq_iff,
}
use invora_controller.Go.{Result-cases, Error, ok}
use invora_controller.Api.{NamespacedName, Cr, CatalogStatus, is_deleted, finalizer_name}
use invora_controller.Cluster.{Call, Kind, Log, Env}
use invora_controller.Base.{OrgContext, get_import_id, is_grpc_not_found, grpc_ctx}
use invora_controller.Resource.{
  Dependencies, resolved, conditions_of, Dependencies-cases, ensure_finalizer,
  resolve_org_dependencies,
}
use invora_controller.Resource.Quiet.{rpcs-resolve_org_dependencies}
use invora_controller.Catalog.{
  CatalogRpc, Service, Catalog, UpdateCall, by_update, by_create, Adoption, adopted, absent,
  inconclusive, find_existing, forget_external_id, catalog_fields, get_record, update_remote,
}
use invora_controller.Catalog.Reconcile.{
  fail_synced, finish_sync, adopt_or_create, sync_existing, sync_record, reconcile_resolved,
  reconcile_live, reconcile,
}
use invora_controller.Catalog.Stored.{
  external_id-resolve_org_dependencies, spec-resolve_org_dependencies,
}
use invora_controller.Catalog.Creates.{
  creates, creates-find_existing, creates-delete_record, creates-import_existing,
}

abbrev pub IsInPlace : {C U : Type 0} → UpdateCall C U → Type 0
IsInPlace (by_update _) = Unit
IsInPlace (by_create _) = ⊥

pub Adoption-cases :
    (a : Adoption)
    → (a ≡ absent) ⊎ (((id : String) × (a ≡ adopted id)) ⊎ ((e : Error) × (a ≡ inconclusive e)))
Adoption-cases absent = inl refl
Adoption-cases (adopted id) = inr (inl (id, refl))
Adoption-cases (inconclusive e) = inr (inr (e, refl))

module _ {S C U : Type 0} (k : Catalog S C U) (svc : Service (Cr S CatalogStatus) C U)
    (env : Env (Cr S CatalogStatus) (CatalogRpc C U)) where
  abbrev State : Type 0
  State = Log (Cr S CatalogStatus) (CatalogRpc C U)

  -- The log after the Get of a record.
  abbrev pub after_get : OrgContext → Cr S CatalogStatus → State → State
  after_get orc o l = Call.rpc orc.conn (grpc_ctx orc) (get_record (k.get_key o)) ∷ l

  -- With a log that is reached, no record of an object is known by its external id: either the id
  -- is empty, and nothing was called yet, or the service has answered the Get of the object, the
  -- one call that was made, with NotFound.
  abbrev pub IsUnknown : OrgContext → Cr S CatalogStatus → String → State → State → Type 0
  IsUnknown orc o id l at =
      ((id ≡ "") × (at ≡ l))
      ⊎ ((e : Error) × (at ≡ after_get orc o l)
          × (svc.get (k.get_key o) at ≡ some e)
          × (is_grpc_not_found e ≡ true))

  -- No record of an object is known, and the look for one with its key finds none.
  abbrev pub Looked : OrgContext → Cr S CatalogStatus → String → String → State → Type 0
  Looked orc o id key l =
      (at : State) × IsUnknown orc o id l at
      × ((find_existing k svc k.strategy orc key at).0 ≡ absent)

  abbrev pub resolution : Cr S CatalogStatus → State → (Dependencies × Cr S CatalogStatus) × State
  resolution o l =
      resolve_org_dependencies env (k.organization_ref o.spec) o (conditions_of catalog_fields)
        o.meta.generation l

  -- The object that is read has its organization resolved, and then, by its external id and by its
  -- key, no record is found. The resolution sets a condition of the object before the Get of it.
  abbrev pub Probed : NamespacedName → State → Type 0
  Probed name l =
      let l' : State = Call.get Kind.own_kind name ∷ l in
      (o : Cr S CatalogStatus) × (orc : OrgContext) × (env.get_own l name ≡ ok o)
      × ((resolution o l').0.0 ≡ resolved orc)
      × Looked orc (resolution o l').0.1 o.status.external_id (k.key o.spec) (resolution o l').1

  creates-adopt_or_create_inconclusive :
      (orc : OrgContext) (o : Cr S CatalogStatus) (l : Log (Cr S CatalogStatus) (CatalogRpc C U))
      (e : Error)
      → (find_existing k svc k.strategy orc (k.key o.spec) l).0 ≡ inconclusive e
      → creates (adopt_or_create k svc env orc o l).1 ≡ creates l
  unfolding adopt_or_create fail_synced
  creates-adopt_or_create_inconclusive orc o l e h =
      ground (arith, creates-find_existing k svc env k.strategy orc (k.key o.spec) l)

  creates-adopt_or_create_adopted :
      (orc : OrgContext) (o : Cr S CatalogStatus) (l : Log (Cr S CatalogStatus) (CatalogRpc C U))
      (id : String)
      → (find_existing k svc k.strategy orc (k.key o.spec) l).0 ≡ adopted id
      → creates (adopt_or_create k svc env orc o l).1 ≡ creates l
  unfolding adopt_or_create finish_sync
  creates-adopt_or_create_adopted orc o l id h =
      ground (arith, creates-find_existing k svc env k.strategy orc (k.key o.spec) l)

  adopt_or_create-absent :
      (orc : OrgContext) (o : Cr S CatalogStatus) (l : State)
      → (creates (adopt_or_create k svc env orc o l).1 ≡ creates l)
        ⊎ ((find_existing k svc k.strategy orc (k.key o.spec) l).0 ≡ absent)
  adopt_or_create-absent orc o l =
      elim (Adoption-cases (find_existing k svc k.strategy orc (k.key o.spec) l).0) [
        | inl none_found ↦ inr none_found
        | inr (inl (id, found)) ↦ inl (creates-adopt_or_create_adopted orc o l id found)
        | inr (inr (e, failed)) ↦ inl (creates-adopt_or_create_inconclusive orc o l e failed)
      ]

  creates-sync_existing_in_place :
      (orc : OrgContext) (o : Cr S CatalogStatus) (l : Log (Cr S CatalogStatus) (CatalogRpc C U))
      → IsInPlace (k.update_call o)
      → creates (sync_existing k svc env orc o l).1 ≡ creates l
  unfolding sync_existing update_remote fail_synced finish_sync
  creates-sync_existing_in_place orc o l h = ground arith

  module _ (in_place : (o : Cr S CatalogStatus) → IsInPlace (k.update_call o)) where
    sync_record-Looked :
        (orc : OrgContext) (o : Cr S CatalogStatus) (l : State)
        → (creates (sync_record k svc env orc o l).1 ≡ creates l)
          ⊎ Looked orc o o.status.external_id (k.key o.spec) l
    unfolding sync_record fail_synced
    sync_record-Looked orc o l =
        let asked = after_get orc o l in
        elim (Bool-cases (o.status.external_id == "")) [
          | inl unset ↦ rw unset (elim (adopt_or_create-absent orc o l) [
            | inl same ↦ inl same
            | inr none_found ↦ inr (l, inl ((eq_iff _ _).0 unset, refl), none_found)
          ])
          | inr known ↦ elim (Option-cases (svc.get (k.get_key o) asked)) [
            | inl found ↦
                rw (known, found) (inl (creates-sync_existing_in_place orc o asked (in_place o)))
            | inr (e, failed) ↦ elim (Bool-cases (is_grpc_not_found e)) [
              | inl gone ↦
                  rw (known, failed, gone)
                    (elim (adopt_or_create-absent orc (forget_external_id o) asked) [
                      | inl same ↦ inl same
                      | inr none_found ↦ inr (asked, inr (e, refl, failed, gone), none_found)
                    ])
              | inr other ↦ inl (ground arith)
            ]
          ]
        ]

    reconcile_resolved-Looked :
        (orc : OrgContext) (o : Cr S CatalogStatus) (l : State)
        → (creates (reconcile_resolved k svc env orc o l).1 ≡ creates l)
          ⊎ Looked orc o o.status.external_id (k.key o.spec) l
    unfolding reconcile_resolved
    reconcile_resolved-Looked orc o l = elim (Bool-cases (get_import_id o.meta == "")) [
      | inl none_given ↦ rw none_given (sync_record-Looked orc o l)
      | inr given ↦ rw given (inl (creates-import_existing k svc env o (get_import_id o.meta) l))
    ]

    Looked-same :
        (orc : OrgContext) (o : Cr S CatalogStatus) (id id' key key' : String) (l : State)
        → id ≡ id'
        → key ≡ key'
        → Looked orc o id key l
        → Looked orc o id' key' l
    Looked-same orc o id id' key key' l same same' (at, unknown, none_found) =
        (at, rw (← same) unknown, rw (← same') none_found)

    Looked-resolve :
        (orc : OrgContext) (o : Cr S CatalogStatus) (l : State)
        → (resolution o l).0.0 ≡ resolved orc
        → (creates (reconcile_resolved k svc env orc (resolution o l).0.1 (resolution o l).1).1
            ≡ creates l)
          ⊎ Looked orc (resolution o l).0.1 o.status.external_id (k.key o.spec) (resolution o l).1
    Looked-resolve orc o l p =
        let deps = resolution o l in
        let quiet : creates deps.1 ≡ creates l = ground (
          arith,
          rpcs-resolve_org_dependencies env (k.organization_ref o.spec) o
              (conditions_of catalog_fields) o.meta.generation l,
        ) in
        let id =
          external_id-resolve_org_dependencies env (k.organization_ref o.spec) o o.meta.generation l
            orc p in
        let spec =
          spec-resolve_org_dependencies env (k.organization_ref o.spec) o o.meta.generation l orc
            p in
        elim (reconcile_resolved-Looked orc deps.0.1 deps.1) [
          | inl same ↦ inl (same ∙ quiet)
          | inr looked ↦ inr (
              Looked-same orc deps.0.1 deps.0.1.status.external_id o.status.external_id
                (k.key deps.0.1.spec) (k.key o.spec) deps.1 id (ap (λ t. k.key t) spec) looked)
        ]

    reconcile_live-Looked :
        (o : Cr S CatalogStatus) (l : State)
        → (creates (reconcile_live k svc env o l).1 ≡ creates l)
          ⊎ ((orc : OrgContext) × ((resolution o l).0.0 ≡ resolved orc)
              × Looked orc
                  (resolution o l).0.1
                  o.status.external_id
                  (k.key o.spec)
                  (resolution o l).1)
    unfolding reconcile_live ensure_finalizer
    reconcile_live-Looked o l =
        let deps = resolution o l in
        let quiet : creates deps.1 ≡ creates l = ground (
          arith,
          rpcs-resolve_org_dependencies env (k.organization_ref o.spec) o
              (conditions_of catalog_fields) o.meta.generation l,
        ) in
        elim (Bool-cases (env.platform.contains_finalizer o.meta finalizer_name)) [
          | inr fresh ↦ inl (ground (arith, fresh))
          | inl present ↦ elim (Dependencies-cases deps.0.0) [
            | inl (result, p) ↦ inl (ground (arith, quiet, present, p))
            | inr (orc, p) ↦ elim (Looked-resolve orc o l p) [
              | inl same ↦ inl (ground (arith, present, p, same))
              | inr looked ↦ inr (orc, p, looked)
            ]
          ]
        ]

    -- A reconcile that calls Create has resolved the organization of the object that it has read,
    -- and has then found no record of it, neither by its external id nor by its key.
    pub reconcile-Probed :
        (name : NamespacedName) (l : State)
        → (creates (reconcile k svc env name l).1 ≡ creates l) ⊎ Probed name l
    unfolding reconcile
    reconcile-Probed name l =
        let l' = Call.get Kind.own_kind name ∷ l in
        elim (Result-cases (env.get_own l name)) [
          | inl (e, p) ↦ rw p (inl refl)
          | inr (o, p) ↦ elim (Bool-cases (is_deleted o.meta)) [
            | inl gone ↦ rw (p, gone) (inl (creates-delete_record k svc env o l'))
            | inr live ↦
                rw (p, live)
                  (elim (reconcile_live-Looked o l') [
                    | inl same ↦ inl same
                    | inr (orc, q, looked) ↦ inr (o, orc, refl, q, looked)
                  ])
          ]
        ]
