-- ===== src/Catalog/Accounts.antt =====
-- The steps of a reconcile of a catalog resource, and the records that they create.
use invora_controller.Prelude.{
  inl, inr, String, ◌≡◌, refl, ◌∙◌, ◌∷◌, ◌==◌, eq_refl, arith, Option-cases, Bool-cases, eq_iff,
  List, [], some, true,
}
use invora_controller.Go.{ℤ, Error, seconds, Result-cases}
use mathlib.Core.List.{Memᴰ}
use mathlib.Core.List.Memᴰ.{head}
use invora_controller.Api.{NamespacedName, Cr, CatalogStatus}
use invora_controller.Cluster.{Call, Log, Env}
use invora_controller.Base.{OrgContext, is_grpc_not_found, grpc_ctx, get_import_id}
use invora_controller.AdoptByCode.Walk.{scan_keeps}
use invora_controller.Resource.{finish_deletion}
use invora_controller.Catalog.{
  CatalogRpc, Service, Catalog, StatusCheck, AdoptStrategy, never, by_list, by_scan, probe_page,
  find_existing, update_remote, forget_external_id, set_external_id, get_record,
}
use invora_controller.Catalog.Probed.{IsInPlace}
use invora_controller.Catalog.Stored.{
  StoresStatus, KeepsRecords, records, accounts, accounts-cases, Fits, Accounted,
}
use invora_controller.Catalog.Reconcile.{
  fail_synced, finish_sync, create_record, adopt_or_create, sync_existing, sync_record,
  reconcile_resolved,
}

pub Accounted-finish_deletion :
    {S C U : Type 0} (svc : Service (Cr S CatalogStatus) C U)
    (env : Env (Cr S CatalogStatus) (CatalogRpc C U)) (id0 : String) (o : Cr S CatalogStatus)
    (l : Log (Cr S CatalogStatus) (CatalogRpc C U))
    → Accounted svc id0 l
    → Accounted svc id0 (finish_deletion env o l).1
unfolding finish_deletion
Accounted-finish_deletion svc env id0 o l h = ground arith

module _ {S C U : Type 0} (k : Catalog S C U) (svc : Service (Cr S CatalogStatus) C U)
    (env : Env (Cr S CatalogStatus) (CatalogRpc C U))
    (in_place : (o : Cr S CatalogStatus) → IsInPlace (k.update_call o)) (keeps : KeepsRecords k svc)
    (name : NamespacedName) (id0 : String) (stores : StoresStatus env name id0) where
  abbrev State : Type 0
  State = Log (Cr S CatalogStatus) (CatalogRpc C U)

  Accounted-fail_synced :
      (o : Cr S CatalogStatus) (reason message : String) (d : ℤ) (l : State)
      → Fits svc o l
      → Accounted svc id0 (fail_synced k svc env o reason message d l).1
  unfolding fail_synced
  Accounted-fail_synced o reason message d l h = h

  Accounted-finish_sync :
      (check : StatusCheck) (o : Cr S CatalogStatus) (reason : String) (l : State)
      → Fits svc o l
      → Accounted svc id0 (finish_sync k svc env check o reason l).1
  unfolding finish_sync
  Accounted-finish_sync check o reason l h = ground arith

  records-probe_page :
      (orc : OrgContext) (key cursor : String) (l : State)
      → records svc (probe_page k svc orc key cursor l).1 ≡ records svc l
  unfolding probe_page
  records-probe_page orc key cursor l = ground arith

  records-find_existing :
      (s : AdoptStrategy) (orc : OrgContext) (key : String) (l : State)
      → records svc (find_existing k svc s orc key l).1 ≡ records svc l
  unfolding find_existing
  records-find_existing never orc key l = refl
  records-find_existing by_list orc key l = ground arith
  records-find_existing by_scan orc key l = ground (
    arith,
    scan_keeps key (probe_page k svc orc key) (λ l'. records svc l' ≡ records svc l)
        (λ c l' e. records-probe_page orc key c l' ∙ e) l refl,
  )

  Accounted-create_record :
      (orc : OrgContext) (o : Cr S CatalogStatus) (l : State)
      → records svc l ≡ []
      → Accounted svc id0 (create_record k svc env orc o l).1
  unfolding create_record fail_synced
  Accounted-create_record orc o l none_there =
      let asked = Call.rpc orc.conn (grpc_ctx orc) (CatalogRpc.create (k.create_request o)) ∷ l in
      elim (Result-cases (svc.create (k.create_request o) asked)) [
        | inl (e, p) ↦ ground (arith, p, none_there)
        | inr (id, p) ↦
            let full = keeps.has_id (k.create_request o) asked id p in
            let fits : Fits svc (set_external_id id o) asked =
              let added : records svc asked ≡ id ∷ [] = ground (arith, p, none_there) in
              rw (added, full, eq_refl id) refl in
            rw p
              (Accounted-finish_sync k.created_status (set_external_id id o) "Created" asked fits)
      ]

  Accounted-adopt_or_create :
      (orc : OrgContext) (o : Cr S CatalogStatus) (l : State)
      → records svc l ≡ []
      → Accounted svc id0 (adopt_or_create k svc env orc o l).1
  unfolding adopt_or_create fail_synced finish_sync
  Accounted-adopt_or_create orc o l none_there =
      let found = find_existing k svc k.strategy orc (k.key o.spec) l in
      ground (
        arith,
        none_there,
        records-find_existing k.strategy orc (k.key o.spec) l,
        Accounted-create_record orc o found.1,
      )

  Accounted-sync_existing :
      (orc : OrgContext) (o : Cr S CatalogStatus) (l : State)
      → Fits svc o l
      → Accounted svc id0 (sync_existing k svc env orc o l).1
  unfolding sync_existing update_remote fail_synced finish_sync
  Accounted-sync_existing orc o l h = ground (arith, in_place o)

  -- An object whose Get is answered NotFound, or that has no id, accounts for no record.
  records_without_id :
      (id : String) (rs : List String) → (id == "") ≡ true → accounts id rs ≡ true → rs ≡ []
  records_without_id id rs unset h = elim (accounts-cases id rs h) [
    | inl none_there ↦ none_there
    | inr (one, full) ↦ absurd (full ((eq_iff id "").0 unset))
  ]

  records_not_found :
      (o : Cr S CatalogStatus) (l : State) (e : Error)
      → Fits svc o l
      → svc.get (k.get_key o) l ≡ some e
      → is_grpc_not_found e ≡ true
      → records svc l ≡ []
  records_not_found o l e h failed gone =
      elim (accounts-cases o.status.external_id (records svc l) h) [
        | inl none_there ↦ none_there
        | inr (one, full) ↦
            let there : Memᴰ o.status.external_id (records svc l) = rw one (head refl) in
            let other = keeps.finds o l e there failed in absurd (ground (arith, gone, other))
      ]

  Accounted-sync_record :
      (orc : OrgContext) (o : Cr S CatalogStatus) (l : State)
      → Fits svc o l
      → Accounted svc id0 (sync_record k svc env orc o l).1
  unfolding sync_record fail_synced
  Accounted-sync_record orc o l h =
      let asked = Call.rpc orc.conn (grpc_ctx orc) (get_record (k.get_key o)) ∷ l in
      elim (Bool-cases (o.status.external_id == "")) [
        | inl unset ↦ rw unset (
            Accounted-adopt_or_create orc o l
              (records_without_id o.status.external_id (records svc l) unset h))
        | inr known ↦ elim (Option-cases (svc.get (k.get_key o) asked)) [
          | inl found ↦ rw (known, found) (Accounted-sync_existing orc o asked h)
          | inr (e, failed) ↦ elim (Bool-cases (is_grpc_not_found e)) [
            | inr other ↦
                rw (known, failed, other)
                  (Accounted-fail_synced o "GetFailed" e.text (seconds 10) asked h)
            | inl gone ↦
                rw (known, failed, gone)
                  (Accounted-adopt_or_create orc (forget_external_id o) asked
                    (records_not_found o asked e h failed gone))
          ]
        ]
      ]

  pub Accounted-reconcile_resolved :
      (orc : OrgContext) (o : Cr S CatalogStatus) (l : State)
      → Fits svc o l
      → get_import_id o.meta ≡ ""
      → Accounted svc id0 (reconcile_resolved k svc env orc o l).1
  unfolding reconcile_resolved
  Accounted-reconcile_resolved orc o l h fresh =
      rw (fresh, eq_refl "") (Accounted-sync_record orc o l h)
