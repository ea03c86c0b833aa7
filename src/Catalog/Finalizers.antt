-- ===== src/Catalog/Finalizers.antt =====
-- The finalizer of a catalog resource, and its calls of the gateway.
use invora_controller.Prelude.{inl, inr, ◌≡◌, ◌⊎◌, refl, arith, true, false, ◌∷◌, Bool-cases}
use invora_controller.Go.{ok, Result-cases}
use invora_controller.Api.{NamespacedName, Cr, CatalogStatus, is_deleted, finalizer_name}
use invora_controller.Cluster.{Call, Kind, Log, Env, rpcs}
use invora_controller.Resource.{ensure_finalizer}
use invora_controller.Catalog.{CatalogRpc, Service, Catalog}
use invora_controller.Catalog.Reconcile.{reconcile, reconcile_live}

module _ {S C U : Type 0} (k : Catalog S C U) (svc : Service (Cr S CatalogStatus) C U)
    (env : Env (Cr S CatalogStatus) (CatalogRpc C U)) where
  pub rpcs-reconcile_live_fresh :
      (o : Cr S CatalogStatus) (l : Log (Cr S CatalogStatus) (CatalogRpc C U))
      → env.platform.contains_finalizer o.meta finalizer_name ≡ false
      → rpcs (reconcile_live k svc env o l).1 ≡ rpcs l
  unfolding reconcile_live ensure_finalizer
  rpcs-reconcile_live_fresh o l fresh = ground (arith, fresh)

  -- A reconcile that calls the gateway has read an object that is being deleted, or that already
  -- carries the finalizer: no record is created for an object whose deletion would not wait.
  pub rpcs-reconcile_finalizer :
      (name : NamespacedName) (l : Log (Cr S CatalogStatus) (CatalogRpc C U))
      → (rpcs (reconcile k svc env name l).1 ≡ rpcs l)
        ⊎ ((o : Cr S CatalogStatus) × (env.get_own l name ≡ ok o)
            × ((is_deleted o.meta ≡ true)
                ⊎ (env.platform.contains_finalizer o.meta finalizer_name ≡ true)))
  unfolding reconcile
  rpcs-reconcile_finalizer name l = elim (Result-cases (env.get_own l name)) [
    | inl (e, failed) ↦ inl (rw failed refl)
    | inr (o, got) ↦ elim (Bool-cases (is_deleted o.meta)) [
      | inl deleted ↦ inr (o, got, inl deleted)
      | inr live ↦ elim (Bool-cases (env.platform.contains_finalizer o.meta finalizer_name)) [
        | inl carried ↦ inr (o, got, inr carried)
        | inr fresh ↦
            inl
              (rw (got, live) (rpcs-reconcile_live_fresh o (Call.get Kind.own_kind name ∷ l) fresh))
      ]
    ]
  ]
