-- ===== src/Catalog/Stored.antt =====
-- An API server that stores the status of a catalog resource, and the records that its gateway
-- service has created.
use invora_controller.Prelude.{
  ℕ, String, ◌≡◌, ◌≢◌, ◌⊎◌, inl, inr, refl, Bool, true, false, none, some, List, [], ◌∷◌, ◌==◌,
  ◌&&◌, not, eq_iff, if◌then◌else◌, arith,
}
use mathlib.Core.List.{Memᴰ}
use invora_controller.Go.{Error, ok, err}
use invora_controller.Api.{NamespacedName, Cr, CatalogStatus, ResourceRef}
use invora_controller.Cluster.{Call, Log, Env}
use invora_controller.Base.{OrgContext, is_grpc_not_found}
use invora_controller.Resource.{Dependencies, resolved, conditions_of, resolve_org_dependencies}
use invora_controller.Catalog.{CatalogRpc, Service, Catalog, catalog_fields}

-- The external id that the API server holds after the calls of a log, from the one that it held
-- before them: the id in the last write of the status. An Update of the object leaves its status.
abbrev pub held : {S C U : Type 0} → String → Log (Cr S CatalogStatus) (CatalogRpc C U) → String
held id0 [] = id0
held id0 (Call.update_status o ∷ l) = o.status.external_id
held id0 (_ ∷ l) = held id0 l

-- What the API server does with the status subresource of the object of a name: a read finds the
-- last write, a write of the status is accepted, and an Update of the object that is accepted
-- answers with the status that is held.
pub record StoresStatus {S C U : Type 0} (env : Env (Cr S CatalogStatus) (CatalogRpc C U))
    (name : NamespacedName) (id0 : String) : Type 0 where
  pub reads :
      (l : Log (Cr S CatalogStatus) (CatalogRpc C U)) (o : Cr S CatalogStatus)
      → env.get_own l name ≡ ok o
      → o.status.external_id ≡ held id0 l
  pub writes :
      (l : Log (Cr S CatalogStatus) (CatalogRpc C U)) (o : Cr S CatalogStatus)
      → (o' : Cr S CatalogStatus) × (env.update_status l o ≡ ok o')
        × (o'.status.external_id ≡ o.status.external_id)
  pub updates :
      (l : Log (Cr S CatalogStatus) (CatalogRpc C U)) (o o' : Cr S CatalogStatus)
      → env.update l o ≡ ok o'
      → o'.status.external_id ≡ held id0 l

-- The ids of a list but one.
abbrev pub remove : String → List String → List String
remove id [] = []
remove id (r ∷ rs) = let rest = remove id rs in if r == id then rest else r ∷ rest

-- The records that the service has created in a log and not deleted, by their ids: a Create that is
-- answered without an error adds the id of the answer, and a Delete that is removes its id.
abbrev pub records : {O C U : Type 0} → Service O C U → Log O (CatalogRpc C U) → List String
records svc [] = []
records svc (Call.rpc conn headers (CatalogRpc.create c) ∷ l) =
    let rs = records svc l in
    elim (svc.create c (Call.rpc conn headers (CatalogRpc.create c) ∷ l)) [
      | ok id ↦ id ∷ rs
      | err _ ↦ rs
    ]
records svc (Call.rpc conn headers (CatalogRpc.delete_by_id id) ∷ l) =
    let rs = records svc l in
    elim (svc.delete id (Call.rpc conn headers (CatalogRpc.delete_by_id id) ∷ l)) [
      | none ↦ remove id rs
      | some _ ↦ rs
    ]
records svc (_ ∷ l) = records svc l

-- What the gateway does: a record that it creates has an id, and a Get for an object that has the id
-- of a record that was created and not deleted is not answered NotFound.
pub record KeepsRecords {S C U : Type 0} (k : Catalog S C U)
    (svc : Service (Cr S CatalogStatus) C U) : Type 0 where
  pub has_id :
      (c : C) (l : Log (Cr S CatalogStatus) (CatalogRpc C U)) (id : String)
      → svc.create c l ≡ ok id
      → (id == "") ≡ false
  pub finds :
      (o : Cr S CatalogStatus) (l : Log (Cr S CatalogStatus) (CatalogRpc C U)) (e : Error)
      → Memᴰ o.status.external_id (records svc l)
      → svc.get (k.get_key o) l ≡ some e
      → is_grpc_not_found e ≡ false

-- Whether an id accounts for a list of records: it has none, or the one with the id.
abbrev pub accounts : String → List String → Bool
accounts id [] = true
accounts id (r ∷ []) = r == id && not (id == "")
accounts id (r ∷ (r' ∷ rs)) = false

pub accounts-remove :
    (id gone : String) (rs : List String)
    → accounts id rs ≡ true
    → accounts id (remove gone rs) ≡ true
accounts-remove id gone [] h = refl
accounts-remove id gone (r ∷ []) h = ground (arith, h)
accounts-remove id gone (r ∷ (r' ∷ rs)) h = absurd (ground (arith, h))

-- None, or the one with the id, which is not empty.
pub accounts-cases :
    (id : String) (rs : List String)
    → accounts id rs ≡ true
    → (rs ≡ []) ⊎ ((rs ≡ id ∷ []) × (id ≢ ""))
accounts-cases id [] h = inl refl
accounts-cases id (r ∷ []) h =
    let same : r ≡ id = ground (arith, h, eq_iff r id) in
    inr (rw same refl, ground (arith, h, eq_iff id ""))
accounts-cases id (r ∷ (r' ∷ rs)) h = absurd (ground (arith, h))

module _ {S C U : Type 0} (svc : Service (Cr S CatalogStatus) C U) where
  -- The external id of an object accounts for the records.
  abbrev pub Fits : Cr S CatalogStatus → Log (Cr S CatalogStatus) (CatalogRpc C U) → Type 0
  Fits o l = accounts o.status.external_id (records svc l) ≡ true

  -- The same of the id that the API server holds.
  abbrev pub Accounted : String → Log (Cr S CatalogStatus) (CatalogRpc C U) → Type 0
  Accounted id0 l = accounts (held id0 l) (records svc l) ≡ true

-- The resolution of the organization leaves the id in the object of a caller that goes on, and
-- where it is held, and creates and deletes no record.
module _ {S C U : Type 0} (env : Env (Cr S CatalogStatus) (CatalogRpc C U)) (ref : ResourceRef)
    (o : Cr S CatalogStatus) (generation : ℕ) (l : Log (Cr S CatalogStatus) (CatalogRpc C U)) where
  abbrev deps : (Dependencies × Cr S CatalogStatus) × Log (Cr S CatalogStatus) (CatalogRpc C U)
  deps = resolve_org_dependencies env ref o (conditions_of catalog_fields) generation l

  pub external_id-resolve_org_dependencies :
      (orc : OrgContext)
      → deps.0.0 ≡ resolved orc
      → deps.0.1.status.external_id ≡ o.status.external_id
  unfolding resolve_org_dependencies
  external_id-resolve_org_dependencies orc h = ground arith

  pub meta-resolve_org_dependencies :
      (orc : OrgContext) → deps.0.0 ≡ resolved orc → deps.0.1.meta ≡ o.meta
  unfolding resolve_org_dependencies
  meta-resolve_org_dependencies orc h = ground arith

  pub spec-resolve_org_dependencies :
      (orc : OrgContext) → deps.0.0 ≡ resolved orc → deps.0.1.spec ≡ o.spec
  unfolding resolve_org_dependencies
  spec-resolve_org_dependencies orc h = ground arith

  pub held-resolve_org_dependencies :
      (id0 : String) → o.status.external_id ≡ held id0 l → held id0 deps.1 ≡ held id0 l
  unfolding resolve_org_dependencies
  held-resolve_org_dependencies id0 same = ground arith

  pub records-resolve_org_dependencies :
      (svc : Service (Cr S CatalogStatus) C U) → records svc deps.1 ≡ records svc l
  unfolding resolve_org_dependencies
  records-resolve_org_dependencies svc = ground arith
