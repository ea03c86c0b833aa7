-- ===== src/Catalog/Duplicates.antt =====
-- Reconcile of a resource that is looked for by scanPagesForCode, and the records that exist.
use invora_controller.Prelude.{
  inl, inr, String, ◌≡◌, ◌⊎◌, List, arith, eq_iff, length, ◌≤◌, id_or_empty, ◌∷◌,
}
use invora_controller.Go.{Result-cases, ok}
use invora_controller.Api.{NamespacedName, Cr, CatalogStatus}
use invora_controller.Cluster.{Call, Kind, Log, Env}
use invora_controller.Base.{OrgContext}
use invora_controller.Resource.{resolved}
use invora_controller.AdoptByCode.{scan_pages_for_code}
use invora_controller.Catalog.{
  CatalogRpc, Service, Catalog, Item, by_scan, absent, find_existing, find_key, probe_page,
}
use invora_controller.Catalog.Reconcile.{reconcile}
use invora_controller.Catalog.Creates.{creates}
use invora_controller.Catalog.Probed.{IsInPlace, IsUnknown, resolution, reconcile-Probed}
use invora_controller.Catalog.Paging.{Serves, all_items, scan_pages_for_code-Serves}

module _ {S C U : Type 0} (k : Catalog S C U) (svc : Service (Cr S CatalogStatus) C U)
    (env : Env (Cr S CatalogStatus) (CatalogRpc C U)) (scans : k.strategy ≡ by_scan)
    (in_place : (o : Cr S CatalogStatus) → IsInPlace (k.update_call o)) where
  abbrev State : Type 0
  State = Log (Cr S CatalogStatus) (CatalogRpc C U)

  find_existing_by_scan :
      (orc : OrgContext) (key : String) (l : Log (Cr S CatalogStatus) (CatalogRpc C U))
      → (find_existing k svc by_scan orc key l).0 ≡ absent
      → (scan_pages_for_code key (probe_page k svc orc key) l).0 ≡ ok ""
  unfolding find_existing
  find_existing_by_scan orc key l h =
      let found = scan_pages_for_code key (probe_page k svc orc key) l in
      elim (Result-cases found.0) [
        | inl (e, p) ↦ absurd (ground (arith, p))
        | inr (id, p) ↦ ground (arith, p, eq_iff id "")
      ]

  -- The object that is read has its organization resolved, its external id is empty or the Get of
  -- its record, the one call that was made, was answered NotFound, and then the walk over the pages
  -- of the organization ends with no error and no record of its key.
  abbrev pub Walked : NamespacedName → State → Type 0
  Walked name l =
      let l' : State = Call.get Kind.own_kind name ∷ l in
      (o : Cr S CatalogStatus) × (orc : OrgContext) × (at : State) × (env.get_own l name ≡ ok o)
      × ((resolution k svc env o l').0.0 ≡ resolved orc)
      × IsUnknown k svc env orc (resolution k svc env o l').0.1 o.status.external_id
          (resolution k svc env o l').1 at
      × ((scan_pages_for_code (k.key o.spec) (probe_page k svc orc (k.key o.spec)) at).0 ≡ ok "")

  -- Of a resource that is looked for by scanPagesForCode and updated by an Update call, a reconcile
  -- that calls Create has read the resource and resolved its organization; the external id that was
  -- read is empty, or the gateway has answered the Get of the record with NotFound; and the walk
  -- over the pages for the resource's key that came next has ended with no error and no record.
  pub reconcile-Walked :
      (name : NamespacedName) (l : State)
      → (creates (reconcile k svc env name l).1 ≡ creates l) ⊎ Walked name l
  reconcile-Walked name l = elim (reconcile-Probed k svc env in_place name l) [
    | inl same ↦ inl same
    | inr (o, orc, got, resolves, (at, unknown, none_found)) ↦ inr (
      o,
      orc,
      at,
      got,
      resolves,
      unknown,
      find_existing_by_scan orc (k.key o.spec) at (rw (← scans) none_found),
    )
  ]

  -- Of a resource that is looked for by scanPagesForCode and updated by an Update call, where the
  -- service serves at most 50 pages of records: a reconcile that calls Create has read the resource
  -- with an external id that is empty, or of which the gateway has answered a Get, in this reconcile
  -- and before any other call, with NotFound; and no record has the key of the resource, or only a
  -- first one with an empty id.
  pub reconcile-no_duplicate :
      (pages : List (List Item))
      → Serves k svc "" pages
      → length pages ≤ 50
      → (name : NamespacedName) (l : State)
      → (creates (reconcile k svc env name l).1 ≡ creates l)
        ⊎ ((o : Cr S CatalogStatus) × (orc : OrgContext) × (at : State) × (env.get_own l name
              ≡ ok o)
            × IsUnknown k svc env orc
                (resolution k svc env o (Call.get Kind.own_kind name ∷ l)).0.1
                o.status.external_id
                (resolution k svc env o (Call.get Kind.own_kind name ∷ l)).1
                at
            × (id_or_empty (find_key (k.key o.spec) (all_items pages)) ≡ ""))
  reconcile-no_duplicate pages serves fits name l = elim (reconcile-Walked name l) [
    | inl same ↦ inl same
    | inr (o, orc, at, got, resolves, unknown, walked) ↦ inr (
      o,
      orc,
      at,
      got,
      unknown,
      let e = scan_pages_for_code-Serves k svc orc (k.key o.spec) pages at serves fits in
          ground (arith, walked, e),
    )
  ]
