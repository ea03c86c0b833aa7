-- ===== src/Catalog/Paging.antt =====
-- The adopt-by-code walk against a service that serves a list of records in pages.
use invora_controller.Prelude.{
  ℕ, zero, suc, ◌≤◌, String, ◌≡◌, refl, ◌≢◌, Option, none, some, List, [], ◌∷◌, ◌++◌, arith, length,
  eq_iff, Option-cases, inl, inr, ◌==◌, eqb, false, id_or_empty,
}
use invora_controller.Go.{M, Result, ok}
use invora_controller.Api.{Cr, CatalogStatus}
use invora_controller.Cluster.{Call, Log}
use invora_controller.Base.{OrgContext, grpc_ctx}
use invora_controller.AdoptByCode.{adopt_pagination, scan_page, scan_from, scan_pages_for_code}
use invora_controller.Catalog.{
  CatalogRpc, list_page, Service, Catalog, Item, find_key, page_probe, probe_page,
}

abbrev pub all_items : List (List Item) → List Item
all_items [] = []
all_items (page ∷ pages) = page ++ all_items pages

abbrev pub or_else : Option String → Option String → Option String
or_else none later = later
or_else (some id) later = some id

find_key-append :
    (key : String) (xs ys : List Item)
    → find_key key (xs ++ ys) ≡ or_else (find_key key xs) (find_key key ys)
unfolding find_key
find_key-append key [] ys = refl
find_key-append key (x ∷ xs) ys = ground (arith, find_key-append key xs ys)

page_probe_missing :
    (key : String) (page : List Item) (next : String)
    → find_key key page ≡ none
    → page_probe key (record { items = page; next_page_cursor = next })
      ≡ record { match_id = ""; next = next; count = length page }
unfolding page_probe
page_probe_missing key page next h = ground arith

page_probe_found :
    (key : String) (page : List Item) (next id : String)
    → find_key key page ≡ some id
    → page_probe key (record { items = page; next_page_cursor = next })
      ≡ record { match_id = id; next = ""; count = 0 }
unfolding page_probe
page_probe_found key page next id h = ground arith

count_pos : (xs : List Item) → xs ≢ [] → length xs ≢ 0
count_pos [] h = absurd (h refl)
count_pos (x ∷ xs) h = omega arith

scan_page_next :
    {L : Type 0} (next cursor : String) (n : ℕ) (again : String → M L (Result String)) (l : L)
    → next ≢ ""
    → next ≢ cursor
    → n ≢ 0
    → scan_page (ok (record { match_id = ""; next = next; count = n })) cursor again l
      ≡ again next l
unfolding scan_page
scan_page_next next cursor n again l more moves full =
    let p : (next == "") ≡ false = ground (arith, eq_iff next "") in
    let q : (next == cursor) ≡ false = ground (arith, eq_iff next cursor) in
    let r : eqb n 0 ≡ false = ground arith in rw (p, q, r) refl

module _ {S C U : Type 0} (k : Catalog S C U) (svc : Service (Cr S CatalogStatus) C U) where
  abbrev asked :
      OrgContext
      → String
      → Log (Cr S CatalogStatus) (CatalogRpc C U)
      → Log (Cr S CatalogStatus) (CatalogRpc C U)
  asked orc cursor l =
      Call.rpc orc.conn (grpc_ctx orc) (list_page (some (adopt_pagination cursor))) ∷ l

  -- Whatever was called before, the list answers a cursor by this page and this next cursor.
  abbrev pub Answers : String → List Item → String → Type 0
  Answers cursor page next =
      (l : Log (Cr S CatalogStatus) (CatalogRpc C U))
      → svc.list (some (adopt_pagination cursor)) l
        ≡ ok (record { items = page; next_page_cursor = next })

  -- From a cursor on the service serves these pages: each but the last has records, and a cursor to
  -- the next one that is not its own.
  abbrev pub Serves : String → List (List Item) → Type 0
  Serves cursor [] = ⊥
  Serves cursor (page ∷ []) = Answers cursor page ""
  Serves cursor (page ∷ (page' ∷ pages)) =
      (next : String) × Answers cursor page next
      × (next ≢ "")
      × (next ≢ cursor)
      × (page ≢ [])
      × Serves next (page' ∷ pages)

  probe_page_missing :
      (orc : OrgContext) (key cursor next : String) (page : List Item)
      (l : Log (Cr S CatalogStatus) (CatalogRpc C U))
      → Answers cursor page next
      → find_key key page ≡ none
      → probe_page k svc orc key cursor l
        ≡ (ok (record { match_id = ""; next = next; count = length page }), asked orc cursor l)
  unfolding probe_page
  probe_page_missing orc key cursor next page l answers h =
      rw (answers (asked orc cursor l), page_probe_missing key page next h)

  probe_page_found :
      (orc : OrgContext) (key cursor next id : String) (page : List Item)
      (l : Log (Cr S CatalogStatus) (CatalogRpc C U))
      → Answers cursor page next
      → find_key key page ≡ some id
      → probe_page k svc orc key cursor l
        ≡ (ok (record { match_id = id; next = ""; count = 0 }), asked orc cursor l)
  unfolding probe_page
  probe_page_found orc key cursor next id page l answers h =
      rw (answers (asked orc cursor l), page_probe_found key page next id h)

  scan_from_found :
      (orc : OrgContext) (key cursor next id : String) (page : List Item) (fuel : ℕ)
      (l : Log (Cr S CatalogStatus) (CatalogRpc C U))
      → Answers cursor page next
      → find_key key page ≡ some id
      → (scan_from key (probe_page k svc orc key) (suc fuel) cursor l).0 ≡ ok id
  unfolding scan_from scan_page
  scan_from_found orc key cursor next id page fuel l answers h =
      rw (probe_page_found orc key cursor next id page l answers h) (ground (arith, eq_iff id ""))

  scan_from_last :
      (orc : OrgContext) (key cursor : String) (page : List Item) (fuel : ℕ)
      (l : Log (Cr S CatalogStatus) (CatalogRpc C U))
      → Answers cursor page ""
      → find_key key page ≡ none
      → (scan_from key (probe_page k svc orc key) (suc fuel) cursor l).0 ≡ ok ""
  unfolding scan_from scan_page
  scan_from_last orc key cursor page fuel l answers h =
      rw (probe_page_missing orc key cursor "" page l answers h) refl

  scan_from_next :
      (orc : OrgContext) (key cursor next : String) (page : List Item) (fuel : ℕ)
      (l : Log (Cr S CatalogStatus) (CatalogRpc C U))
      → Answers cursor page next
      → find_key key page ≡ none
      → next ≢ ""
      → next ≢ cursor
      → page ≢ []
      → scan_from key (probe_page k svc orc key) (suc fuel) cursor l
        ≡ scan_from key (probe_page k svc orc key) fuel next (asked orc cursor l)
  unfolding scan_from
  scan_from_next orc key cursor next page fuel l answers h more moves full =
      rw (probe_page_missing orc key cursor next page l answers h) (
        scan_page_next next cursor (length page) (scan_from key (probe_page k svc orc key) fuel)
          (asked orc cursor l) more moves (count_pos page full))

  scan_from-Serves :
      (orc : OrgContext) (key : String) (pages : List (List Item)) (fuel : ℕ) (cursor : String)
      (l : Log (Cr S CatalogStatus) (CatalogRpc C U))
      → Serves cursor pages
      → length pages ≤ fuel
      → (scan_from key (probe_page k svc orc key) fuel cursor l).0
        ≡ ok (id_or_empty (find_key key (all_items pages)))
  unfolding find_key
  scan_from-Serves orc key [] fuel cursor l h fits = absurd h
  scan_from-Serves orc key (page ∷ pages) zero cursor l h fits = absurd (omega arith)
  scan_from-Serves orc key (page ∷ []) (suc fuel) cursor l answers fits =
      elim (Option-cases (find_key key page)) [
        | inl missing ↦
            rw (find_key-append key page [], missing)
              (scan_from_last orc key cursor page fuel l answers missing)
        | inr (id, found) ↦
            rw (find_key-append key page [], found)
              (scan_from_found orc key cursor "" id page fuel l answers found)
      ]
  scan_from-Serves orc key (page ∷ (page' ∷ pages)) (suc fuel) cursor l
        (next, answers, more, moves, full, rest) fits =
      elim (Option-cases (find_key key page)) [
        | inl missing ↦
            rw
              (
                scan_from_next orc key cursor next page fuel l answers missing more moves full,
                find_key-append key page (all_items (page' ∷ pages)),
                missing,
              )
              (scan_from-Serves orc key (page' ∷ pages) fuel next (asked orc cursor l) rest
                (omega arith))
        | inr (id, found) ↦
            rw (find_key-append key page (all_items (page' ∷ pages)), found)
              (scan_from_found orc key cursor next id page fuel l answers found)
      ]

  -- Where the service serves at most 50 pages of records, the adopt-by-code walk ends without an
  -- error and finds the id of the first record, over all the pages, that has the key; it ends with
  -- no id when there is none.
  pub scan_pages_for_code-Serves :
      (orc : OrgContext) (key : String) (pages : List (List Item))
      (l : Log (Cr S CatalogStatus) (CatalogRpc C U))
      → Serves "" pages
      → length pages ≤ 50
      → (scan_pages_for_code key (probe_page k svc orc key) l).0
        ≡ ok (id_or_empty (find_key key (all_items pages)))
  unfolding scan_pages_for_code
  scan_pages_for_code-Serves orc key pages l h fits = scan_from-Serves orc key pages 50 "" l h fits
