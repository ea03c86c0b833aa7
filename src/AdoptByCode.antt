-- ===== src/AdoptByCode.antt =====
-- internal/controller/adopt_by_code.go. The bounded walk takes its rounds as fuel: they are the
-- source's own bound, adoptMaxPages.
pub mod Walk
use invora_controller.Prelude.{
  ℕ, zero, suc, String, ◌<>◌, Option, none, some, Bool, true, false, ◌==◌, ◌||◌, not, eqb,
  if◌then◌else◌,
}
use invora_controller.Go.{errorf, quoted, Result, ok, err, M, ◌>>=◌, pure}

-- kernel.PaginationInfo
pub record PaginationInfo : Type 0 where
  pub limit : ℕ
  pub cursor : Option String

abbrev pub adopt_page_limit : ℕ
adopt_page_limit = 100

abbrev pub adopt_max_pages : ℕ
adopt_max_pages = 50

unfoldable pub adopt_pagination : String → PaginationInfo
adopt_pagination cursor = record {
  limit = adopt_page_limit;
  cursor = if not (cursor == "") then some cursor else none;
}

-- What a probe reports of one page.
pub record PageProbe : Type 0 where
  pub match_id : String
  pub next : String
  pub count : ℕ

-- The body of the loop after the probe: `again` is the next round.
unfoldable pub scan_page :
    {L : Type 0} → Result PageProbe → String → (String → M L (Result String)) → M L (Result String)
scan_page (err e) cursor again = pure (err e)
scan_page (ok page) cursor again =
    if not (page.match_id == "")
    then pure (ok page.match_id)
    else if page.next == "" || eqb page.count 0 || page.next == cursor
    then pure (ok "")
    else again page.next

module _ {L : Type 0} (code : String) (probe : String → M L (Result PageProbe)) where
  unfoldable pub scan_from : ℕ → String → M L (Result String)
  unfolding scan_page
  scan_from zero cursor = pure (
      err (
        errorf (
          "adopt-by-code probe for "
          <> quoted code
          <> " did not terminate within 50 pages; refusing to Create to avoid a duplicate")))
  scan_from (suc pages) cursor = do p ← probe cursor; scan_page p cursor (scan_from pages)

  unfoldable pub scan_pages_for_code : M L (Result String)
  unfolding scan_from
  scan_pages_for_code = scan_from adopt_max_pages ""
