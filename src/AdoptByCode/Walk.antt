-- ===== src/AdoptByCode/Walk.antt =====
-- What the bounded walk of adopt_by_code.go keeps, and what it finds.
use invora_controller.Prelude.{ℕ, zero, suc, String, arith}
use invora_controller.Go.{Result, ok, err, M}
use invora_controller.AdoptByCode.{
  PageProbe, scan_page, scan_from, scan_pages_for_code, adopt_max_pages,
}

module _ {L : Type 0} (P : L → Type 0) where
  scan_page_keeps :
      (r : Result PageProbe) (cursor : String) (again : String → M L (Result String)) (l : L)
      → P l
      → ((c : String) → P (again c l).1)
      → P (scan_page r cursor again l).1
  unfolding scan_page
  scan_page_keeps (err e) cursor again l h step = h
  scan_page_keeps (ok page) cursor again l h step = ground (arith, step page.next)

module _ {L : Type 0} (code : String) (probe : String → M L (Result PageProbe)) (P : L → Type 0)
    (keep : (c : String) (l : L) → P l → P (probe c l).1) where
  -- What every probe keeps, the walk keeps.
  scan_from_keeps :
      (pages : ℕ) (cursor : String) (l : L) → P l → P (scan_from code probe pages cursor l).1
  unfolding scan_from
  scan_from_keeps zero cursor l h = h
  scan_from_keeps (suc pages) cursor l h =
      scan_page_keeps P (probe cursor l).0 cursor (scan_from code probe pages) (probe cursor l).1
        (keep cursor l h) λ c. scan_from_keeps pages c (probe cursor l).1 (keep cursor l h)

  pub scan_keeps : (l : L) → P l → P (scan_pages_for_code code probe l).1
  unfolding scan_pages_for_code
  scan_keeps l h = scan_from_keeps adopt_max_pages "" l h
