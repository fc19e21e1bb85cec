-- ===== src/Freshness/Tests.antt =====
-- The stale report of one workspace with an old page and a new one.
use talyvor_docs.Prelude.{ℕ, ◌+◌, ◌*◌, String, ◌≡◌, refl, true, false, none, [], ◌∷◌, all}
use talyvor_docs.Page.{PageRow, Tables}
use talyvor_docs.Page.Tests.{page_row}
use talyvor_docs.Page.Stale.{day}
use talyvor_docs.Freshness.{stale_report_all}
use talyvor_docs.Freshness.Stale.{only_stale, stale_report_all-stale}

abbrev aged : String → ℕ → PageRow
aged id updated = record (page_row id none 0) { updated_at = updated; stale_after_days = 2 }

abbrev month : Tables
month = record { pages = aged "old" 1 ∷ aged "new" (2 * day) ∷ []; versions = []; clock = 3 * day }

stale_report_all-stale_example :
    only_stale false
      (λ page. none)
      (λ workspace id. none)
      (stale_report_all false (λ page. none) (λ workspace id. none) (3 * day + 5) "w" month []).0
    ≡ true
unfolding all
stale_report_all-stale_example =
    stale_report_all-stale false (λ page. none) (λ workspace id. none) 5 "w" month [] refl
