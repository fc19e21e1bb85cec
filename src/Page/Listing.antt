-- ===== src/Page/Listing.antt =====
-- internal/page/store.go: `List`. The newest row is the first of the table, and a limit below one is written 0.
use mathlib.Core.List.{reverse}
use talyvor_docs.Prelude.{
  ℕ, String, Bool, true, false, ◌&&◌, Option, none, some, List, ◌==◌, if◌then◌else◌, eqb, ltb, take,
  drop, select as filter,
}
use talyvor_docs.Prelude.Sort.{sort_by}
use talyvor_docs.Postgres.Run.{select}
use talyvor_docs.Page.{PageRow, Pages}

-- PageFilter
pub record PageFilter : Type 0 where
  pub space_id : String
  pub parent_id : Option String
  pub limit : ℕ
  pub offset : ℕ

unfoldable pub page_limit : ℕ → ℕ
page_limit limit = if eqb limit 0 then 100 else if ltb 500 limit then 500 else limit

abbrev pub is_below : Option String → Option String → Bool
is_below none up = true
is_below (some parent) none = false
is_below (some parent) (some up) = up == parent

-- ORDER BY depth ASC, position ASC, created_at ASC
abbrev pub comes_before : PageRow → PageRow → Bool
comes_before a b =
    if ltb a.depth b.depth then true else eqb a.depth b.depth && ltb a.position b.position

-- The rows of the WHERE clause, in order.
unfoldable pub listed : String → Option String → List PageRow → List PageRow
listed space parent rows =
    sort_by comes_before
      (filter (λ r. r.space_id == space && is_below parent r.parent_id) (reverse rows))

-- `List`
unfoldable pub list : PageFilter → Pages (List PageRow)
unfolding select listed page_limit
list f =
    select λ t. take (page_limit f.limit) (drop f.offset (listed f.space_id f.parent_id t.pages))
