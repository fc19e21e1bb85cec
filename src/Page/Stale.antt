-- ===== src/Page/Stale.antt =====
-- internal/page/store.go: `GetStalePages`. Times are nanoseconds.
use talyvor_docs.Prelude.{
  ℕ, ◌+◌, ◌*◌, String, Bool, true, ◌&&◌, Option, none, some, List, [], ◌∷◌, ◌==◌, if◌then◌else◌,
  ltb, select as filter,
}
use talyvor_docs.Postgres.Run.{select}
use talyvor_docs.Page.{PageRow, Pages}

abbrev pub day : ℕ
day = 86400000000000

abbrev pub verified_before : ℕ → ℕ → Option ℕ → Bool
verified_before now ttl none = true
verified_before now ttl (some at) = ltb (at + day * ttl) now

-- The WHERE clause.
abbrev pub is_stale : String → ℕ → PageRow → Bool
is_stale workspace now r =
    r.workspace_id == workspace
    && ltb 0 r.stale_after_days
    && ltb (r.updated_at + day * r.stale_after_days) now
    && verified_before now r.stale_after_days r.last_verified_at

-- ORDER BY updated_at ASC; rows of one time stay in the table's order.
unfoldable pub insert_by_update : PageRow → List PageRow → List PageRow
insert_by_update r [] = r ∷ []
insert_by_update r (s ∷ rows) =
    let rest = insert_by_update r rows in
    if ltb s.updated_at r.updated_at then s ∷ rest else r ∷ s ∷ rows

unfoldable pub order_by_update : List PageRow → List PageRow
unfolding insert_by_update
order_by_update [] = []
order_by_update (r ∷ rows) = insert_by_update r (order_by_update rows)

unfoldable pub get_stale_pages : String → Pages (List PageRow)
unfolding select order_by_update
get_stale_pages workspace =
    select (λ t. order_by_update (filter (is_stale workspace t.clock) t.pages))
