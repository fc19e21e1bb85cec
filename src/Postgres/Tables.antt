-- ===== src/Postgres/Tables.antt =====
-- Reads and updates of the tables, as functions on their rows, and their laws.
use talyvor_docs.Prelude.{
  String, Bool, true, false, ◌&&◌, ◌≡◌, Option, none, some, List, [], ◌∷◌, arith, ◌==◌, eq_iff,
  if◌then◌else◌,
}
use talyvor_docs.Postgres.Rows.{PageRow, SessionRow}

-- x = ANY(xs)
unfoldable pub among : List String → String → Bool
among [] x = false
among (y ∷ ys) x = if y == x then true else among ys x

-- Each id once, at its first place; `seen` are those that came before.
unfoldable pub distinct : List String → List String → List String
distinct seen [] = []
distinct seen (x ∷ xs) =
    let skipped = distinct seen xs in
    let kept = x ∷ distinct (x ∷ seen) xs in if among seen x then skipped else kept

-- SELECT … FROM pages WHERE id = $1
unfoldable pub find_page : String → List PageRow → Option PageRow
find_page page [] = none
find_page page (r ∷ rows) = if r.id == page then some r else find_page page rows

-- UPDATE pages SET … WHERE id = $1, where the update leaves the id
unfoldable pub update_page : String → (PageRow → PageRow) → List PageRow → List PageRow
update_page page f [] = []
update_page page f (r ∷ rows) = (if r.id == page then f r else r) ∷ update_page page f rows

-- SELECT EXISTS(SELECT 1 FROM pages WHERE id = $1 AND workspace_id = ANY($2))
unfoldable pub page_in : String → List String → List PageRow → Bool
unfolding among
page_in page workspaces [] = false
page_in page workspaces (r ∷ rows) =
    if r.id == page && among workspaces r.workspace_id then true else page_in page workspaces rows

-- SELECT … FROM page_edit_sessions WHERE page_id = $1
unfoldable pub find_session : String → List SessionRow → Option SessionRow
find_session page [] = none
find_session page (s ∷ rows) = if s.page_id == page then some s else find_session page rows

-- The row of the page put in, or replaced.
unfoldable pub set_session : String → SessionRow → List SessionRow → List SessionRow
set_session page new [] = new ∷ []
set_session page new (s ∷ rows) =
    if s.page_id == page then new ∷ rows else s ∷ set_session page new rows

-- DELETE FROM page_edit_sessions WHERE page_id = $1
unfoldable pub delete_session : String → List SessionRow → List SessionRow
delete_session page [] = []
delete_session page (s ∷ rows) =
    let rest = delete_session page rows in if s.page_id == page then rest else s ∷ rest

abbrev pub map_option : (PageRow → PageRow) → Option PageRow → Option PageRow
map_option f none = none
map_option f (some r) = some (f r)

module _ (f : PageRow → PageRow) (same_id : (r : PageRow) → (f r).id ≡ r.id) where
  pub find_page-update_page :
      (page other : String) (rows : List PageRow)
      → find_page other (update_page page f rows)
        ≡ (if page == other then map_option f (find_page other rows) else find_page other rows)
  unfolding find_page update_page
  find_page-update_page page other [] = ground arith
  find_page-update_page page other (r ∷ rows) = ground (
    arith,
    same_id r,
    eq_iff r.id page,
    eq_iff r.id other,
    eq_iff page other,
    find_page-update_page page other rows,
  )

-- The page of a row that is found.
pub find_session-page :
    (page : String) (rows : List SessionRow) (s : SessionRow)
    → find_session page rows ≡ some s
    → s.page_id ≡ page
unfolding find_session
find_session-page page (t ∷ rows) s found =
    ground (arith, eq_iff t.page_id page, find_session-page page rows s)
find_session-page page [] s found = ground arith

pub find_session-set_session :
    (page other : String) (new : SessionRow) (rows : List SessionRow)
    → new.page_id ≡ page
    → find_session other (set_session page new rows)
      ≡ (if page == other then some new else find_session other rows)
unfolding find_session set_session
find_session-set_session page other new [] mine =
    ground (arith, eq_iff page other, eq_iff new.page_id other)
find_session-set_session page other new (s ∷ rows) mine = ground (
  arith,
  eq_iff s.page_id page,
  eq_iff s.page_id other,
  eq_iff page other,
  eq_iff new.page_id other,
  find_session-set_session page other new rows,
)

pub find_session-delete_session :
    (page other : String) (rows : List SessionRow)
    → find_session other (delete_session page rows)
      ≡ (if page == other then none else find_session other rows)
unfolding find_session delete_session
find_session-delete_session page other [] = ground arith
find_session-delete_session page other (s ∷ rows) = ground (
  arith,
  eq_iff s.page_id page,
  eq_iff s.page_id other,
  eq_iff page other,
  find_session-delete_session page other rows,
)
