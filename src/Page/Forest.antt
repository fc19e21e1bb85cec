-- ===== src/Page/Forest.antt =====
-- The shape of the page tree: the invariant, and the laws of lookups that it rests on.
pub mod Walk
pub mod Rebase
pub mod Move
pub mod Edit
pub mod Save
pub mod Lift
pub mod Remove
pub mod Insert
use talyvor_docs.Prelude.{
  ℕ, ◌+◌, String, ◌≡◌, refl, Bool, true, false, ◌&&◌, Option, none, some, List, [], ◌∷◌, arith,
  ◌==◌, eq_iff, if◌then◌else◌, eqb, leb, ◌<◌,
}
use talyvor_docs.Page.{PageRow, find, update_all, remove}
use talyvor_docs.Page.Tree.{walk_bound}
use talyvor_docs.Page.Update.{depth_of}

abbrev pub under : PageRow → Option PageRow → Bool
under r none = false
under r (some up) = eqb (up.depth + 1) r.depth && up.workspace_id == r.workspace_id

-- A page without a parent stands at depth 0, another one below a page of its workspace.
abbrev pub placed : List PageRow → PageRow → Bool
placed rows r = elim r.parent_id [ none ↦ eqb r.depth 0 | some up ↦ under r (find up rows) ]

abbrev pub sound_at : List PageRow → Option PageRow → Bool
sound_at rows none = true
sound_at rows (some r) = placed rows r && leb r.depth 5

-- Every page is placed, and none is deeper than `MaxDepth`.
abbrev pub IsForest : List PageRow → Type 0
IsForest rows = (page : String) → sound_at rows (find page rows) ≡ true

abbrev pub map_row : (PageRow → PageRow) → Option PageRow → Option PageRow
map_row f none = none
map_row f (some r) = some (f r)

pub find-update_all :
    (f : PageRow → PageRow) (same : (r : PageRow) → (f r).id ≡ r.id) (page : String)
    (rows : List PageRow)
    → find page (update_all f rows) ≡ map_row f (find page rows)
unfolding find update_all
find-update_all f same page [] = refl
find-update_all f same page (r ∷ rows) = ground (arith, same r, find-update_all f same page rows)

pub find-id :
    (page : String) (rows : List PageRow) (r : PageRow) → find page rows ≡ some r → r.id ≡ page
unfolding find
find-id page [] r found = ground arith
find-id page (s ∷ rows) r found = ground (arith, eq_iff s.id page, find-id page rows r)

pub find-remove :
    (page other : String) (rows : List PageRow)
    → find other (remove page rows) ≡ (if page == other then none else find other rows)
unfolding find remove
find-remove page other [] = ground arith
find-remove page other (s ∷ rows) =
    ground
      (arith, eq_iff s.id page, eq_iff s.id other, eq_iff page other, find-remove page other rows)

-- The bound of the walks is above every depth.
pub depth-lt-walk_bound :
    (page : String) (rows : List PageRow) → depth_of (find page rows) < walk_bound rows
unfolding find walk_bound
depth-lt-walk_bound page [] = ground arith
depth-lt-walk_bound page (s ∷ rows) = ground (arith, depth-lt-walk_bound page rows)
