-- ===== src/Page.antt =====
-- internal/page/store.go: the tree of pages, their slugs, and their versions. The tables here hold the
-- columns that this store writes; the lock and the approval state are columns of `pages` which it never
-- writes. A store has a pool here.
pub mod Tree
pub mod Create
pub mod Update
pub mod Delete
pub mod History
pub mod Listing
pub mod Stale
pub mod Forest
pub mod Tests
use talyvor_docs.Prelude.{
  ℕ, ◌+◌, String, Bool, true, false, ◌&&◌, Option, none, some, List, [], ◌∷◌, ◌==◌, if◌then◌else◌,
  eqb, ltb,
}
use talyvor_docs.Postgres.Run.{Run}

-- pages; `position`, a float that the store only passes on, is a number here
pub record PageRow : Type 0 where
  pub id : String
  pub space_id : String
  pub workspace_id : String
  pub parent_id : Option String
  pub title : String
  pub slug : String
  pub content : String
  pub content_text : String
  pub icon : String
  pub cover_url : String
  pub position : ℕ
  pub depth : ℕ
  pub is_template : Bool
  pub created_by : String
  pub updated_by : String
  pub linked_issues : List String
  pub stale_after_days : ℕ
  pub page_type : String
  pub last_verified_at : Option ℕ
  pub verified_by : Option String
  pub updated_at : ℕ

-- page_versions, unique on (page_id, version)
pub record VersionRow : Type 0 where
  pub page_id : String
  pub workspace_id : String
  pub version : ℕ
  pub title : String
  pub content : String
  pub created_by : String

-- The clock is the server's `now()`.
pub record Tables : Type 0 where
  pub pages : List PageRow
  pub versions : List VersionRow
  pub clock : ℕ

-- The errors of the package; `no_rows` is pgx.ErrNoRows where a method passes it on.
pub data PageError : Type 0 where
  ids_required no_rows not_found parent_not_found parent_cycle max_depth slug_taken : PageError
  unknown_type : String → PageError
  locked : String → PageError

-- `MaxDepth`, and the bounds of the retry loops
abbrev pub max_depth_limit : ℕ
max_depth_limit = 5

abbrev pub max_slug_attempts : ℕ
max_slug_attempts = 5

abbrev pub empty_doc : String
empty_doc = "{}"

unfoldable pub find : String → List PageRow → Option PageRow
find page [] = none
find page (r ∷ rows) = if r.id == page then some r else find page rows

-- Each row changed by a function of it.
unfoldable pub update_all : (PageRow → PageRow) → List PageRow → List PageRow
update_all f [] = []
update_all f (r ∷ rows) = f r ∷ update_all f rows

unfoldable pub remove : String → List PageRow → List PageRow
remove page [] = []
remove page (r ∷ rows) = let rest = remove page rows in if r.id == page then rest else r ∷ rest

-- What the methods of the store are: runs on its tables.
abbrev pub Pages : Type 0 → Type 0
Pages A = Run Tables PageError A
