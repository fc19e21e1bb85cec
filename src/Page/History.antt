-- ===== src/Page/History.antt =====
-- internal/page/store.go: the versions of a page, their restore, and the methods that are scoped to the
-- caller's workspaces.
pub mod Append
pub mod Keep
pub mod Restore
use Prim.Native.String.{◌++◌ as concat}
use talyvor_docs.Prelude.{
  ℕ, zero, suc, ◌+◌, String, Bool, true, false, not, ◌&&◌, ◌||◌, Option, none, some, List, [], ◌∷◌,
  ◌==◌, if◌then◌else◌, eqb, ltb, select as filter,
}
use talyvor_docs.Postgres.Run.{
  Run, Reply, ok, refused, failed, pure, refuse, ◌>>=◌, ◌>>◌, statement, select, write,
}
use talyvor_docs.Postgres.Tables.{among}
use talyvor_docs.Page.{
  PageRow, VersionRow, Tables, PageError, ids_required, no_rows, not_found, parent_not_found,
  parent_cycle, max_depth, slug_taken, unknown_type, locked, max_depth_limit, max_slug_attempts,
  empty_doc, find, update_all, remove, Pages,
}
use talyvor_docs.Page.Tree.{rel, height, rebase, is_some}
use talyvor_docs.Page.Update.{Guard, Updates, update}
use talyvor_docs.Page.Delete.{delete, verify}

abbrev pub is_version : String → ℕ → List String → VersionRow → Bool
is_version page n workspaces v =
    among workspaces v.workspace_id && v.page_id == page && eqb v.version n

unfoldable pub find_version : String → ℕ → List String → List VersionRow → Option VersionRow
find_version page n workspaces [] = none
find_version page n workspaces (v ∷ rows) =
    if is_version page n workspaces v then some v else find_version page n workspaces rows

abbrev pub version_or : Option VersionRow → Pages VersionRow
version_or none = refuse not_found
version_or (some v) = pure v

unfoldable pub get_version : String → ℕ → List String → Pages VersionRow
unfolding select find_version
get_version page n workspaces = do
  v ← select (λ t. find_version page n workspaces t.versions)
  version_or v

-- The newest version comes first, as in the table. Its AI cost is joined from another table.
unfoldable pub get_versions : String → List String → Pages (List VersionRow)
unfolding select
get_versions page workspaces =
    select (λ t. filter (λ v. among workspaces v.workspace_id && v.page_id == page) t.versions)

abbrev pub no_updates : Updates
no_updates = record {
  title = none;
  content = none;
  content_text = none;
  icon = none;
  cover_url = none;
  position = none;
  is_template = none;
  stale_after_days = none;
  linked_issues = none;
  parent_id = none;
  updated_by = none;
  page_type = none;
  is_admin = false;
}

-- The updates of a restore, with its member "restore".
abbrev pub restore_updates : VersionRow → Updates
restore_updates v = record no_updates {
  title = some v.title;
  content = some v.content;
  updated_by = some "restore";
}

unfoldable pub restore_version :
    (String → String) → Guard → String → ℕ → List String → Pages PageRow
unfolding get_version update
restore_version extract guard page n workspaces = do
  v ← get_version page n workspaces
  update extract guard page (restore_updates v)

abbrev pub is_in : List String → Option PageRow → Bool
is_in workspaces none = false
is_in workspaces (some r) = among workspaces r.workspace_id

unfoldable pub page_in_workspaces : String → List String → Pages Bool
unfolding select
page_in_workspaces page workspaces = select (λ t. is_in workspaces (find page t.pages))

unfoldable pub assert_in_workspaces : String → List String → Pages (Unit {0})
unfolding page_in_workspaces
assert_in_workspaces page workspaces = do
  exists ← page_in_workspaces page workspaces
  if exists then pure tt else refuse not_found

abbrev pub scoped : List String → Option PageRow → Pages PageRow
scoped workspaces none = refuse not_found
scoped workspaces (some r) = if among workspaces r.workspace_id then pure r else refuse not_found

unfoldable pub get_by_id_in_workspaces : String → List String → Pages PageRow
unfolding select
get_by_id_in_workspaces page workspaces = do
  row ← select (λ t. find page t.pages)
  scoped workspaces row

module _ (page : String) (workspaces : List String) where
  unfoldable pub update_in_workspaces : (String → String) → Guard → Updates → Pages PageRow
  unfolding assert_in_workspaces update
  update_in_workspaces extract guard u = do
    assert_in_workspaces page workspaces
    update extract guard page u

  unfoldable pub delete_in_workspaces : Pages (Unit {0})
  unfolding assert_in_workspaces delete
  delete_in_workspaces = do assert_in_workspaces page workspaces; delete page

  unfoldable pub verify_in_workspaces : String → Pages (Unit {0})
  unfolding assert_in_workspaces verify
  verify_in_workspaces verifier = do assert_in_workspaces page workspaces; verify page verifier

  unfoldable pub get_versions_in_workspaces : Pages (List VersionRow)
  unfolding assert_in_workspaces get_versions
  get_versions_in_workspaces = do assert_in_workspaces page workspaces; get_versions page workspaces

  unfoldable pub restore_version_in_workspaces : (String → String) → Guard → ℕ → Pages PageRow
  unfolding assert_in_workspaces restore_version
  restore_version_in_workspaces extract guard n = do
    assert_in_workspaces page workspaces
    restore_version extract guard page n workspaces

  unfoldable pub get_version_in_workspaces : ℕ → Pages VersionRow
  unfolding assert_in_workspaces get_version
  get_version_in_workspaces n = do
    assert_in_workspaces page workspaces
    get_version page n workspaces

  unfoldable pub compare_versions_in_workspaces : ℕ → ℕ → Pages (VersionRow × VersionRow)
  unfolding assert_in_workspaces get_version
  compare_versions_in_workspaces from to = do
    assert_in_workspaces page workspaces
    a ← get_version page from workspaces
    b ← get_version page to workspaces
    pure (a, b)
