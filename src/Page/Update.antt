-- ===== src/Page/Update.antt =====
-- internal/page/store.go: `Update`. The map of updates is a record of the fields that the code reads.
use talyvor_docs.Prelude.{
  ℕ, ◌+◌, String, Bool, true, false, not, ◌||◌, Option, none, some, List, ◌==◌, if◌then◌else◌, ltb,
}
use talyvor_docs.Postgres.Run.{
  Reply, ok, refused, pure, refuse, ◌>>=◌, ◌>>◌, statement, select, write,
}
use talyvor_docs.Page.{
  PageRow, PageError, no_rows, parent_not_found, parent_cycle, max_depth, unknown_type, locked,
  max_depth_limit, empty_doc, find, update_all, Pages,
}
use talyvor_docs.Page.Tree.{rel, height, rebase, is_some}
use talyvor_docs.Page.Create.{valid_type, append_version}

-- The updates that the code reads from the map; a parent of `some none` is a JSON null.
pub record Updates : Type 0 where
  pub title : Option String
  pub content : Option String
  pub content_text : Option String
  pub icon : Option String
  pub cover_url : Option String
  pub position : Option ℕ
  pub is_template : Option Bool
  pub stale_after_days : Option ℕ
  pub linked_issues : Option (List String)
  pub parent_id : Option (Option String)
  pub updated_by : Option String
  pub page_type : Option String
  pub is_admin : Bool

-- `editGuard`, where a guard is set: what `CanEdit` answers to this call. It writes nothing.
abbrev pub Guard : Type 0
Guard = Option (String → String → Bool → Reply PageError (Bool × String))

abbrev pub answer : Reply PageError (Bool × String) → Pages (Bool × String)
answer r t down = (r, t, down)

abbrev pub or_else {ℓ} : {A : Type ℓ} → Option A → A → A
or_else none b = b
or_else (some a) b = a

abbrev pub same_workspace : Option PageRow → Option PageRow → Bool
same_workspace (some up) (some r) = up.workspace_id == r.workspace_id
same_workspace _ _ = false

abbrev pub depth_of : Option PageRow → ℕ
depth_of none = 0
depth_of (some r) = r.depth

-- The two queries on a new parent: (same workspace, would cycle), and (parent's depth, subtree's height).
unfoldable pub parent_checks : String → String → Pages (Bool × Bool)
unfolding select rel
parent_checks page parent = select λ t. (
  same_workspace (find parent t.pages) (find page t.pages),
  is_some (rel (λ x. x == page) t.pages parent),
)

unfoldable pub depth_checks : String → String → Pages (ℕ × ℕ)
unfolding select rel height
depth_checks page parent =
    select λ t. (depth_of (find parent t.pages), height (rel (λ x. x == page) t.pages) t.pages)

-- The checks on what the two queries answer.
abbrev pub measured_target : ℕ × ℕ → Pages (Option ℕ)
measured_target (depth, below) =
    if ltb max_depth_limit (depth + 1 + below) then refuse max_depth else pure (some (depth + 1))

abbrev pub apart_target : String → String → Bool × Bool → Pages (Option ℕ)
apart_target page parent (same, cycle) =
    if cycle then refuse parent_cycle else (depth_checks page parent >>= measured_target)

abbrev pub answered_target : String → String → Bool × Bool → Pages (Option ℕ)
answered_target page parent (same, cycle) =
    if not same then refuse parent_not_found else apart_target page parent (same, cycle)

-- The checks of a new parent, and the depth that the page gets there.
unfoldable pub move_target : String → Option (Option String) → Pages (Option ℕ)
unfolding parent_checks depth_checks
move_target page none = pure none
move_target page (some none) = pure (some 0)
move_target page (some (some parent)) = parent_checks page parent >>= answered_target page parent

unfoldable pub check_guard : Guard → String → String → Bool → Pages (Unit {0})
check_guard none page member admin = pure tt
check_guard (some g) page member admin = do
  (may_edit, reason) ← answer (g page member admin)
  if may_edit then pure tt else refuse (locked reason)

abbrev pub has {ℓ} : {A : Type ℓ} → Option A → Bool
has none = false
has (some a) = true

-- len(set) == 0
abbrev pub is_empty : Updates → Bool
is_empty u = not (
    has u.title
    || has u.content
    || has u.content_text
    || has u.icon
    || has u.cover_url
    || has u.position
    || has u.is_template
    || has u.stale_after_days
    || has u.linked_issues
    || has u.parent_id
    || has u.updated_by
    || has u.page_type)

-- `floorContent`
abbrev pub floor_content : String → String
floor_content v = if v == "" then empty_doc else v

abbrev pub new_text : (String → String) → Option String → Option String → String → String
new_text extract none none old = old
new_text extract none (some given) old = given
new_text extract (some v) given old = extract (floor_content v)

abbrev pub new_content : Option String → String → String
new_content none old = old
new_content (some v) old = floor_content v

-- UPDATE pages SET …, updated_at = now, of one row
unfoldable pub apply_updates : (String → String) → Updates → Option String → ℕ → PageRow → PageRow
apply_updates extract u page_type now r = record r {
  title = or_else u.title r.title;
  content = new_content u.content r.content;
  content_text = new_text extract u.content u.content_text r.content_text;
  icon = or_else u.icon r.icon;
  cover_url = or_else u.cover_url r.cover_url;
  position = or_else u.position r.position;
  is_template = or_else u.is_template r.is_template;
  stale_after_days = or_else u.stale_after_days r.stale_after_days;
  linked_issues = or_else u.linked_issues r.linked_issues;
  parent_id = or_else u.parent_id r.parent_id;
  updated_by = or_else u.updated_by r.updated_by;
  page_type = or_else page_type r.page_type;
  updated_at = now;
}

abbrev pub at_page : String → (PageRow → PageRow) → PageRow → PageRow
at_page page f r = if r.id == page then f r else r

-- UPDATE … WHERE id = $n RETURNING …
abbrev pub returning : Option PageRow → (PageRow → PageRow) → Reply PageError PageRow
returning none f = refused no_rows
returning (some r) f = ok (f r)

unfoldable pub write_page : String → (ℕ → PageRow → PageRow) → Pages PageRow
unfolding statement update_all
write_page page f = statement λ t. (
  returning (find page t.pages) (f t.clock),
  record t { pages = update_all (at_page page (f t.clock)) t.pages },
)

unfoldable pub rebase_subtree_depth : (String → Bool) → ℕ → Pages (Unit {0})
unfolding write rebase
rebase_subtree_depth is_root base =
    write (λ t. (tt, record t { pages = rebase is_root base t.pages }))

abbrev pub rebase_if : String → Option ℕ → Pages (Unit {0})
rebase_if page none = pure tt
rebase_if page (some depth) = rebase_subtree_depth (λ x. x == page) depth

abbrev pub stored_type : String → Option String → Pages (Option String)
stored_type v none = refuse (unknown_type v)
stored_type v (some page_type) = pure (some page_type)

abbrev pub checked_type : Option String → Pages (Option String)
checked_type none = pure none
checked_type (some v) = stored_type v (valid_type v)

abbrev pub row_or : Option PageRow → Pages PageRow
row_or none = refuse no_rows
row_or (some r) = pure r

unfoldable pub get_by_id : String → Pages PageRow
unfolding select
get_by_id page = do row ← select (λ t. find page t.pages); row_or row

abbrev pub with_depth : Option ℕ → PageRow → PageRow
with_depth none r = r
with_depth (some depth) r = record r { depth = depth }

-- The statements of `Update` once its checks are done.
unfoldable pub save :
    (String → String) → String → Updates → Option ℕ → Option String → Pages PageRow
unfolding write_page apply_updates rebase_subtree_depth append_version
save extract page u depth page_type = do
  out ← write_page page (apply_updates extract u page_type)
  rebase_if page depth
  if has u.content || has u.title
      then append_version page out.workspace_id out.title out.content (or_else u.updated_by "")
      else pure tt
  pure (with_depth depth out)

unfoldable pub update : (String → String) → Guard → String → Updates → Pages PageRow
unfolding check_guard move_target save get_by_id valid_type
update extract guard page u = do
  check_guard guard page (or_else u.updated_by "") u.is_admin
  depth ← move_target page u.parent_id
  page_type ← checked_type u.page_type
  if is_empty u then get_by_id page else save extract page u depth page_type
