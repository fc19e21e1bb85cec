-- ===== src/Pagelock.antt =====
-- internal/pagelock/store.go: the editor-held lock of a page. A store has a pool here; without
-- one each method fails before it does anything.
pub mod Held
pub mod Exclusive
use Prim.Native.String.{◌++◌ as concat}
use talyvor_docs.Prelude.{
  ℕ, String, Bool, true, false, not, ◌&&◌, Option, none, some, List, ◌==◌, if◌then◌else◌,
}
use talyvor_docs.Postgres.Rows.{Db, PageRow, DocStatus}
use talyvor_docs.Postgres.Sql.{
  Sql, pure, raise, ◌>>=◌, ◌>>◌, statement, select, not_found, no_rows, already_locked, not_locker,
}
use talyvor_docs.Postgres.Tables.{find_page, update_page, page_in}

pub record LockState : Type 0 where
  pub locked : Bool
  pub locked_by : Option String
  pub locked_at : Option ℕ

unfoldable pub assert_in_workspaces : String → List String → Sql (Unit {0})
unfolding select
assert_in_workspaces page workspaces = do
  exists ← select (λ db. page_in page workspaces db.pages)
  if exists then pure tt else raise not_found

abbrev pub the_row : Option PageRow → Sql PageRow
the_row none = raise no_rows
the_row (some r) = pure r

-- `read`; a page that is not there is an error of the scan
unfoldable pub read : String → Sql PageRow
unfolding select
read page = do row ← select (λ db. find_page page db.pages); the_row row

abbrev pub state_of : PageRow → LockState
state_of r = record { locked = r.locked; locked_by = r.locked_by; locked_at = r.locked_at }

-- `lockedBy != nil && *lockedBy == member`
unfoldable pub held_by : PageRow → String → Bool
held_by r member = elim r.locked_by [ none ↦ false | some h ↦ h == member ]

unfoldable pub holder_name : PageRow → String
holder_name r = elim r.locked_by [ none ↦ "another user" | some h ↦ h ]

abbrev pub locked_row : String → ℕ → PageRow → PageRow
locked_row by now r = record r { locked = true; locked_by = some by; locked_at = some now }

abbrev pub unlocked_row : PageRow → PageRow
unlocked_row r = record r { locked = false; locked_by = none; locked_at = none }

-- UPDATE pages SET locked = true, … WHERE id = $2 RETURNING …
unfoldable pub write_lock : String → String → Sql LockState
unfolding statement
write_lock page by = do
  row ← statement λ db.
      let db' = record db { pages = update_page page (locked_row by db.clock) db.pages } in
      (find_page page db'.pages, db')
  r ← the_row row
  pure (state_of r)

unfoldable pub lock : String → String → Sql LockState
unfolding read held_by holder_name write_lock
lock page by = do
  r ← read page
  if r.locked
      then (if held_by r by then pure (state_of r) else raise (already_locked (holder_name r)))
      else write_lock page by

unfoldable pub write_unlock : String → Sql (Unit {0})
unfolding statement
write_unlock page =
    statement λ db. (tt, record db { pages = update_page page unlocked_row db.pages })

unfoldable pub unlock : String → String → Bool → Sql (Unit {0})
unfolding read held_by write_unlock
unlock page member admin = do
  r ← read page
  if not r.locked
      then pure tt
      else if not admin && not (held_by r member)
      then raise not_locker
      else write_unlock page

unfoldable pub lock_in_workspaces : String → String → List String → Sql LockState
unfolding assert_in_workspaces lock
lock_in_workspaces page by workspaces = do assert_in_workspaces page workspaces; lock page by

unfoldable pub unlock_in_workspaces : String → String → Bool → List String → Sql (Unit {0})
unfolding assert_in_workspaces unlock
unlock_in_workspaces page member admin workspaces = do
  assert_in_workspaces page workspaces
  unlock page member admin

unfoldable pub get_lock_state : String → Sql LockState
unfolding read
get_lock_state page = do r ← read page; pure (state_of r)

abbrev pub approved_reason : String
approved_reason = "Page is approved. Edit to request changes."

abbrev pub is_approved : DocStatus → Bool
is_approved DocStatus.approved = true
is_approved _ = false

-- The answer of `CanEdit` on the row that it reads.
unfoldable pub verdict : PageRow → String → Bool → Bool × String
unfolding held_by holder_name
verdict r member admin =
    if is_approved r.doc_status
    then (false, approved_reason)
    else if not r.locked
    then (true, "")
    else if held_by r member
    then (true, "")
    else if admin
    then (true, "")
    else (false, concat "Locked by " (holder_name r))

unfoldable pub can_edit : String → String → Bool → Sql (Bool × String)
unfolding read verdict
can_edit page member admin = do r ← read page; pure (verdict r member admin)
