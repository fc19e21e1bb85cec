-- ===== src/Pagelock/Exclusive.antt =====
-- What a lock means for the save path.
use Prim.Native.String.{◌++◌ as concat}
use talyvor_docs.Prelude.{
  ℕ, String, ◌≡◌, refl, ap, ◌∙◌, Bool, true, false, some, [], arith, ◌==◌, eq_iff, eq_refl,
  if◌then◌else◌, Option-cases, inl, inr,
}
use talyvor_docs.Postgres.Rows.{Db, PageRow}
use talyvor_docs.Postgres.Sql.{ok, err, already_locked}
use talyvor_docs.Postgres.Tables.{find_page, find_page-update_page}
use talyvor_docs.Pagelock.{
  LockState, locked_row, lock, can_edit, verdict, is_approved, approved_reason,
}

-- What `CanEdit` tells a member of a page that somebody has locked.
abbrev pub told : PageRow → String → String → Bool × String
told r holder member =
    if is_approved r.doc_status
    then (false, approved_reason)
    else if holder == member
    then (true, "")
    else (false, concat "Locked by " holder)

-- The row of the page after a lock that succeeds.
abbrev row_after : PageRow → String → ℕ → PageRow
row_after r by now = if r.locked then r else locked_row by now r

lock-row :
    (db : Db) (page by : String) (r : PageRow) (st : LockState)
    → db.outages ≡ []
    → find_page page db.pages ≡ some r
    → (lock page by db).0 ≡ ok st
    → (find_page page (lock page by db).1.pages ≡ some (row_after r by db.clock))
      × ((lock page by db).1.outages ≡ [])
unfolding lock
lock-row db page by r st calm found locked = ground (
  arith,
  find_page-update_page (locked_row by db.clock) (λ _. refl) page page db.pages,
  eq_refl page,
)

-- It names the member who locked it, and keeps the approval state.
row_after-holder :
    (db : Db) (page by : String) (r : PageRow) (st : LockState)
    → db.outages ≡ []
    → find_page page db.pages ≡ some r
    → (lock page by db).0 ≡ ok st
    → ((row_after r by db.clock).locked ≡ true)
      × ((row_after r by db.clock).locked_by ≡ some by)
      × ((row_after r by db.clock).doc_status ≡ r.doc_status)
unfolding lock
row_after-holder db page by r st calm found locked = elim (Option-cases r.locked_by) [
  | inl q ↦ ground arith
  | inr (h, q) ↦ ground (arith, eq_iff h by)
]

can_edit-verdict :
    (db : Db) (page member : String) (admin : Bool) (r : PageRow)
    → db.outages ≡ []
    → find_page page db.pages ≡ some r
    → (can_edit page member admin db).0 ≡ ok (verdict r member admin)
unfolding can_edit
can_edit-verdict db page member admin r calm found = ground arith

lock-taken :
    (db : Db) (page holder other : String) (r : PageRow)
    → db.outages ≡ []
    → find_page page db.pages ≡ some r
    → r.locked ≡ true
    → r.locked_by ≡ some holder
    → (holder == other) ≡ false
    → ((lock page other db).0 ≡ err (already_locked holder))
      × ((lock page other db).1.pages ≡ db.pages)
unfolding lock
lock-taken db page holder other r calm found locked held differ = ground arith

verdict-told :
    (r : PageRow) (by member : String)
    → r.locked ≡ true
    → r.locked_by ≡ some by
    → verdict r member false ≡ told r by member
unfolding verdict
verdict-told r by member locked held = ground arith

-- When a lock succeeds and the database then answers, everybody is told of it: on a page that is
-- approved nobody may edit, else the member who locked it may, and no other member who is not an
-- admin. A member who holds the lock already is one for whom it succeeds.
lock-can_edit :
    (db : Db) (page by member : String) (r : PageRow) (st : LockState)
    → db.outages ≡ []
    → find_page page db.pages ≡ some r
    → (lock page by db).0 ≡ ok st
    → (can_edit page member false (lock page by db).1).0 ≡ ok (told r by member)
lock-can_edit db page by member r st calm found locked =
    let (row, calm') = lock-row db page by r st calm found locked in
    let (is_locked, held, status) = row_after-holder db page by r st calm found locked in
    let r' = row_after r by db.clock in
    can_edit-verdict (lock page by db).1 page member false r' calm' row
    ∙ ap ok (verdict-told r' by member is_locked held ∙ rw status)

-- Two members never both hold the lock of a page: when one has succeeded and the database answers,
-- the lock of another is refused by the name of the first, and changes no page.
lock-lock_ne :
    (db : Db) (page by other : String) (r : PageRow) (st : LockState)
    → db.outages ≡ []
    → find_page page db.pages ≡ some r
    → (lock page by db).0 ≡ ok st
    → (by == other) ≡ false
    → ((lock page other (lock page by db).1).0 ≡ err (already_locked by))
      × ((lock page other (lock page by db).1).1.pages ≡ (lock page by db).1.pages)
lock-lock_ne db page by other r st calm found locked differ =
    let (row, calm') = lock-row db page by r st calm found locked in
    let (is_locked, held, _) = row_after-holder db page by r st calm found locked in
    lock-taken (lock page by db).1 page by other (row_after r by db.clock) calm' row is_locked held
      differ
