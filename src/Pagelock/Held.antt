-- ===== src/Pagelock/Held.antt =====
-- Who can end a lock.
use mathlib.Core.List.{foldl}
use talyvor_docs.Prelude.{
  String, ◌≡◌, refl, Bool, false, ◌&&◌, ◌||◌, Option, none, some, List, [], ◌∷◌, arith, ◌==◌,
  eq_iff, if◌then◌else◌, any,
}
use talyvor_docs.Postgres.Rows.{Db, PageRow}
use talyvor_docs.Postgres.Tables.{find_page, find_page-update_page}
use talyvor_docs.Pagelock.{locked_row, unlocked_row, lock, unlock, can_edit}

-- The member that the page's row names as the holder of its lock.
abbrev holder_in : Option PageRow → Option String
holder_in none = none
holder_in (some r) = if r.locked then r.locked_by else none

abbrev pub IsHeld : String → String → Db → Type 0
IsHeld page holder db = holder_in (find_page page db.pages) ≡ some holder

-- The operations of the store on locks.
pub data LockOp : Type 0 where
  locks : String → String → LockOp
  unlocks : String → String → Bool → LockOp
  asks : String → String → Bool → LockOp

unfoldable pub run_op : Db → LockOp → Db
unfolding lock unlock can_edit
run_op db (locks page by) = (lock page by db).1
run_op db (unlocks page member admin) = (unlock page member admin db).1
run_op db (asks page member admin) = (can_edit page member admin db).1

-- An unlock of the page by its holder or by an admin.
abbrev pub releases : String → String → LockOp → Bool
releases page holder (unlocks other member admin) = other == page && (admin || holder == member)
releases page holder _ = false

run_op-IsHeld :
    (page holder : String) (db : Db) (op : LockOp)
    → IsHeld page holder db
    → releases page holder op ≡ false
    → IsHeld page holder (run_op db op)
unfolding run_op
run_op-IsHeld page holder db (locks other by) h r = ground (
  arith,
  find_page-update_page (locked_row by db.clock) (λ _. refl) other page db.pages,
  eq_iff other page,
)
run_op-IsHeld page holder db (unlocks other member admin) h r =
    ground
      (arith, find_page-update_page unlocked_row (λ _. refl) other page db.pages, eq_iff other page)
run_op-IsHeld page holder db (asks other member admin) h r = ground arith

-- Whatever locks, unlocks and checks are tried, and whichever of their statements fail: a page
-- whose lock has a holder keeps that lock and that holder, as long as none of the operations is
-- an unlock of the page by its holder or by an admin.
pub run_ops-IsHeld :
    (page holder : String) (db : Db) (ops : List LockOp)
    → IsHeld page holder db
    → any (releases page holder) ops ≡ false
    → IsHeld page holder (foldl run_op db ops)
unfolding any
run_ops-IsHeld page holder db [] h none_releases = h
run_ops-IsHeld page holder db (op ∷ ops) h none_releases =
    run_ops-IsHeld page holder (run_op db op) ops (run_op-IsHeld page holder db op h (ground arith))
      (ground arith)
