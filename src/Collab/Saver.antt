-- ===== src/Collab/Saver.antt =====
-- internal/collab/saver.go: the AutoSaver. `SaveFunc` is a callback, so the database that it
-- writes and the write itself are parameters.
mod Entries
pub mod Clean
pub mod Durable
pub mod Stored
pub mod Leave
use talyvor_docs.Prelude.{
  ℕ, String, Bool, false, true, Option, none, some, List, [], ◌∷◌, if◌then◌else◌,
}
use talyvor_docs.Collab.Types.{OtEngine}
use talyvor_docs.Collab.Engine.{unsaved_snapshot, mark_saved, drop_idle, dirty_pages, leave}

-- The page content that a database holds, with the member that wrote it, and the save of a page:
-- page, content, member. A save that fails changes nothing; one that succeeds writes its page.
pub record SaveFunc : Type 1 where
  pub Db : Type 0
  pub save : Db → String → String → String → Option Db

module _ (f : SaveFunc) where
  open f use {Db, save}

  -- `savePage`, which runs under the saver's mutex; the last part is `true` where it succeeds
  unfoldable pub save_page : OtEngine × Db → String → (OtEngine × Db) × Bool
  save_page (e, db) page = elim (unsaved_snapshot e page) [
    | none ↦ ((e, db), true)
    | some (snap, ver, by) ↦ elim (save db page snap by) [
      | none ↦ ((e, db), false)
      | some db' ↦ ((mark_saved e page ver, db'), true)
    ]
  ]

  -- `saveIdle`, the engine's idle hook
  unfoldable pub save_idle : OtEngine × Db → String → OtEngine × Db
  unfolding save_page
  save_idle s page = (save_page s page).0

  -- One round of the loop in `flush`.
  unfoldable pub flush_page : OtEngine × Db → String → OtEngine × Db
  unfolding save_page
  flush_page s page =
      let (s', saved) = save_page s page in if saved then s' else ((drop_idle s'.0 page).0, s'.1)

  unfoldable pub flush_pages : OtEngine × Db → List String → OtEngine × Db
  unfolding flush_page
  flush_pages s [] = s
  flush_pages s (page ∷ pages) = flush_pages (flush_page s page) pages

  unfoldable pub flush : OtEngine × Db → OtEngine × Db
  unfolding flush_pages
  flush s = flush_pages s (dirty_pages s.0)

  -- `Leave` with the hook that `NewAutoSaver` installs
  unfoldable pub leave_and_save : OtEngine × Db → String → String → OtEngine × Db
  unfolding save_idle
  leave_and_save (e, db) page client =
      let (e', hook) = leave e page client in if hook then save_idle (e', db) page else (e', db)

-- `NewAutoSaver`
unfoldable pub install : OtEngine → OtEngine
install e = record e { on_idle = true }
