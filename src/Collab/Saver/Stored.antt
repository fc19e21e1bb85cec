-- ===== src/Collab/Saver/Stored.antt =====
-- What the database holds for the pages that the engine serves.
use mathlib.Core.List.{foldl}
use talyvor_docs.Prelude.{◌≤◌, String, ◌≡◌, ◌⊎◌, inl, inr, true, some, List, ◌==◌, Bool-cases}
use talyvor_docs.Prelude.Map
use talyvor_docs.Collab.Types.{PageState}
use talyvor_docs.Collab.Engine.{unsaved, new_engine}
use talyvor_docs.Collab.Saver.{SaveFunc, install}
use talyvor_docs.Collab.Saver.Durable.{Storage, Event, step, Kept, run-AllKept}

module _ (f : SaveFunc) (m : Storage f) where
  open f use {Db}
  open m use {stored}

  -- The snapshot of a page that does not count as unsaved is in the database, with its author.
  abbrev pub IsStored : Db → String → PageState → Type 0
  IsStored db page st =
      (unsaved st ≡ true)
      ⊎ (((st.snapshot == "") ≡ true) ⊎ (stored db page ≡ some (st.snapshot, st.snapshot_by)))

  Kept-IsStored :
      (db : Db) (page : String) (st : PageState) → Kept f m db page (some st) → IsStored db page st
  Kept-IsStored db page st (bound, kept) = elim (Bool-cases (unsaved st)) [
    | inl dirty ↦ inl dirty
    | inr saved_now ↦ elim (Bool-cases (st.snapshot == "")) [
      | inl blank ↦ inr (inl blank)
      | inr text ↦ inr (inr (kept saved_now text))
    ]
  ]

  -- Along every sequence of joins, departures, changes, cursor moves and flushes, whatever saves
  -- fail: a page's saved version is never ahead of its version, and a page is unsaved, or has no
  -- snapshot, or its snapshot is stored in the database with its author.
  pub run-IsStored :
      (db : Db) (events : List (Event f m)) (page : String) (st : PageState)
      → Map.lookup page (foldl (step f m) (install new_engine, db) events).0.pages ≡ some st
      → (st.saved_version ≤ st.version)
        × IsStored (foldl (step f m) (install new_engine, db) events).1 page st
  run-IsStored db events page st held =
      let kept = rw held at (run-AllKept f m db events page) in
      (kept.0, Kept-IsStored (foldl (step f m) (install new_engine, db) events).1 page st kept)
