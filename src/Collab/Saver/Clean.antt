-- ===== src/Collab/Saver/Clean.antt =====
-- What is left unsaved after a flush.
use mathlib.Core.Bool.{false≢true}
use talyvor_docs.Prelude.{
  String, ◌≡◌, ◌⊎◌, inl, inr, refl, sym, ◌∙◌, Bool, true, false, not, ◌&&◌, Option, none, some,
  List, [], ◌∷◌, arith, if◌then◌else◌, Bool-cases, Option-cases, ◌==◌, eq_iff, ◌||◌, any,
}
use talyvor_docs.Prelude.Map
use talyvor_docs.Prelude.Map.{Map, ne_test}
use talyvor_docs.Collab.Types.{OtEngine, PageState}
use talyvor_docs.Collab.Engine.{
  unsaved, unsaved_snapshot, mark_saved, drop_idle, dirty_in, dirty_pages, no_clients, raise_saved,
}
use talyvor_docs.Collab.Saver.{SaveFunc, save_idle, flush_page, flush_pages, flush}
use talyvor_docs.Collab.Saver.Entries.{
  lookup-mark_saved, lookup-drop_idle, raise_saved-unsaved, marked, dropped,
}

-- A page with an unsaved snapshot is among the dirty ones.
dirty_in-any :
    (pages : Map PageState) (page : String) (st : PageState)
    → Map.lookup page pages ≡ some st
    → unsaved st ≡ true
    → any (λ id. id == page) (dirty_in pages) ≡ true
unfolding dirty_in Map.lookup any
dirty_in-any [] page st h u = cc
dirty_in-any ((id, st') ∷ pages) page st h u = ground (arith, dirty_in-any pages page st)

module _ (f : SaveFunc) where
  open f use {Db, save}

  -- The ways in which the save of a page ends. `given_up` is the engine after a failure.
  pub data Flushed (e : OtEngine) (db : Db) (page : String) (given_up : OtEngine)
      (s : OtEngine × Db) : Type 0 where
    absent : Map.lookup page e.pages ≡ none → s ≡ (e, db) → Flushed e db page given_up s
    clean :
        (st : PageState)
        → Map.lookup page e.pages ≡ some st
        → unsaved st ≡ false
        → s ≡ (e, db)
        → Flushed e db page given_up s
    saved :
        (st : PageState) (db' : Db)
        → Map.lookup page e.pages ≡ some st
        → unsaved st ≡ true
        → save db page st.snapshot st.snapshot_by ≡ some db'
        → s ≡ (mark_saved e page st.version, db')
        → Flushed e db page given_up s
    lost :
        (st : PageState)
        → Map.lookup page e.pages ≡ some st
        → unsaved st ≡ true
        → save db page st.snapshot st.snapshot_by ≡ none
        → s ≡ (given_up, db)
        → Flushed e db page given_up s

  -- The case split that `savePage` makes.
  save_page-cases :
      (e : OtEngine) (db : Db) (page : String) (given_up : OtEngine) (s : OtEngine × Db)
      → (Map.lookup page e.pages ≡ none → s ≡ (e, db))
      → ((st : PageState) → Map.lookup page e.pages ≡ some st → unsaved st ≡ false → s ≡ (e, db))
      → ((st : PageState) (db' : Db)
          → Map.lookup page e.pages ≡ some st
          → unsaved st ≡ true
          → save db page st.snapshot st.snapshot_by ≡ some db'
          → s ≡ (mark_saved e page st.version, db'))
      → ((st : PageState)
          → Map.lookup page e.pages ≡ some st
          → unsaved st ≡ true
          → save db page st.snapshot st.snapshot_by ≡ none
          → s ≡ (given_up, db))
      → Flushed e db page given_up s
  save_page-cases e db page given_up s a b c d = elim (Option-cases (Map.lookup page e.pages)) [
    | inl q ↦ absent q (a q)
    | inr (st, q) ↦ elim (Bool-cases (unsaved st)) [
      | inr u ↦ clean st q u (b st q u)
      | inl u ↦ elim (Option-cases (save db page st.snapshot st.snapshot_by)) [
        | inl k ↦ lost st q u k (d st q u k)
        | inr (db', k) ↦ saved st db' q u k (c st db' q u k)
      ]
    ]
  ]

  pub flush_page-Flushed :
      (e : OtEngine) (db : Db) (page : String)
      → Flushed e db page (drop_idle e page).0 (flush_page f (e, db) page)
  unfolding flush_page unsaved_snapshot
  flush_page-Flushed e db page =
      save_page-cases e db page _ _ (λ q. ground arith) (λ st q u. ground arith)
        (λ st db' q u k. ground arith) (λ st q u k. ground arith)

  pub save_idle-Flushed :
      (e : OtEngine) (db : Db) (page : String) → Flushed e db page e (save_idle f (e, db) page)
  unfolding save_idle unsaved_snapshot
  save_idle-Flushed e db page =
      save_page-cases e db page _ _ (λ q. ground arith) (λ st q u. ground arith)
        (λ st db' q u k. ground arith) (λ st q u k. ground arith)

  -- If the entry is still unsaved, then somebody is connected, and a save of it has failed.
  abbrev pub Settled : String → Option PageState → Type 0
  Settled page none = Unit
  Settled page (some st) =
      (unsaved st ≡ false)
      ⊎ ((no_clients st ≡ false) × ((db : Db) × (save db page st.snapshot st.snapshot_by ≡ none)))

  Settled-marked : (page : String) (st : PageState) → Settled page (marked st.version (some st))
  Settled-marked page st =
      elim (Bool-cases
        (no_clients (raise_saved st.version st) && not (unsaved (raise_saved st.version st)))) [
          | inl gone ↦ rw gone tt
          | inr kept ↦ rw kept (inl (raise_saved-unsaved st))
        ]

  Settled-dropped :
      (db : Db) (page : String) (st : PageState)
      → save db page st.snapshot st.snapshot_by ≡ none
      → Settled page (dropped (some st))
  Settled-dropped db page st h = elim (Bool-cases (no_clients st)) [
    | inl gone ↦ rw gone tt
    | inr kept ↦ rw kept (inr (kept, (db, h)))
  ]

  Settled-if :
      (b : Bool) (page : String) (new old : Option PageState)
      → Settled page old ⊎ (b ≡ true)
      → (b ≡ true → Settled page new)
      → Settled page (if b then new else old)
  Settled-if true page new old h now = now refl
  Settled-if false page new old (inl h) now = h
  Settled-if false page new old (inr h) now = cc

  lookup-flush_page :
      (e : OtEngine) (db : Db) (page other : String) (s : OtEngine × Db)
      → Flushed e db page (drop_idle e page).0 s
      → Settled other (Map.lookup other e.pages) ⊎ ((page == other) ≡ true)
      → Settled other (Map.lookup other s.0.pages)
  lookup-flush_page e db page other s (absent q r) (inl h) = rw r h
  lookup-flush_page e db page other s (absent q r) (inr same) =
      rw (r, ← (eq_iff page other).0 same, q) tt
  lookup-flush_page e db page other s (clean st q u r) (inl h) = rw r h
  lookup-flush_page e db page other s (clean st q u r) (inr same) =
      rw (r, ← (eq_iff page other).0 same, q) (inl u)
  lookup-flush_page e db page other s (saved st db' q u k r) h =
      rw (r, lookup-mark_saved e page other st.version)
        (Settled-if (page == other) other _ _ h
          λ same. rw (← (eq_iff page other).0 same, q) (Settled-marked page st))
  lookup-flush_page e db page other s (lost st q u k r) h =
      rw (r, lookup-drop_idle e page other)
        (Settled-if (page == other) other _ _ h
          λ same. rw (← (eq_iff page other).0 same, q) (Settled-dropped db page st k))

  flush_pages-Settled :
      (pages : List String) (s : OtEngine × Db) (other : String)
      → Settled other (Map.lookup other s.0.pages) ⊎ (any (λ id. id == other) pages ≡ true)
      → Settled other (Map.lookup other (flush_pages f s pages).0.pages)
  unfolding flush_pages any
  flush_pages-Settled [] s other (inl h) = h
  flush_pages-Settled [] s other (inr h) = cc
  flush_pages-Settled (page ∷ pages) (e, db) other h =
      let after = lookup-flush_page e db page other _ (flush_page-Flushed e db page) in
      flush_pages-Settled pages (flush_page f (e, db) page) other (next h after)
    where
      next :
          Settled other (Map.lookup other e.pages)
            ⊎ ((page == other || any (λ id. id == other) pages) ≡ true)
          → (Settled other (Map.lookup other e.pages) ⊎ ((page == other) ≡ true)
              → Settled other (Map.lookup other (flush_page f (e, db) page).0.pages))
          → Settled other (Map.lookup other (flush_page f (e, db) page).0.pages)
            ⊎ (any (λ id. id == other) pages ≡ true)
      next (inl k) step = inl (step (inl k))
      next (inr k) step = elim (Bool-cases (page == other)) [
        | inl same ↦ inl (step (inr same))
        | inr not_same ↦ inr (rw not_same at k)
      ]

  -- Whatever saves fail: a page that is unsaved after a flush has a client connected, and a save
  -- of its snapshot for its author has failed.
  flush-Settled :
      (s : OtEngine × Db) (page : String) (st : PageState)
      → Map.lookup page (flush f s).0.pages ≡ some st
      → unsaved st ≡ true
      → (no_clients st ≡ false) × ((db : Db) × (save db page st.snapshot st.snapshot_by ≡ none))
  unfolding flush dirty_pages
  flush-Settled (e, db) page st h u = settled (Map.lookup page e.pages) refl
    where
      use_it :
          Settled page (Map.lookup page (flush f (e, db)).0.pages)
          → (no_clients st ≡ false) × ((db : Db) × (save db page st.snapshot st.snapshot_by ≡ none))
      use_it k = elim (rw h at k) [ inl off ↦ absurd (false≢true (sym off ∙ u)) | inr r ↦ r ]

      settled :
          (o : Option PageState)
          → Map.lookup page e.pages ≡ o
          → (no_clients st ≡ false) × ((db : Db) × (save db page st.snapshot st.snapshot_by ≡ none))
      settled none q = use_it (flush_pages-Settled (dirty_in e.pages) (e, db) page (inl (rw q tt)))
      settled (some old) q = elim (Bool-cases (unsaved old)) [
        | inl dirty ↦ use_it (
            flush_pages-Settled (dirty_in e.pages) (e, db) page
              (inr (dirty_in-any e.pages page old q dirty)))
        | inr fine ↦
            use_it (flush_pages-Settled (dirty_in e.pages) (e, db) page (inl (rw q (inl fine))))
      ]
