-- ===== src/Collab/Saver/Durable.antt =====
-- What the database holds for a page that counts as saved.
use mathlib.Core.Path.{subst}
use mathlib.Core.List.{foldl}
use talyvor_docs.Prelude.{
  ℕ, ◌≤◌, String, ◌≡◌, ◌⊎◌, inl, inr, ◌∙◌, Bool, false, not, ◌&&◌, ◌||◌, Option, none, some, List,
  [], ◌∷◌, arith, if◌then◌else◌, Option-rule, if-rule, ◌==◌, eq_iff, eq_refl,
}
use talyvor_docs.Prelude.Map
use talyvor_docs.Prelude.Map.{Map, ne_test}
use talyvor_docs.Collab.Types.{OtEngine, PageState, Change, CursorPos, CollabClient}
use talyvor_docs.Collab.Engine.{
  unsaved, page_state, mark_saved, drop_idle, dirty_pages, no_clients, raise_saved, join, admit,
  leave, leave_client, commit, apply, transform_history, update_cursor, new_engine,
}
use talyvor_docs.Collab.Saver.{
  SaveFunc, save_idle, flush_page, flush_pages, flush, leave_and_save, install,
}
use talyvor_docs.Collab.Saver.Entries.{lookup-mark_saved, lookup-drop_idle, dropped}
use talyvor_docs.Collab.Saver.Clean.{
  Flushed, absent, clean, saved, lost, flush_page-Flushed, save_idle-Flushed,
}

-- What is read back from the database: the content of a page and the member that wrote it. A save
-- that succeeds writes its own page, and no other.
pub record Storage (f : SaveFunc) : Type 0 where
  pub stored : f.Db → String → Option (String × String)
  pub stored-save :
      (db db' : f.Db) (page content member other : String)
      → f.save db page content member ≡ some db'
      → stored db' other ≡ (if page == other then some (content, member) else stored db other)

module _ (f : SaveFunc) (m : Storage f) where
  open f use {Db, save}
  open m use {stored, stored-save}

  -- The saved version is one that the page has had, and a page that counts as saved is stored,
  -- with its author.
  abbrev pub Kept : Db → String → Option PageState → Type 0
  Kept db page none = Unit
  Kept db page (some st) =
      (st.saved_version ≤ st.version)
      × (unsaved st ≡ false
          → (st.snapshot == "") ≡ false
          → stored db page ≡ some (st.snapshot, st.snapshot_by))

  abbrev AllKept : Db → Map PageState → Type 0
  AllKept db pages = (page : String) → Kept db page (Map.lookup page pages)

  abbrev pub IsDurable : OtEngine × Db → Type 0
  IsDurable s = AllKept s.1 s.0.pages

  Kept-page_state :
      (e : OtEngine) (db : Db) (page : String)
      → AllKept db e.pages
      → Kept db page (some (page_state e page))
  unfolding page_state
  Kept-page_state e db page h =
      Option-rule (λ st. Kept db page (some st)) (Map.lookup page e.pages) _ _
        (λ q. (omega arith, λ u v. cc)) (λ st q. rw q at (h page))

  AllKept-insert :
      (db : Db) (page : String) (st : PageState) (pages : Map PageState)
      → AllKept db pages
      → Kept db page (some st)
      → AllKept db (Map.insert page st pages)
  AllKept-insert db page st pages h k other = rw (Map.lookup-insert page other st pages) (
      if-rule (Kept db other) (page == other) _ _
        (λ same. subst (λ p. Kept db p (some st)) ((eq_iff page other).0 same) k) (λ _. h other))

  AllKept-erase :
      (db : Db) (page : String) (pages : Map PageState)
      → AllKept db pages
      → AllKept db (Map.erase page pages)
  AllKept-erase db page pages h other =
      rw (Map.lookup-erase page other pages)
        (if-rule (Kept db other) (page == other) _ _ (λ _. tt) (λ _. h other))

  AllKept-clients :
      (db : Db) (page : String) (st : PageState) (clients : Map CollabClient)
      (pages : Map PageState)
      → AllKept db pages
      → Kept db page (some st)
      → AllKept db (Map.insert page (record st { clients = clients }) pages)
  unfolding unsaved
  AllKept-clients db page st clients pages h k =
      AllKept-insert db page (record st { clients = clients }) pages h k

  join-IsDurable :
      (e : OtEngine) (db : Db) (page client member name : String)
      → AllKept db e.pages
      → AllKept db (admit e page client member name).0.pages
  unfolding admit
  join-IsDurable e db page client member name h =
      AllKept-clients db page (page_state e page) _ e.pages h (Kept-page_state e db page h)

  commit-Kept :
      (db : Db) (page : String) (now : ℕ) (st : PageState) (change : Change)
      → Kept db page (some st)
      → Kept db page (some (commit now st change).0)
  unfolding commit unsaved
  commit-Kept db page now st change (h, k) = (ground arith, λ u v. absurd (ground arith))

  apply-IsDurable :
      (now : ℕ) (e : OtEngine) (db : Db) (page : String) (change : Change)
      → AllKept db e.pages
      → AllKept db (apply now e page change).0.pages
  unfolding apply
  apply-IsDurable now e db page change h =
      let st = page_state e page in
      AllKept-insert db page _ e.pages h (
        commit-Kept db page now st (transform_history st.history change)
          (Kept-page_state e db page h))

  update_cursor-IsDurable :
      (e : OtEngine) (db : Db) (page client : String) (cursor : CursorPos)
      → AllKept db e.pages
      → AllKept db (update_cursor e page client cursor).pages
  unfolding update_cursor
  update_cursor-IsDurable e db page client cursor h =
      Option-rule (λ e'. AllKept db e'.pages) (Map.lookup page e.pages) e _ (λ _. h)
        λ st q.
          Option-rule (λ e'. AllKept db e'.pages) (Map.lookup client st.clients) e _ (λ _. h)
            λ c _. AllKept-clients db page st _ e.pages h (rw q at (h page))

  pages-leave_client :
      (e : OtEngine) (page client : String) (st : PageState) (c : CollabClient)
      → ((leave_client e page st client c).0.pages
          ≡ Map.insert page (record st { clients = Map.erase client st.clients }) e.pages)
        ⊎ ((leave_client e page st client c).0.pages ≡ Map.erase page e.pages)
  unfolding leave_client
  pages-leave_client e page client st c = ground arith

  leave_client-IsDurable :
      (e : OtEngine) (db : Db) (page client : String) (st : PageState) (c : CollabClient)
      → AllKept db e.pages
      → Kept db page (some st)
      → AllKept db (leave_client e page st client c).0.pages
  leave_client-IsDurable e db page client st c h k = elim (pages-leave_client e page client st c) [
    | inl r ↦ rw r (AllKept-clients db page st (Map.erase client st.clients) e.pages h k)
    | inr r ↦ rw r (AllKept-erase db page e.pages h)
  ]

  leave-IsDurable :
      (e : OtEngine) (db : Db) (page client : String)
      → AllKept db e.pages
      → AllKept db (leave e page client).0.pages
  unfolding leave
  leave-IsDurable e db page client h =
      Option-rule (λ (r : OtEngine × Bool). AllKept db r.0.pages) (Map.lookup page e.pages)
        (e, false) _ (λ _. h)
        λ st q.
          Option-rule (λ (r : OtEngine × Bool). AllKept db r.0.pages) (Map.lookup client st.clients)
            (e, false) _ (λ _. h)
            λ c _. leave_client-IsDurable e db page client st c h (rw q at (h page))

  raise_saved-Kept :
      (e : OtEngine) (db db' : Db) (page : String) (st : PageState)
      → save db page st.snapshot st.snapshot_by ≡ some db'
      → Kept db page (some st)
      → Kept db' page (some (raise_saved st.version st))
  unfolding raise_saved
  raise_saved-Kept e db db' page st k (h, _) = (
    ground arith,
    λ _ _. stored-save db db' page st.snapshot st.snapshot_by page k ∙ rw (eq_refl page),
  )

  Kept-other :
      (db db' : Db) (page other : String) (st : PageState) (o : Option PageState)
      → save db page st.snapshot st.snapshot_by ≡ some db'
      → (page == other) ≡ false
      → Kept db other o
      → Kept db' other o
  Kept-other db db' page other st none k differ h = tt
  Kept-other db db' page other st (some st') k differ (h, same) =
      (h, λ u v. stored-save db db' page st.snapshot st.snapshot_by other k ∙ rw differ (same u v))

  -- A save that succeeds, and what follows it.
  mark_saved-IsDurable :
      (e : OtEngine) (db db' : Db) (page : String) (st : PageState)
      → AllKept db e.pages
      → Map.lookup page e.pages ≡ some st
      → save db page st.snapshot st.snapshot_by ≡ some db'
      → AllKept db' (mark_saved e page st.version).pages
  mark_saved-IsDurable e db db' page st h q k other =
      rw (lookup-mark_saved e page other st.version) (
        if-rule (Kept db' other) (page == other) _ _
          (λ same.
            rw (q, ← (eq_iff page other).0 same)
              (if-rule (Kept db' page)
                (no_clients (raise_saved st.version st)
                  && not (unsaved (raise_saved st.version st)))
                none (some (raise_saved st.version st)) (λ _. tt)
                (λ _. raise_saved-Kept e db db' page st k (rw q at (h page)))))
          (λ differ. Kept-other db db' page other st (Map.lookup other e.pages) k differ (h other)))

  drop_idle-IsDurable :
      (e : OtEngine) (db : Db) (page : String)
      → AllKept db e.pages
      → AllKept db (drop_idle e page).0.pages
  drop_idle-IsDurable e db page h other = rw (lookup-drop_idle e page other) (
      if-rule (Kept db other) (page == other) _ _
        (λ same.
          subst (λ p. Kept db p (dropped (Map.lookup page e.pages))) ((eq_iff page other).0 same)
            (dropped-Kept (Map.lookup page e.pages) (h page)))
        (λ _. h other))
    where
      dropped-Kept : (o : Option PageState) → Kept db page o → Kept db page (dropped o)
      dropped-Kept none k = tt
      dropped-Kept (some st) k =
          if-rule (Kept db page) (no_clients st) none (some st) (λ _. tt) (λ _. k)

  flush_page-IsDurable :
      (e : OtEngine) (db : Db) (page : String)
      → IsDurable (e, db)
      → IsDurable (flush_page f (e, db) page)
  flush_page-IsDurable e db page h =
      round (flush_page f (e, db) page) (flush_page-Flushed f e db page)
    where
      round : (s : OtEngine × Db) → Flushed f e db page (drop_idle e page).0 s → IsDurable s
      round s (absent q r) = rw r h
      round s (clean st q u r) = rw r h
      round s (saved st db' q u k r) = rw r (mark_saved-IsDurable e db db' page st h q k)
      round s (lost st q u k r) = rw r (drop_idle-IsDurable e db page h)

  flush_pages-IsDurable :
      (pages : List String) (s : OtEngine × Db) → IsDurable s → IsDurable (flush_pages f s pages)
  unfolding flush_pages
  flush_pages-IsDurable [] s h = h
  flush_pages-IsDurable (page ∷ pages) (e, db) h =
      flush_pages-IsDurable pages (flush_page f (e, db) page) (flush_page-IsDurable e db page h)

  save_idle-IsDurable :
      (e : OtEngine) (db : Db) (page : String)
      → IsDurable (e, db)
      → IsDurable (save_idle f (e, db) page)
  save_idle-IsDurable e db page h = done (save_idle f (e, db) page) (save_idle-Flushed f e db page)
    where
      done : (s : OtEngine × Db) → Flushed f e db page e s → IsDurable s
      done s (absent q r) = rw r h
      done s (clean st q u r) = rw r h
      done s (saved st db' q u k r) = rw r (mark_saved-IsDurable e db db' page st h q k)
      done s (lost st q u k r) = rw r h

  -- What happens to an engine with its saver. A save is one step here.
  pub data Event : Type 0 where
    joins : String → String → String → String → Event
    leaves : String → String → Event
    changes : ℕ → String → Change → Event
    moves_cursor : String → String → CursorPos → Event
    flushes : Event

  unfoldable pub step : OtEngine × Db → Event → OtEngine × Db
  step (e, db) (joins page client member name) = elim (join e page client member name) [
    | none ↦ (e, db)
    | some (e', c) ↦ (e', db)
  ]
  step s (leaves page client) = leave_and_save f s page client
  step (e, db) (changes now page change) = ((apply now e page change).0, db)
  step (e, db) (moves_cursor page client cursor) = (update_cursor e page client cursor, db)
  step s flushes = flush f s

  step-IsDurable : (s : OtEngine × Db) (event : Event) → IsDurable s → IsDurable (step s event)
  unfolding step join flush leave_and_save
  step-IsDurable (e, db) (joins page client member name) h =
      if-rule
        (λ (o : Option (OtEngine × CollabClient)).
          IsDurable (elim o as (λ _. OtEngine × Db) [ none ↦ (e, db) | some r ↦ (r.0, db) ]))
        (page == "" || client == "") none (some (admit e page client member name)) (λ _. h)
        (λ _. join-IsDurable e db page client member name h)
  step-IsDurable (e, db) (leaves page client) h =
      let left = leave-IsDurable e db page client h in
      if-rule IsDurable (leave e page client).1 _ _
        (λ _. save_idle-IsDurable (leave e page client).0 db page left) (λ _. left)
  step-IsDurable (e, db) (changes now page change) h = apply-IsDurable now e db page change h
  step-IsDurable (e, db) (moves_cursor page client cursor) h =
      update_cursor-IsDurable e db page client cursor h
  step-IsDurable (e, db) flushes h = flush_pages-IsDurable (dirty_pages e) (e, db) h

  -- The invariant along every sequence of events.
  pub run-AllKept :
      (db : Db) (events : List Event) → IsDurable (foldl step (install new_engine, db) events)
  unfolding install Map.lookup
  run-AllKept db events = from (install new_engine, db) events (λ page. tt)
    where
      from :
          (s : OtEngine × Db) (events : List Event) → IsDurable s → IsDurable (foldl step s events)
      from s [] h = h
      from s (event ∷ events) h = from (step s event) events (step-IsDurable s event h)
