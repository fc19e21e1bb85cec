-- ===== src/Collab/Saver/Leave.antt =====
-- The last edit of a session, at the moment its client disconnects.
use talyvor_docs.Prelude.{
  String, ◌≡◌, ◌⊎◌, inl, inr, refl, ◌∙◌, Bool, true, false, Option, none, some, arith, Option-rule,
  if-rule, eq_refl,
}
use talyvor_docs.Prelude.Map
use talyvor_docs.Collab.Types.{OtEngine, PageState, CollabClient}
use talyvor_docs.Collab.Engine.{unsaved, leave, leave_client}
use talyvor_docs.Collab.Saver.{SaveFunc, save_idle, leave_and_save}
use talyvor_docs.Collab.Saver.Clean.{Flushed, absent, clean, saved, lost, save_idle-Flushed}
use talyvor_docs.Collab.Saver.Durable.{Storage}

-- The page is in memory, unsaved, with the same snapshot and author.
abbrev pub StillHeld : PageState → Option PageState → Type 0
StillHeld st none = ⊥
StillHeld st (some st') =
    (unsaved st' ≡ true) × (st'.snapshot ≡ st.snapshot) × (st'.snapshot_by ≡ st.snapshot_by)

StillHeld-self : (st : PageState) → unsaved st ≡ true → StillHeld st (some st)
StillHeld-self st u = (u, refl, refl)

leave_client-pages :
    (e : OtEngine) (page client : String) (st : PageState) (c : CollabClient)
    → e.on_idle ≡ true
    → unsaved st ≡ true
    → (leave_client e page st client c).0.pages
      ≡ Map.insert page (record st { clients = Map.erase client st.clients }) e.pages
unfolding leave_client
leave_client-pages e page client st c hook u = ground arith

leave_client-StillHeld :
    (e : OtEngine) (page client : String) (st : PageState) (c : CollabClient)
    → e.on_idle ≡ true
    → unsaved st ≡ true
    → StillHeld st (Map.lookup page (leave_client e page st client c).0.pages)
unfolding unsaved
leave_client-StillHeld e page client st c hook u =
    let st' = record st { clients = Map.erase client st.clients } in
    rw (leave_client-pages e page client st c hook u)
      (rw (Map.lookup-insert_self page st' e.pages) (u, refl, refl))

leave-StillHeld :
    (e : OtEngine) (page client : String) (st : PageState)
    → e.on_idle ≡ true
    → Map.lookup page e.pages ≡ some st
    → unsaved st ≡ true
    → StillHeld st (Map.lookup page (leave e page client).0.pages)
unfolding leave
leave-StillHeld e page client st hook q u =
    rw (q, leave)
      (Option-rule (λ (r : OtEngine × Bool). StillHeld st (Map.lookup page r.0.pages))
        (Map.lookup client st.clients) (e, false) _ (λ _. rw q (StillHeld-self st u))
        (λ c _. leave_client-StillHeld e page client st c hook u))

module _ (f : SaveFunc) (m : Storage f) where
  abbrev KeptOrStored : PageState → String → OtEngine × f.Db → Type 0
  KeptOrStored st page s =
      StillHeld st (Map.lookup page s.0.pages)
      ⊎ (m.stored s.1 page ≡ some (st.snapshot, st.snapshot_by))

  save_idle-KeptOrStored :
      (e : OtEngine) (db : f.Db) (page : String) (st : PageState)
      → StillHeld st (Map.lookup page e.pages)
      → KeptOrStored st page (save_idle f (e, db) page)
  save_idle-KeptOrStored e db page st held =
      done (save_idle f (e, db) page) (save_idle-Flushed f e db page)
    where
      done : (s : OtEngine × f.Db) → Flushed f e db page e s → KeptOrStored st page s
      done s (absent q r) = rw r (inl held)
      done s (clean st' q u r) = rw r (inl held)
      done s (lost st' q u k r) = rw r (inl held)
      done s (saved st' db' q u k r) =
          let (_, text, by) = rw q at held in
          rw r (
            inr (
              m.stored-save db db' page st'.snapshot st'.snapshot_by page k
              ∙ rw (eq_refl page, text, by)))

  -- With the saver installed, a disconnect never loses an unsaved snapshot, whoever leaves and
  -- whether the save fails: afterwards the page is still held unsaved, with the snapshot and its
  -- author, or the database has stored both.
  leave_and_save-keeps :
      (e : OtEngine) (db : f.Db) (page client : String) (st : PageState)
      → e.on_idle ≡ true
      → Map.lookup page e.pages ≡ some st
      → unsaved st ≡ true
      → StillHeld st (Map.lookup page (leave_and_save f (e, db) page client).0.pages)
        ⊎ (m.stored (leave_and_save f (e, db) page client).1 page
            ≡ some (st.snapshot, st.snapshot_by))
  unfolding leave_and_save
  leave_and_save-keeps e db page client st hook q u =
      let held = leave-StillHeld e page client st hook q u in
      if-rule (KeptOrStored st page) (leave e page client).1 _ _
        (λ _. save_idle-KeptOrStored (leave e page client).0 db page st held) (λ _. inl held)
