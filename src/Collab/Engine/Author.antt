-- ===== src/Collab/Engine/Author.antt =====
-- Who a snapshot is saved for.
use talyvor_docs.Prelude.{ℕ, ◌+◌, String, ◌≡◌, ◌≢◌, refl, sym, ap, ◌∙◌, some, List, [], ◌∷◌, arith}
use talyvor_docs.Prelude.Map
use talyvor_docs.Prelude.Map.{ne_test}
use talyvor_docs.Collab.Types.{Change, PageState, OtEngine, CollabClient}
use talyvor_docs.Collab.Transform.{transform}
use talyvor_docs.Collab.Engine.{
  page_state, snapshot, author, transform_history, commit, store_page, apply, admit, join,
}
use talyvor_docs.Collab.Engine.Log.{page_state-store_page}

transform_history-author :
    (history : List Change) (change : Change)
    → ((transform_history history change).snapshot ≡ change.snapshot)
      × ((transform_history history change).client_id ≡ change.client_id)
unfolding transform_history
transform_history-author [] change = (refl, refl)
transform_history-author (c ∷ history) change = ground (
  arith,
  transform_history-author history change,
  transform_history-author history (transform change c),
)

snapshot-store_page :
    (page : String) (st : PageState) (e : OtEngine)
    → snapshot (store_page page st e) page ≡ (st.snapshot, st.version, st.snapshot_by)
unfolding snapshot store_page
snapshot-store_page page st e = ground (arith, Map.lookup-insert_self page st e.pages)

snapshot-commit :
    (now : ℕ) (st : PageState) (change : Change)
    → change.snapshot ≢ ""
    → ((commit now st change).0.snapshot ≡ change.snapshot)
      × ((commit now st change).0.version ≡ st.version + 1)
      × ((commit now st change).0.snapshot_by ≡ author st change)
unfolding commit
snapshot-commit now st change h = let e = ne_test change.snapshot "" h in rw e (refl, refl, refl)

author-client_id :
    (st : PageState) (a b : Change) → a.client_id ≡ b.client_id → author st a ≡ author st b
unfolding author
author-client_id st a b h = rw h

-- What a join leaves of the page's state.
join-page :
    (e e' : OtEngine) (page client member name : String) (c : CollabClient)
    → join e page client member name ≡ some (e', c)
    → (page_state e' page
        ≡ record (page_state e page) { clients = Map.insert client c (page_state e page).clients })
      × (c.member_id ≡ member)
unfolding join
join-page e e' page client member name c h =
    let p : admit e page client member name ≡ (e', c) = ground arith in
    let now = page_state-store_page page _ e in
    (
      sym (ap (λ (r : OtEngine × CollabClient). page_state r.0 page) p)
          ∙ now
          ∙ ap
              (λ (r : OtEngine × CollabClient). record (page_state e page) {
                clients = Map.insert client r.1 (page_state e page).clients;
              })
              p,
      sym (ap (λ (r : OtEngine × CollabClient). r.1.member_id) p),
    )

-- A change with a snapshot makes it the page's snapshot, at the page's next version, and its
-- author is the member whose connection the engine holds under the change's client id; where it
-- holds none, the author stays who it was.
apply-author :
    (now : ℕ) (e : OtEngine) (page : String) (change : Change)
    → change.snapshot ≢ ""
    → snapshot (apply now e page change).0 page
      ≡ (change.snapshot, (page_state e page).version + 1, author (page_state e page) change)
unfolding apply
apply-author now e page change h =
    let st = page_state e page in
    let merged = transform_history st.history change in
    let (same, sender) = transform_history-author st.history change in
    let (text, version, by) =
      snapshot-commit now st merged (λ none_sent. h (sym same ∙ none_sent)) in
    snapshot-store_page page (commit now st merged).0 e
    ∙ cc (text, same, version, by, author-client_id st merged change sender)

-- After a join, a change that comes under the client id of the join is saved for the member who
-- joined, whichever socket sent it: the engine looks the author up by the client id alone.
pub apply-join_author :
    (now : ℕ) (e e' : OtEngine) (page client member name : String) (c : CollabClient)
    (change : Change)
    → join e page client member name ≡ some (e', c)
    → change.client_id ≡ client
    → change.snapshot ≢ ""
    → snapshot (apply now e' page change).0 page
      ≡ (change.snapshot, (page_state e page).version + 1, member)
unfolding author
apply-join_author now e e' page client member name c change joined sender h =
    let (state, by) = join-page e e' page client member name c joined in
    let held = Map.lookup-insert_self client c (page_state e page).clients in
    apply-author now e' page change h ∙ rw (state, sender) (ground (arith, held))
