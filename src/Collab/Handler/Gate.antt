-- ===== src/Collab/Handler/Gate.antt =====
-- What a refused and an accepted change do to the engine.
use talyvor_docs.Prelude.{ℕ, String, ◌≡◌, not, ◌&&◌, if◌then◌else◌, Bool, false, none, some, arith}
use talyvor_docs.Collab.Types.{Change, CollabClient, OtEngine}
use talyvor_docs.Collab.Engine.{apply, broadcast_change}
use talyvor_docs.Collab.Handler.{Gates, answer, failed, acknowledge, dispatch, change}

-- The member has the edit tier at this frame.
abbrev pub has_tier : Gates → Bool → String → Bool
has_tier g can_edit page = elim g.resolve [ none ↦ can_edit | some r ↦ r page ]

-- The lock guard has answered, and its answer is no.
abbrev pub denied : Gates → String → String → Bool
denied g page member = elim g.guard [
  | none ↦ false
  | some guard ↦ elim (guard page member) [ failed ↦ false | answer may_edit reason ↦ not may_edit ]
]

pages-broadcast_change :
    (e : OtEngine) (page : String) (ch : Change) (except : String)
    → (broadcast_change e page ch except).pages ≡ e.pages
unfolding broadcast_change
pages-broadcast_change e page ch except = ground arith

-- A change frame changes the pages exactly where the member has the edit tier at this frame and
-- the lock guard does not answer no: there it is applied under the socket's client id and page.
-- A guard that fails to answer stops nothing.
pub dispatch-change :
    (now : ℕ) (g : Gates) (e : OtEngine) (page : String) (c : CollabClient) (can_edit : Bool)
    (ch : Change)
    → (dispatch now g e page c can_edit (change (some ch))).pages ≡ (
        if has_tier g can_edit page && not (denied g page c.member_id)
        then (apply now e page (record ch { client_id = c.id; page_id = page })).0.pages
        else e.pages)
unfolding dispatch
dispatch-change now g e page c can_edit ch =
    let sent = apply now e page (record ch { client_id = c.id; page_id = page }) in
    ground (arith, pages-broadcast_change (acknowledge c sent) page sent.1 c.id)

-- Nothing that a frame says of its sender or its page has an effect, and where a session resolver
-- is there, neither has the tier that was resolved when the socket was opened.
dispatch-identity :
    (now : ℕ) (g : Gates) (e : OtEngine) (page : String) (c : CollabClient) (at_connect : Bool)
    (ch : Change) (client other : String) (resolve : String → Bool)
    → g.resolve ≡ some resolve
    → dispatch now g e page c at_connect
        (change (some (record ch { client_id = client; page_id = other })))
      ≡ dispatch now g e page c false (change (some ch))
unfolding dispatch
dispatch-identity now g e page c at_connect ch client other resolve h = rw h
