-- ===== src/Collab/Handler.antt =====
-- internal/collab/handler.go: `dispatch`, which routes one inbound frame. The session resolver and
-- the lock guard are interfaces there, so they are parameters.
pub mod Gate
use talyvor_docs.Prelude.{ℕ, String, Bool, false, true, Option, none, some, if◌then◌else◌}
use talyvor_docs.Collab.Types.{Change, CursorPos, CollabClient, Message, OtEngine}
use talyvor_docs.Collab.Channels.{try_send}
use talyvor_docs.Collab.Engine.{apply, broadcast_change, update_cursor}

-- An inbound frame after decoding; a frame with an unknown type is `other`.
pub data Frame : Type 0 where
  undecodable other ping : Frame
  change : Option Change → Frame
  cursor : Option CursorPos → Frame

-- The answer of `CanEdit`: an error, or whether the member may edit, and the reason.
pub data Verdict : Type 0 where
  failed : Verdict
  answer : Bool → String → Verdict

-- `resolve` is `ResolveSession` at this frame, of which `dispatch` reads the edit tier, and
-- `guard` is the lock guard's `CanEdit` of a page for a member. Either may be absent.
pub record Gates : Type 0 where
  pub resolve : Option (String → Bool)
  pub guard : Option (String → String → Verdict)

unfoldable pub reject : OtEngine → CollabClient → String → OtEngine
reject e c reason = record e {
  channels = try_send c.send (Message.change_rejected reason) e.channels;
}

abbrev pub no_edit_access : String
no_edit_access = "you do not have edit access to this page"

-- The reason for which a change is refused, if it is.
unfoldable pub refusal : Gates → Bool → String → String → Option String
refusal g can_edit page member =
    let tier : Bool = elim g.resolve [ none ↦ can_edit | some resolve ↦ resolve page ] in
    if tier
    then (elim g.guard [
      | none ↦ none
      | some guard ↦ elim (guard page member) [
        | failed ↦ none
        | answer may_edit reason ↦ if may_edit then none else some reason
      ]
    ])
    else some no_edit_access

unfoldable pub acknowledge : CollabClient → OtEngine × Change → OtEngine
acknowledge c (e, applied) = record e {
  channels = try_send c.send (Message.ack applied.id applied.version) e.channels;
}

-- An accepted change: applied under the socket's identity, acknowledged, and broadcast.
unfoldable pub accept : ℕ → OtEngine → String → CollabClient → Change → OtEngine
unfolding acknowledge
accept now e page c ch =
    let sent = apply now e page (record ch { client_id = c.id; page_id = page }) in
    broadcast_change (acknowledge c sent) page sent.1 c.id

unfoldable pub dispatch_change :
    ℕ → Gates → OtEngine → String → CollabClient → Bool → Change → OtEngine
unfolding refusal reject accept
dispatch_change now g e page c can_edit ch = elim (refusal g can_edit page c.member_id) [
  | none ↦ accept now e page c ch
  | some reason ↦ reject e c reason
]

-- `dispatch` always returns true, so the new engine is all that there is to return.
unfoldable pub dispatch : ℕ → Gates → OtEngine → String → CollabClient → Bool → Frame → OtEngine
unfolding dispatch_change
dispatch now g e page c can_edit undecodable = e
dispatch now g e page c can_edit other = e
dispatch now g e page c can_edit ping = record e {
  channels = try_send c.send Message.pong e.channels;
}
dispatch now g e page c can_edit (change none) = e
dispatch now g e page c can_edit (change (some ch)) = dispatch_change now g e page c can_edit ch
dispatch now g e page c can_edit (cursor none) = e
dispatch now g e page c can_edit (cursor (some pos)) = update_cursor e page c.id pos
