-- ===== src/EditSession/Slot.antt =====
-- Who can take the writer slot away.
use mathlib.Core.List.{foldl}
use talyvor_docs.Prelude.{
  ℕ, ◌+◌, ◌≤◌, ◌<◌, String, ◌≡◌, refl, Bool, true, false, ◌&&◌, Option, none, some, List, [], ◌∷◌,
  arith, ◌==◌, eq_iff, any, Option-cases, inl, inr, leb,
}
use talyvor_docs.Postgres.Rows.{Db, SessionRow}
use talyvor_docs.Postgres.Sql.{pure, Keeps, keep_bind}
use talyvor_docs.Postgres.Tables.{
  find_session, find_session-page, find_session-set_session, find_session-delete_session,
}
use talyvor_docs.EditSession.{
  claim, upsert, beat, drop_session, answer_beat, page_workspace, read, report, holder_name,
  heartbeat, release, may_write, can_edit, get, Claim, claimed_row,
}

-- The row of the upsert is the page's own.
pub claimed_row-page :
    (page ws by : String) (now : ℕ) (rows : List SessionRow)
    → (claimed_row page ws by now (find_session page rows)).page_id ≡ page
claimed_row-page page ws by now rows = elim (Option-cases (find_session page rows)) [
  | inl q ↦ ground arith
  | inr (s, q) ↦ ground (arith, find_session-page page rows s)
]

abbrev live_until : ℕ → String → ℕ → Option SessionRow → Bool
live_until ttl holder deadline none = false
live_until ttl holder deadline (some s) =
    s.holder == holder && leb deadline (s.last_heartbeat + ttl)

-- The holder's session on the page, which stays live until `deadline` at least.
abbrev pub IsLive : ℕ → String → String → ℕ → Db → Type 0
IsLive ttl page holder deadline db =
    live_until ttl holder deadline (find_session page db.sessions) ≡ true

-- The operations of the store, and time that goes by.
pub data SlotOp : Type 0 where
  claims beats releases writes observes : String → List String → String → SlotOp
  edits : String → String → Bool → SlotOp
  waits : ℕ → SlotOp

unfoldable pub run_op : ℕ → Db → SlotOp → Db
unfolding claim heartbeat release may_write can_edit get
run_op ttl db (claims page ws by) = (claim ttl page ws by db).1
run_op ttl db (beats page ws by) = (heartbeat ttl page ws by db).1
run_op ttl db (releases page ws by) = (release page ws by db).1
run_op ttl db (writes page ws by) = (may_write ttl page ws by db).1
run_op ttl db (observes page ws by) = (get ttl page ws db).1
run_op ttl db (edits page member admin) = (can_edit ttl page member admin db).1
run_op ttl db (waits n) = record db { clock = db.clock + n }

abbrev pub gives_up : String → String → SlotOp → Bool
gives_up page holder (releases other ws by) = other == page && (by == holder)
gives_up page holder _ = false

abbrev pub waited : SlotOp → ℕ
waited (waits n) = n
waited _ = 0

unfoldable pub total_wait : List SlotOp → ℕ
total_wait [] = 0
total_wait (op ∷ ops) = waited op + total_wait ops

module _ (ttl deadline now : ℕ) (page holder : String) where
  -- The clock of an operation, and the holder's session at it.
  abbrev IsSafe : Db → Type 0
  IsSafe db = IsLive ttl page holder deadline db × (db.clock ≡ now)

  abbrev IsTimely : Type 0
  IsTimely = (now < deadline) × (deadline ≤ now + ttl)

  page_workspace-IsSafe :
      (other : String) (ws : List String) → Keeps IsSafe (page_workspace other ws)
  unfolding page_workspace
  page_workspace-IsSafe other ws db (live, same) = ground arith

  read-IsSafe : (other : String) → Keeps IsSafe (read ttl other)
  unfolding read
  read-IsSafe other db (live, same) = ground arith

  upsert-IsSafe : (other ws by : String) → IsTimely → Keeps IsSafe (upsert ttl other ws by)
  unfolding upsert
  upsert-IsSafe other ws by (early, late) db (live, same) =
      let laws =
        find_session-set_session other page
          (claimed_row other ws by db.clock (find_session other db.sessions)) db.sessions in
      let rows = claimed_row-page other ws by db.clock db.sessions in
      elim (Option-cases (find_session other db.sessions)) [
        | inl q ↦ ground (arith, laws, rows, eq_iff other page)
        | inr (s, q) ↦ ground (
          arith,
          laws,
          rows,
          eq_iff other page,
          eq_iff s.holder holder,
          eq_iff s.holder by,
          eq_iff by holder,
        )
      ]

  report-IsSafe : (other : String) (row : Option SessionRow) → Keeps IsSafe (report ttl other row)
  report-IsSafe other none =
      keep_bind IsSafe (read ttl other) (λ cur. pure (Claim.refused cur (holder_name cur)))
        (read-IsSafe other) (λ cur db p. p)
  report-IsSafe other (some s) = λ db p. p

  claim-IsSafe :
      (other by : String) (ws : List String) → IsTimely → Keeps IsSafe (claim ttl other ws by)
  unfolding claim
  claim-IsSafe other by ws timely =
      keep_bind IsSafe (page_workspace other ws) _ (page_workspace-IsSafe other ws) λ w.
        keep_bind IsSafe (upsert ttl other w by) (report ttl other)
          (upsert-IsSafe other w by timely) (report-IsSafe other)

  beat-IsSafe : (other by : String) → IsTimely → Keeps IsSafe (beat other by)
  unfolding beat
  beat-IsSafe other by (early, late) db (live, same) =
      elim (Option-cases (find_session other db.sessions)) [
        | inl q ↦ ground arith
        | inr (s, q) ↦ ground (
          arith,
          find_session-set_session other page (record s { last_heartbeat = db.clock }) db.sessions,
          find_session-page other db.sessions s,
          eq_iff other page,
          eq_iff s.holder by,
        )
      ]

  answer_beat-IsSafe : (row : Option SessionRow) → Keeps IsSafe (answer_beat row)
  answer_beat-IsSafe none = λ db p. p
  answer_beat-IsSafe (some s) = λ db p. p

  heartbeat-IsSafe :
      (other by : String) (ws : List String) → IsTimely → Keeps IsSafe (heartbeat ttl other ws by)
  unfolding heartbeat
  heartbeat-IsSafe other by ws timely =
      keep_bind IsSafe (page_workspace other ws) _ (page_workspace-IsSafe other ws) λ w.
        keep_bind IsSafe (beat other by) answer_beat (beat-IsSafe other by timely)
          answer_beat-IsSafe

  drop_session-IsSafe :
      (other by : String)
      → (other == page && (by == holder)) ≡ false
      → Keeps IsSafe (drop_session other by)
  unfolding drop_session
  drop_session-IsSafe other by keeps db (live, same) =
      elim (Option-cases (find_session other db.sessions)) [
        | inl q ↦ ground arith
        | inr (s, q) ↦ ground (
          arith,
          find_session-delete_session other page db.sessions,
          eq_iff other page,
          eq_iff s.holder by,
          eq_iff s.holder holder,
          eq_iff by holder,
        )
      ]

  -- An operation that takes no time.
  at_once : {A : Type 0} {clock : ℕ} → A × (clock ≡ now) → A × (clock ≡ 0 + now)
  at_once (live, same) = (live, ground arith)

  run_op-IsLive :
      (db : Db) (op : SlotOp)
      → IsTimely
      → IsSafe db
      → gives_up page holder op ≡ false
      → IsLive ttl page holder deadline (run_op ttl db op)
        × ((run_op ttl db op).clock ≡ waited op + now)
  unfolding run_op
  run_op-IsLive db (claims other ws by) timely p keeps =
      at_once (claim-IsSafe other by ws timely db p)
  run_op-IsLive db (beats other ws by) timely p keeps =
      at_once (heartbeat-IsSafe other by ws timely db p)
  run_op-IsLive db (releases other ws by) timely p keeps = at_once (
      keep_bind IsSafe (page_workspace other ws) _ (page_workspace-IsSafe other ws)
        (λ w. drop_session-IsSafe other by keeps) db p)
  run_op-IsLive db (writes other ws member) timely p keeps = at_once (
      keep_bind IsSafe (page_workspace other ws) _ (page_workspace-IsSafe other ws)
        (λ w. keep_bind IsSafe (read ttl other) _ (read-IsSafe other) (λ s db' p'. p')) db p)
  run_op-IsLive db (observes other ws by) timely p keeps = at_once (
      keep_bind IsSafe (page_workspace other ws) _ (page_workspace-IsSafe other ws)
        (λ w. read-IsSafe other) db p)
  run_op-IsLive db (edits other member true) timely p keeps = at_once p
  run_op-IsLive db (edits other member false) timely p keeps =
      at_once (keep_bind IsSafe (read ttl other) _ (read-IsSafe other) (λ s db' p'. p') db p)
  run_op-IsLive db (waits n) timely p keeps = ground arith

-- A live session is never stolen, up to a deadline no later than a heartbeat now would give. As long as the time that the operations wait does not reach the
-- deadline of the holder's session, and none of them is the holder's own release, the
-- page's session stays the holder's and live until that deadline, whatever the others claim,
-- heartbeat, release or check, in whatever workspaces, and whichever statements fail.
pub run_ops-IsLive :
    (ttl deadline : ℕ) (page holder : String) (db : Db) (ops : List SlotOp)
    → IsLive ttl page holder deadline db
    → db.clock + total_wait ops < deadline
    → deadline ≤ db.clock + ttl
    → any (gives_up page holder) ops ≡ false
    → IsLive ttl page holder deadline (foldl (run_op ttl) db ops)
unfolding any total_wait
run_ops-IsLive ttl deadline page holder db [] live early late keeps = live
run_ops-IsLive ttl deadline page holder db (op ∷ ops) live early late keeps =
    let (live', clock) =
      run_op-IsLive ttl deadline db.clock page holder db op (ground arith, late) (live, refl)
        (ground arith) in
    run_ops-IsLive ttl deadline page holder (run_op ttl db op) ops live' (ground arith)
      (ground arith) (ground arith)
