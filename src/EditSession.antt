-- ===== src/EditSession.antt =====
-- internal/editsession/store.go: the ephemeral writer slot of a page. A store has a pool here. Times
-- are in the clock's unit; `ttl` is the window in which a heartbeat keeps a session live.
pub mod Composite
pub mod Slot
pub mod Exclusive
use Prim.Native.String.{◌++◌ as concat}
use talyvor_docs.Prelude.{
  ℕ, ◌+◌, String, Bool, true, false, not, ◌&&◌, ◌||◌, Option, none, some, List, [], ◌∷◌, ◌==◌,
  if◌then◌else◌, leb, ltb,
}
use talyvor_docs.Postgres.Rows.{Db, PageRow, SessionRow}
use talyvor_docs.Postgres.Sql.{
  Sql, pure, raise, ◌>>=◌, ◌>>◌, statement, select, not_found, held_by_other,
}
use talyvor_docs.Postgres.Tables.{
  page_in, find_page, among, find_session, set_session, delete_session,
}

pub record Session : Type 0 where
  pub row : SessionRow
  pub live : Bool

-- `DefaultTTL`, in seconds
abbrev pub default_ttl : ℕ
default_ttl = 30

-- What `claim` gives without an error, and the current session beside ErrHeldByOther.
pub data Claim : Type 0 where
  taken : Session → Claim
  refused : Option Session → String → Claim

abbrev pub workspace_of : Option PageRow → List String → Sql String
workspace_of none workspaces = raise not_found
workspace_of (some r) workspaces =
    if among workspaces r.workspace_id then pure r.workspace_id else raise not_found

unfoldable pub page_workspace : String → List String → Sql String
unfolding select
page_workspace page workspaces = do
  row ← select (λ db. find_page page db.pages)
  workspace_of row workspaces

-- last_heartbeat > now() - ttl
abbrev pub is_live : ℕ → ℕ → SessionRow → Bool
is_live ttl now s = ltb now (s.last_heartbeat + ttl)

abbrev pub observed : ℕ → ℕ → Option SessionRow → Option Session
observed ttl now none = none
observed ttl now (some s) = some (record { row = s; live = is_live ttl now s })

unfoldable pub read : ℕ → String → Sql (Option Session)
unfolding select
read ttl page = select (λ db. observed ttl db.clock (find_session page db.sessions))

unfoldable pub get : ℕ → String → List String → Sql (Option Session)
unfolding page_workspace read
get ttl page workspaces = do _ ← page_workspace page workspaces; read ttl page

-- The WHERE of the upsert: the slot is mine, or expired.
abbrev pub claimable : ℕ → String → ℕ → Option SessionRow → Bool
claimable ttl by now none = true
claimable ttl by now (some s) = (s.holder == by) || leb (s.last_heartbeat + ttl) now

abbrev pub new_session : String → String → String → ℕ → SessionRow
new_session page workspace by now = record {
  page_id = page;
  workspace_id = workspace;
  holder = by;
  acquired_at = now;
  last_heartbeat = now;
}

-- What the upsert leaves in the row: a row that is there keeps its workspace.
abbrev pub claimed_row : String → String → String → ℕ → Option SessionRow → SessionRow
claimed_row page workspace by now none = new_session page workspace by now
claimed_row page workspace by now (some s) = record s {
  holder = by;
  acquired_at = now;
  last_heartbeat = now;
}

-- INSERT … ON CONFLICT (page_id) DO UPDATE … WHERE … RETURNING …
unfoldable pub upsert : ℕ → String → String → String → Sql (Option SessionRow)
unfolding statement
upsert ttl page workspace by = statement λ db.
    let old = find_session page db.sessions in
    let new = claimed_row page workspace by db.clock old in
    if claimable ttl by db.clock old
    then (some new, record db { sessions = set_session page new db.sessions })
    else (none, db)

abbrev pub holder_name : Option Session → String
holder_name none = "another user"
holder_name (some s) = s.row.holder

abbrev pub report : ℕ → String → Option SessionRow → Sql Claim
report ttl page none = do cur ← read ttl page; pure (refused cur (holder_name cur))
report ttl page (some s) = pure (taken (record { row = s; live = true }))

unfoldable pub claim : ℕ → String → List String → String → Sql Claim
unfolding page_workspace upsert read
claim ttl page workspaces by = do
  ws ← page_workspace page workspaces
  row ← upsert ttl page ws by
  report ttl page row

unfoldable pub acquire : ℕ → String → List String → String → Sql Claim
unfolding claim
acquire ttl page workspaces by = claim ttl page workspaces by

unfoldable pub takeover : ℕ → String → List String → String → Sql Claim
unfolding claim
takeover ttl page workspaces by = claim ttl page workspaces by

abbrev pub beat_row : String → ℕ → Option SessionRow → Option SessionRow
beat_row by now none = none
beat_row by now (some s) = if s.holder == by then some (record s { last_heartbeat = now }) else none

abbrev pub put_row : String → Option SessionRow → Db → Db
put_row page none db = db
put_row page (some s) db = record db { sessions = set_session page s db.sessions }

abbrev pub answer_beat : Option SessionRow → Sql Session
answer_beat none = raise held_by_other
answer_beat (some s) = pure (record { row = s; live = true })

-- UPDATE page_edit_sessions SET last_heartbeat = now() WHERE page_id = $1 AND holder = $2 RETURNING …
unfoldable pub beat : String → String → Sql (Option SessionRow)
unfolding statement
beat page by = statement λ db.
    let row = beat_row by db.clock (find_session page db.sessions) in (row, put_row page row db)

unfoldable pub heartbeat : ℕ → String → List String → String → Sql Session
unfolding page_workspace beat
heartbeat ttl page workspaces by = do
  _ ← page_workspace page workspaces
  row ← beat page by
  answer_beat row

abbrev pub drop_if_mine : String → String → Option SessionRow → Db → Db
drop_if_mine page by none db = db
drop_if_mine page by (some s) db =
    if s.holder == by then record db { sessions = delete_session page db.sessions } else db

-- DELETE FROM page_edit_sessions WHERE page_id = $1 AND holder = $2
unfoldable pub drop_session : String → String → Sql (Unit {0})
unfolding statement
drop_session page by = statement λ db. (tt, drop_if_mine page by (find_session page db.sessions) db)

unfoldable pub release : String → List String → String → Sql (Unit {0})
unfolding page_workspace drop_session
release page workspaces by = do _ ← page_workspace page workspaces; drop_session page by

unfoldable pub decide : Option Session → String → Bool × String
decide none member = (true, "")
decide (some s) member =
    if not s.live || (s.row.holder == member)
    then (true, "")
    else (false, concat s.row.holder " is editing")

unfoldable pub may_write : ℕ → String → List String → String → Sql (Bool × String)
unfolding page_workspace read decide
may_write ttl page workspaces member = do
  _ ← page_workspace page workspaces
  sess ← read ttl page
  pure (decide sess member)

unfoldable pub can_edit : ℕ → String → String → Bool → Sql (Bool × String)
unfolding read decide
can_edit ttl page member admin =
    if admin then pure (true, "") else do sess ← read ttl page; pure (decide sess member)
