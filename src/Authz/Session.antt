-- ===== src/Authz/Session.antt =====
-- internal/collab/access.go: the scope, the actor and the edit tier of a web socket, from the roster as it
-- is now. The roster and the scoped page lookup are interfaces there, so they are arguments.
use talyvor_docs.Prelude.{String, Bool, true, false, Option, none, some, List, ◌==◌, if◌then◌else◌}
use talyvor_docs.Postgres.Rows.{Db, AccessLevel}
use talyvor_docs.Postgres.Sql.{Sql, Result, ok, err}
use talyvor_docs.Authz.{Context, Membership, email, with_memberships}
use talyvor_docs.Authz.Space.{PageMeta, page_level, reaches}

abbrev pub Roster : Type 0
Roster = String → Sql (List Membership)

abbrev pub refreshed : String → Result (List Membership) → Option Context
refreshed address (ok ms) = some (with_memberships address ms)
refreshed address (err e) = none

unfoldable pub refresh_roster : Option Roster → Context → Db → Option Context × Db
refresh_roster none ctx db = (none, db)
refresh_roster (some roster) ctx db = elim (email ctx) [
  | none ↦ (none, db)
  | some address ↦
      if address == ""
      then (none, db)
      else let (ms, db') = roster address db in (refreshed address ms, db')
]

-- The actor that the session carries and whether he may edit.
abbrev pub tier : Option (String × Result AccessLevel) → String × Bool
tier none = ("", false)
tier (some (actor, level)) = (actor, reaches AccessLevel.edit level)

abbrev pub session_found : Context → String → Result PageMeta → Db → (Bool × String × Bool) × Db
session_found ctx page (err e) db = ((false, "", false), db)
session_found ctx page (ok md) db =
    let (level, db') = page_level ctx page md db in ((true, (tier level).0, (tier level).1), db')

-- (in scope, actor, can edit)
unfoldable pub resolve_session :
    Option Roster
    → (Context → String → Sql PageMeta)
    → Context
    → String
    → Db
    → (Bool × String × Bool) × Db
unfolding refresh_roster page_level
resolve_session roster page_meta ctx page db =
    let (fresh, db') = refresh_roster roster ctx db in
    elim fresh [
      | none ↦ ((false, "", false), db')
      | some ctx' ↦ let (md, db'') = page_meta ctx' page db' in session_found ctx' page md db''
    ]
