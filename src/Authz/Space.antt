-- ===== src/Authz/Space.antt =====
-- internal/spaceauth/spaceauth.go: may the verified caller write in a space, or read a page. The scoped
-- lookups of spaces and pages are interfaces there, so they are arguments.
use talyvor_docs.Prelude.{String, Bool, true, false, Option, none, some, List, ◌==◌, if◌then◌else◌}
use talyvor_docs.Postgres.Rows.{Db, AccessLevel}
use talyvor_docs.Postgres.Sql.{Sql, Result, ok, err}
use talyvor_docs.Permission.{check_space, check_page, at_least}
use talyvor_docs.Authz.{Context, workspace_ids, member_id_for_workspace}

-- The columns of a space that the lookup gives.
pub record SpaceMeta : Type 0 where
  pub workspace_id : String
  pub private : Bool
  pub created_by : String

-- `permission.PageMeta`
pub record PageMeta : Type 0 where
  pub workspace_id : String
  pub space_id : String
  pub space_private : Bool
  pub space_created_by : String

pub record Decision : Type 0 where
  pub workspace_id : String
  pub actor : String
  pub found : Bool
  pub can_edit : Bool

abbrev pub refused : Decision
refused = record { workspace_id = ""; actor = ""; found = false; can_edit = false }

-- `MemberIDForWorkspace` with the test for an empty actor
abbrev pub actor_in : Context → String → Option String
actor_in ctx ws = elim (member_id_for_workspace ctx ws) [
  | none ↦ none
  | some member ↦ if member == "" then none else some member
]

-- Whether a check answered with the level or more.
abbrev pub reaches : AccessLevel → Result AccessLevel → Bool
reaches least (ok level) = at_least level least
reaches least (err e) = false

unfoldable pub decide_space : Context → String → SpaceMeta → Db → Decision × Db
unfolding check_space
decide_space ctx space sp db = elim (actor_in ctx sp.workspace_id) [
  | none ↦ (record refused { workspace_id = sp.workspace_id; found = true }, db)
  | some actor ↦
      let (level, db') =
        check_space actor space sp.workspace_id sp.created_by sp.private (workspace_ids ctx) db in
      (
        record {
          workspace_id = sp.workspace_id;
          actor = actor;
          found = true;
          can_edit = reaches AccessLevel.edit level;
        },
        db',
      )
]

abbrev pub decide_found : Context → String → Result (Option SpaceMeta) → Db → Decision × Db
decide_found ctx space (err e) db = (refused, db)
decide_found ctx space (ok none) db = (refused, db)
decide_found ctx space (ok (some sp)) db = decide_space ctx space sp db

unfoldable pub authorize_space_write :
    (String → List String → Sql (Option SpaceMeta)) → Context → String → Db → Decision × Db
unfolding decide_space
authorize_space_write get_space ctx space db =
    if space == ""
    then (refused, db)
    else let (sp, db') = get_space space (workspace_ids ctx) db in decide_found ctx space sp db'

-- The level of the actor on a page whose meta is found, if there is an actor and the check answers.
unfoldable pub page_level :
    Context → String → PageMeta → Db → Option (String × Result AccessLevel) × Db
unfolding check_page
page_level ctx page md db = elim (actor_in ctx md.workspace_id) [
  | none ↦ (none, db)
  | some actor ↦
      let (level, db') =
        check_page actor page md.workspace_id md.space_id md.space_created_by md.space_private
          (workspace_ids ctx) db in
      (some (actor, level), db')
]

abbrev pub can_view : Option (String × Result AccessLevel) → Bool
can_view none = false
can_view (some (actor, level)) = reaches AccessLevel.view level

abbrev pub read_found : Context → String → Result PageMeta → Db → (Bool × Bool) × Db
read_found ctx page (err e) db = ((false, false), db)
read_found ctx page (ok md) db =
    let (level, db') = page_level ctx page md db in ((true, can_view level), db')

-- (found, can view)
unfoldable pub authorize_page_read :
    (Context → String → Sql PageMeta) → Context → String → Db → (Bool × Bool) × Db
unfolding page_level
authorize_page_read page_meta ctx page db =
    if page == ""
    then ((false, false), db)
    else let (md, db') = page_meta ctx page db in read_found ctx page md db'
