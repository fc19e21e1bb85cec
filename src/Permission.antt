-- ===== src/Permission.antt =====
-- internal/permission/store.go: grants on spaces and pages, and the rules that turn them into an
-- access level. A store has a pool here. The id of a new grant is an argument.
pub mod Resolve
pub mod Grants
use talyvor_docs.Prelude.{
  ℕ, String, Bool, true, false, not, ◌&&◌, ◌||◌, Option, none, some, List, [], ◌∷◌, ◌==◌,
  if◌then◌else◌, ltb, leb, any, select as filter,
}
use talyvor_docs.Postgres.Rows.{Db, AccessLevel, ResourceType, Permission, TeamRow, TeamMember}
use talyvor_docs.Postgres.Sql.{
  Sql, Result, ok, err, pure, raise, ◌>>=◌, ◌>>◌, statement, select, not_found, invalid_access,
  no_subject, unsupported_subject, team_admin, not_manager,
}
use talyvor_docs.Postgres.Tables.{among}

-- `resourceContext`
pub record ResourceContext : Type 0 where
  pub kind : ResourceType
  pub id : String
  pub space_id : String
  pub workspace_id : String
  pub created_by : String
  pub private : Bool
  pub space_perms : List Permission

unfoldable pub rank : AccessLevel → ℕ
rank AccessLevel.admin = 4
rank AccessLevel.edit = 3
rank AccessLevel.comment = 2
rank AccessLevel.view = 1
rank AccessLevel.nothing = 0

unfoldable pub at_least : AccessLevel → AccessLevel → Bool
unfolding rank
at_least a b = leb (rank b) (rank a)

-- `validAccessForGrant`
abbrev pub is_grantable : AccessLevel → Bool
is_grantable AccessLevel.nothing = false
is_grantable _ = true

-- `validSubjectType`
abbrev pub is_subject : String → Bool
is_subject kind = kind == "member" || kind == "everyone" || kind == "team"

abbrev pub is_admin : AccessLevel → Bool
is_admin AccessLevel.admin = true
is_admin _ = false

abbrev pub is_nothing : AccessLevel → Bool
is_nothing AccessLevel.nothing = true
is_nothing _ = false

-- The switch of `consider`: whether a grant is for the member.
unfoldable pub applies : String → List String → Permission → Bool
unfolding among
applies member teams p =
    if p.subject_type == "member"
    then p.subject_id == member
    else if p.subject_type == "everyone"
    then true
    else if p.subject_type == "team"
    then among teams p.subject_id
    else false

unfoldable pub consider : String → List String → AccessLevel → Permission → AccessLevel
unfolding applies rank
consider member teams best p =
    if applies member teams p && ltb (rank best) (rank p.access) then p.access else best

-- A `for` loop of `resolveAccessForTeams`.
unfoldable pub consider_all : String → List String → AccessLevel → List Permission → AccessLevel
unfolding consider
consider_all member teams best [] = best
consider_all member teams best (p ∷ ps) =
    consider_all member teams (consider member teams best p) ps

abbrev pub best_grant : ResourceContext → String → List String → List Permission → AccessLevel
best_grant res member teams perms =
    consider_all member teams (consider_all member teams AccessLevel.nothing perms) res.space_perms

unfoldable pub resolve_access_for_teams :
    ResourceContext → String → List String → List Permission → AccessLevel
unfolding consider_all
resolve_access_for_teams res member teams perms =
    if not (member == "") && member == res.created_by
    then AccessLevel.admin
    else let best = best_grant res member teams perms in
      if not (is_nothing best)
      then best
      else if not res.private
      then AccessLevel.view
      else AccessLevel.nothing

unfoldable pub resolve_access : ResourceContext → String → List Permission → AccessLevel
unfolding resolve_access_for_teams
resolve_access res member perms = resolve_access_for_teams res member [] perms

abbrev pub same_kind : ResourceType → ResourceType → Bool
same_kind ResourceType.space ResourceType.space = true
same_kind ResourceType.page ResourceType.page = true
same_kind _ _ = false

-- The key of a grant: the resource and the subject.
abbrev pub same_key : Permission → Permission → Bool
same_key p q =
    same_kind p.resource_type q.resource_type
    && p.resource_id == q.resource_id
    && p.subject_type == q.subject_type
    && p.subject_id == q.subject_id

unfoldable pub find_grant : Permission → List Permission → Option Permission
find_grant p [] = none
find_grant p (q ∷ rows) = if same_key q p then some q else find_grant p rows

-- DO UPDATE SET access = EXCLUDED.access, granted_by = EXCLUDED.granted_by
abbrev pub upgrade : Permission → Permission → Permission
upgrade p q = record q { access = p.access; granted_by = p.granted_by }

-- INSERT … ON CONFLICT (resource_type, resource_id, subject_type, subject_id) DO UPDATE …
unfoldable pub put_grant : Permission → List Permission → List Permission
put_grant p [] = p ∷ []
put_grant p (q ∷ rows) = if same_key q p then upgrade p q ∷ rows else q ∷ put_grant p rows

abbrev pub written : Permission → Option Permission → Permission
written p none = p
written p (some q) = upgrade p q

unfoldable pub upsert : String → Permission → Sql Permission
unfolding statement
upsert new_id p = statement λ db.
    let row = record p { id = new_id; created_at = db.clock } in
    (
      written row (find_grant row db.permissions),
      record db { permissions = put_grant row db.permissions },
    )

-- SELECT EXISTS (SELECT 1 FROM teams WHERE id = $1 AND workspace_id = $2 AND created_by = $3)
abbrev pub manages : String → String → String → List TeamRow → Bool
manages team workspace member rows =
    any (λ (t : TeamRow). t.id == team && t.workspace_id == workspace && t.created_by == member)
      rows

unfoldable pub grant : String → Permission → Sql Permission
unfolding select upsert
grant new_id p =
    if not (is_grantable p.access)
    then raise invalid_access
    else if p.subject_type == "" || p.subject_id == ""
    then raise no_subject
    else if not (is_subject p.subject_type)
    then raise unsupported_subject
    else if p.subject_type == "team" && is_admin p.access
    then raise team_admin
    else if p.subject_type == "team"
    then (do
      mine ← select (λ db. manages p.subject_id p.workspace_id p.granted_by db.teams)
      if mine then upsert new_id p else raise not_manager)
    else upsert new_id p

abbrev pub is_key : ResourceType → String → String → String → Permission → Bool
is_key kind id subject_type subject_id p =
    same_kind p.resource_type kind
    && p.resource_id == id
    && p.subject_type == subject_type
    && p.subject_id == subject_id

unfoldable pub revoke : ResourceType → String → String → String → Sql (Unit {0})
unfolding statement
revoke kind id subject_type subject_id = statement λ db. (
  tt,
  record db {
    permissions = filter (λ p. not (is_key kind id subject_type subject_id p)) db.permissions;
  },
)

-- The WHERE of `RevokeByID`.
abbrev pub is_named : String → ResourceType → String → List String → Permission → Bool
is_named id kind resource workspaces p =
    p.id == id
    && same_kind p.resource_type kind
    && p.resource_id == resource
    && among workspaces p.workspace_id

unfoldable pub revoke_by_id : String → ResourceType → String → List String → Sql (Unit {0})
unfolding statement
revoke_by_id id kind resource workspaces = do
  found ← statement λ db. (
    any (is_named id kind resource workspaces) db.permissions,
    record db {
      permissions = filter (λ p. not (is_named id kind resource workspaces p)) db.permissions;
    },
  )
  if found then pure tt else raise not_found

unfoldable pub list_for_resource : ResourceType → String → List String → Sql (List Permission)
unfolding select
list_for_resource kind id workspaces = select λ db.
    filter
      (λ p.
        same_kind p.resource_type kind && p.resource_id == id && among workspaces p.workspace_id)
      db.permissions

abbrev pub is_team_grant : Permission → Bool
is_team_grant p = p.subject_type == "team"

unfoldable pub team_ids : String → String → List TeamMember → List String
team_ids workspace member [] = []
team_ids workspace member (t ∷ rows) =
    let rest = team_ids workspace member rows in
    if t.workspace_id == workspace && t.member_id == member then t.team_id ∷ rest else rest

unfoldable pub member_teams : ResourceContext → String → List Permission → Sql (List String)
unfolding select
member_teams res member perms =
    if member == ""
      || res.workspace_id == ""
      || not (any is_team_grant perms || any is_team_grant res.space_perms)
    then pure []
    else select (λ db. team_ids res.workspace_id member db.team_members)

unfoldable pub check : String → ResourceContext → List String → Sql AccessLevel
unfolding list_for_resource member_teams resolve_access_for_teams
check member res workspaces = do
  perms ← list_for_resource res.kind res.id workspaces
  teams ← member_teams res member perms
  pure (resolve_access_for_teams res member teams perms)

unfoldable pub check_space :
    String → String → String → String → Bool → List String → Sql AccessLevel
unfolding check
check_space member space workspace created_by private workspaces =
    check member
      (record {
        kind = ResourceType.space;
        id = space;
        space_id = "";
        workspace_id = workspace;
        created_by = created_by;
        private = private;
        space_perms = [];
      })
      workspaces

-- `spacePerms, _ :=`: an error gives no grants.
abbrev pub or_none : Result (List Permission) → List Permission
or_none (ok perms) = perms
or_none (err e) = []

unfoldable pub check_page :
    String → String → String → String → String → Bool → List String → Sql AccessLevel
unfolding list_for_resource check
check_page member page workspace space space_created_by space_private workspaces db =
    let (perms, db') = list_for_resource ResourceType.space space workspaces db in
    check member
      (record {
        kind = ResourceType.page;
        id = page;
        space_id = space;
        workspace_id = workspace;
        created_by = space_created_by;
        private = space_private;
        space_perms = or_none perms;
      })
      workspaces db'
