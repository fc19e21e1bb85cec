-- ===== src/Team.antt =====
-- internal/team/store.go: the teams of a workspace and who is in each. A store has a pool here; the id of a new team,
-- the trimming of a name and its length in bytes are parameters. A `duplicate` is the violation of a key of teams.
pub mod Roster
pub mod Tests
use Prim.Native.String.{compare}
use Prim.Native.Nat.{Ordering}
use talyvor_docs.Prelude.{
  ℕ, String, Bool, true, false, not, ◌&&◌, ◌||◌, Option, none, some, List, [], ◌∷◌, ◌==◌,
  if◌then◌else◌, ltb, any, map, select as filter,
}
use talyvor_docs.Prelude.Sort.{sort_by}
use talyvor_docs.Postgres.Run.{
  Run, Reply, ok, refused, failed, pure, refuse, ◌>>=◌, ◌>>◌, statement, select, write,
}

-- A row of teams, unique on id and on (workspace_id, name)
pub record TeamRow : Type 0 where
  pub id : String
  pub workspace_id : String
  pub name : String
  pub created_by : String
  pub created_at : ℕ

-- A row of team_members, unique on (team_id, member_id)
pub record MemberRow : Type 0 where
  pub team_id : String
  pub workspace_id : String
  pub member_id : String
  pub added_by : String
  pub added_at : ℕ

-- What the statements read of workspace_members.
pub record WorkspaceMember : Type 0 where
  pub workspace_id : String
  pub member_id : String

pub record Tables : Type 0 where
  pub teams : List TeamRow
  pub members : List MemberRow
  pub roster : List WorkspaceMember
  pub clock : ℕ

-- Team
pub record Team : Type 0 where
  pub id : String
  pub name : String
  pub created_by : String
  pub created_at : ℕ
  pub members : List String
  pub can_manage : Bool

pub data TeamError : Type 0 where
  not_found not_creator duplicate unknown_member invalid_name : TeamError

abbrev pub Teams : Type 0 → Type 0
Teams A = Run Tables TeamError A

abbrev pub max_name_len : ℕ
max_name_len = 80

abbrev pub text_before : String → String → Bool
text_before a b = elim (compare a b) [
  | Ordering.lt ↦ true
  | Ordering.eq ↦ false
  | Ordering.gt ↦ false
]

abbrev pub member_ids : TeamRow → List MemberRow → List String
member_ids r members =
    map (λ m. m.member_id)
      (sort_by (λ a b. ltb a.added_at b.added_at)
        (filter (λ m. m.team_id == r.id && m.workspace_id == r.workspace_id) members))

abbrev pub as_team : String → List MemberRow → TeamRow → Team
as_team caller members r = record {
  id = r.id;
  name = r.name;
  created_by = r.created_by;
  created_at = r.created_at;
  members = member_ids r members;
  can_manage = r.created_by == caller;
}

-- `List`
unfoldable pub list : String → String → Teams (List Team)
unfolding select
list workspace caller = select λ t.
    map (as_team caller t.members) (
      sort_by (λ a b. text_before a.name b.name)
        (filter (λ r. r.workspace_id == workspace) t.teams))

abbrev pub is_taken : String → String → TeamRow → Bool
is_taken workspace name r = r.workspace_id == workspace && r.name == name

-- The insert of `Create`.
unfoldable pub insert_team : String → String → String → String → Teams Team
unfolding statement
insert_team id workspace name by = statement λ t.
    if any (λ r. r.id == id) t.teams
    then (refused duplicate, t)
    else if any (is_taken workspace name) t.teams
    then (refused duplicate, t)
    else (
      ok (record {
        id = id;
        name = name;
        created_by = by;
        created_at = t.clock;
        members = [];
        can_manage = true;
      }),
      record t {
        teams =
            record {
              id = id;
              workspace_id = workspace;
              name = name;
              created_by = by;
              created_at = t.clock;
            }
            ∷ t.teams;
      },
    )

module _ (trim : String → String) (byte_length : String → ℕ) where
  -- `Create`
  unfoldable pub create : String → String → String → String → Teams Team
  unfolding insert_team
  create id workspace name by =
      if trim name == "" || ltb max_name_len (byte_length (trim name))
      then refuse invalid_name
      else insert_team id workspace (trim name) by

unfoldable pub find_team : String → String → List TeamRow → Option TeamRow
find_team workspace id [] = none
find_team workspace id (r ∷ rows) =
    if r.id == id && r.workspace_id == workspace then some r else find_team workspace id rows

abbrev pub check_creator : String → Option TeamRow → Teams (Unit {0})
check_creator actor none = refuse not_found
check_creator actor (some r) = if r.created_by == actor then pure tt else refuse not_creator

-- `manage`
unfoldable pub manage : String → String → String → Teams (Unit {0})
unfolding select find_team
manage workspace team actor = select (λ t. find_team workspace team t.teams) >>= check_creator actor

abbrev pub is_on : String → String → MemberRow → Bool
is_on team member m = m.team_id == team && m.member_id == member

-- INSERT … SELECT … WHERE EXISTS … ON CONFLICT DO NOTHING, and whether a row came in
unfoldable pub insert_member : String → String → String → String → Teams Bool
unfolding write
insert_member workspace team member by = write λ t.
    if any (λ w. w.workspace_id == workspace && w.member_id == member) t.roster
      && not (any (is_on team member) t.members)
    then (
      true,
      record t {
        members =
            record {
              team_id = team;
              workspace_id = workspace;
              member_id = member;
              added_by = by;
              added_at = t.clock;
            }
            ∷ t.members;
      },
    )
    else (false, t)

-- The second read of `AddMember`.
unfoldable pub require_on : String → String → Bool → Teams (Unit {0})
unfolding select
require_on team member true = pure tt
require_on team member false = select (λ t. any (is_on team member) t.members) >>= λ on_team.
    if on_team then pure tt else refuse unknown_member

-- `AddMember`
unfoldable pub add_member : String → String → String → String → Teams (Unit {0})
unfolding manage insert_member require_on
add_member workspace team member actor =
    manage workspace team actor
    >> (insert_member workspace team member actor >>= require_on team member)

abbrev pub is_team_row : String → String → String → MemberRow → Bool
is_team_row workspace team member m = is_on team member m && m.workspace_id == workspace

unfoldable pub delete_member : String → String → String → Teams Bool
unfolding write
delete_member workspace team member = write λ t. (
  any (is_team_row workspace team member) t.members,
  record t { members = filter (λ m. not (is_team_row workspace team member m)) t.members },
)

abbrev pub require_gone : Bool → Teams (Unit {0})
require_gone gone = if gone then pure tt else refuse not_found

-- `RemoveMember`
unfoldable pub remove_member : String → String → String → String → Teams (Unit {0})
unfolding manage delete_member
remove_member workspace team member actor =
    manage workspace team actor >> (delete_member workspace team member >>= require_gone)
