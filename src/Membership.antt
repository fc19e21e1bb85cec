-- ===== src/Membership.antt =====
-- internal/membership/store.go: the roster of the workspaces, and internal/authz/resolver.go, which reads it.
pub mod Reconcile
pub mod Tests
use talyvor_docs.Prelude.{
  ℕ, ◌+◌, String, Bool, true, false, not, ◌&&◌, Option, none, some, List, [], ◌∷◌, ◌++◌, ◌==◌,
  if◌then◌else◌, map, any, length, select as filter,
}
use talyvor_docs.Postgres.Tables.{among, distinct}
use talyvor_docs.Postgres.Run.{
  Run, Reply, ok, refused, failed, pure, refuse, ◌>>=◌, ◌>>◌, statement, select, write,
}
use talyvor_docs.Authz.{Membership}

-- workspace_members, unique on (workspace_id, email)
pub record Member : Type 0 where
  pub workspace_id : String
  pub email : String
  pub role : String
  pub member_id : String
  pub synced_at : ℕ
  pub source : String

-- MemberRef
pub record MemberRef : Type 0 where
  pub email : String
  pub role : String
  pub member_id : String

-- The roster, and the workspaces of the spaces and of the pages.
pub record Tables : Type 0 where
  pub members : List Member
  pub space_workspaces : List String
  pub page_workspaces : List String
  pub clock : ℕ

pub data RosterError : Type 0 where
  workspace_required : RosterError

abbrev pub Roster : Type 0 → Type 0
Roster A = Run Tables RosterError A

-- `DistinctWorkspaceIDs`, whose order is the database's
unfoldable pub distinct_workspace_ids : Roster (List String)
unfolding select distinct
distinct_workspace_ids = select λ t. distinct [] (t.space_workspaces ++ t.page_workspaces)

abbrev pub is_member : String → String → Member → Bool
is_member workspace email m = m.workspace_id == workspace && m.email == email

abbrev pub renew : String → MemberRef → ℕ → Member → Member
renew workspace ref now m =
    if is_member workspace ref.email m
    then record m { role = ref.role; member_id = ref.member_id; synced_at = now }
    else m

abbrev pub new_member : String → MemberRef → ℕ → Member
new_member workspace ref now = record {
  workspace_id = workspace;
  email = ref.email;
  role = ref.role;
  member_id = ref.member_id;
  synced_at = now;
  source = "track";
}

-- INSERT … ON CONFLICT (workspace_id, email) DO UPDATE SET …
abbrev pub upsert_member : String → MemberRef → ℕ → List Member → List Member
upsert_member workspace ref now members =
    if any (is_member workspace ref.email) members
    then map (renew workspace ref now) members
    else new_member workspace ref now ∷ members

-- The loop over the refs.
unfoldable pub upsert_each : String → List MemberRef → Roster (Unit {0})
unfolding write
upsert_each workspace [] = pure tt
upsert_each workspace (ref ∷ refs) =
    write (λ t. (tt, record t { members = upsert_member workspace ref t.clock t.members }))
    >> upsert_each workspace refs

abbrev pub ref_email : MemberRef → String
ref_email ref = ref.email

abbrev pub is_departed : String → List String → Member → Bool
is_departed workspace emails m =
    m.workspace_id == workspace && m.source == "track" && not (among emails m.email)

unfoldable pub prune : String → List String → Roster ℕ
unfolding write
prune workspace emails = write λ t. (
  length (filter (is_departed workspace emails) t.members),
  record t { members = filter (λ m. not (is_departed workspace emails m)) t.members },
)

-- Begin, the body, and Commit or Rollback. A commit that fails has written nothing.
abbrev pub restored :
    {A : Type 0}
    → Tables
    → Reply RosterError A × Tables × List Bool
    → Reply RosterError A × Tables × List Bool
restored t (ok a, t', down) = (ok a, t', down)
restored t (refused e, t', down) = (refused e, t, down)
restored t (failed, t', down) = (failed, t, down)

abbrev pub transaction : {A : Type 0} → Roster A → Roster A
transaction body t down =
    restored t ((do write (λ s. (tt, s)); a ← body; write (λ s. (tt, s)); pure a) t down)

-- `ReconcileWorkspace`
unfoldable pub reconcile_workspace : String → List MemberRef → Roster (ℕ × ℕ)
unfolding upsert_each prune write
reconcile_workspace workspace refs =
    if workspace == "" then refuse workspace_required else elim refs [
      | [] ↦ pure (0, 0)
      | ref ∷ rest ↦ transaction (do
        upsert_each workspace (ref ∷ rest)
        pruned ← prune workspace (map ref_email (ref ∷ rest))
        pure (length (ref ∷ rest), pruned))
    ]

abbrev pub as_membership : Member → Membership
as_membership m = record { workspace_id = m.workspace_id; member_id = m.member_id; role = m.role }

-- `MembershipsByEmail`
unfoldable pub memberships_by_email : String → Roster (List Membership)
unfolding select
memberships_by_email email =
    select λ t. map as_membership (filter (λ m. m.email == email) t.members)
