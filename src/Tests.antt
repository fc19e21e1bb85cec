-- ===== src/Tests.antt =====
-- The theorems of the stores at a small database.
use mathlib.Core.List.{foldl}
use talyvor_docs.Prelude.{
  ◌==◌, String, ◌≡◌, refl, true, false, none, some, List, [], ◌∷◌, arith, any, select,
}
use talyvor_docs.Postgres.Rows.{
  Db, PageRow, SessionRow, DocStatus, ApprovalRequest, ApprovalStatus, ReviewDecision, Permission,
  AccessLevel, ResourceType,
}
use talyvor_docs.Postgres.Sql.{ok}
use talyvor_docs.Postgres.Tables.{find_page, find_session}
use talyvor_docs.Pagelock.Held.{IsHeld, LockOp, run_ops-IsHeld, run_op as run_lock}
use talyvor_docs.EditSession.Slot.{IsLive, SlotOp, total_wait, run_ops-IsLive, run_op as run_slot}
use talyvor_docs.Approval.{decide}
use talyvor_docs.Approval.Decide.{IsBacked, page_approved, decide-IsBacked}
use talyvor_docs.Postgres.Sql.{Sql}
use talyvor_docs.Authz.{
  Context, AuthContext, Membership, email, member_id_for_workspace, workspace_ids, with_memberships,
}
use talyvor_docs.Authz.Space.{PageMeta, authorize_page_read}
use talyvor_docs.Authz.Session.{Roster, resolve_session}
use talyvor_docs.Authz.Require.{Granted, require_access, require_access-passes}
use talyvor_docs.Authz.Closed.{resolve_session-authorize_page_read}
use talyvor_docs.Permission.{at_least, check, ResourceContext}
use talyvor_docs.Permission.Grants.{GrantOp}

abbrev row : PageRow
row = record {
  id = "p";
  workspace_id = "w";
  space_id = "s";
  doc_status = DocStatus.in_review;
  locked = false;
  locked_by = none;
  locked_at = none;
}

abbrev locked : PageRow
locked = record row { locked = true; locked_by = some "ada"; locked_at = some 1 }

abbrev session : SessionRow
session = record {
  page_id = "p";
  workspace_id = "w";
  holder = "ada";
  acquired_at = 90;
  last_heartbeat = 95;
}

abbrev request : ApprovalRequest
request = record {
  id = "r";
  page_id = "p";
  workspace_id = "w";
  requested_by = "bob";
  reviewers = "ada" ∷ [];
  message = "";
  due_date = none;
  status = ApprovalStatus.pending;
  created_at = 10;
  updated_at = 10;
}

abbrev decision : ReviewDecision
decision = record { request_id = "r"; reviewer_id = "ada"; decision = "pending"; comment = "" }

abbrev shared : Permission
shared = record {
  id = "g";
  resource_type = ResourceType.page;
  resource_id = "p";
  subject_type = "member";
  subject_id = "bob";
  access = AccessLevel.edit;
  workspace_id = "w";
  granted_by = "ada";
  created_at = 5;
}

abbrev db : Db
db = record {
  pages = row ∷ [];
  sessions = [];
  requests = request ∷ [];
  decisions = decision ∷ [];
  permissions = shared ∷ [];
  teams = [];
  team_members = [];
  clock = 100;
  outages = [];
}

abbrev held : Db
held = record db { pages = locked ∷ []; sessions = session ∷ [] }

run_ops-IsHeld_example :
    IsHeld "p" "ada"
      (foldl run_lock held (LockOp.locks "p" "bob" ∷ LockOp.unlocks "p" "bob" false ∷ []))
unfolding any find_page
run_ops-IsHeld_example =
    run_ops-IsHeld "p" "ada" held (LockOp.locks "p" "bob" ∷ LockOp.unlocks "p" "bob" false ∷ [])
      refl refl

abbrev tries : List SlotOp
tries =
    SlotOp.claims "p" ("w" ∷ []) "bob" ∷ SlotOp.waits 10 ∷ SlotOp.releases "p" ("w" ∷ []) "bob" ∷ []

run_ops-IsLive_example : IsLive 30 "p" "ada" 125 (foldl (run_slot 30) held tries)
unfolding any find_session total_wait
run_ops-IsLive_example =
    run_ops-IsLive 30 125 "p" "ada" held tries (ground arith) (ground arith) (ground arith)
      (ground arith)

decide-IsBacked_example :
    IsBacked "r" "p"
      (decide "r" "p" "ada" "approved" "fine" ("w" ∷ []) (record db { outages = false ∷ [] })).1
unfolding page_approved find_page
decide-IsBacked_example =
    decide-IsBacked "r" "p" "ada" "approved" "fine" ("w" ∷ []) (record db { outages = false ∷ [] })
      refl

abbrev context : ResourceContext
context = record {
  kind = ResourceType.page;
  id = "p";
  space_id = "s";
  workspace_id = "w";
  created_by = "ada";
  private = true;
  space_perms = [];
}

abbrev team_admin_grant : GrantOp
team_admin_grant =
    GrantOp.grants "h" (record shared { subject_type = "team"; access = AccessLevel.admin })

abbrev roster : Roster
roster address db =
    (ok (record { workspace_id = "w"; member_id = "bob"; role = "member" } ∷ []), db)

abbrev page_meta : Context → String → Sql PageMeta
page_meta ctx page db = (
  ok (record {
    workspace_id = "w";
    space_id = "s";
    space_private = true;
    space_created_by = "ada";
  }),
  db,
)

-- Bob, whose token was made when he was a member of nothing.
abbrev stale : AuthContext
stale = record { email = "bob@x"; memberships = []; auth_ws = ""; auth_member = ""; passed = true }

abbrev bob_member : List Membership
bob_member = record { workspace_id = "w"; member_id = "bob"; role = "member" } ∷ []

resolve_session-authorize_page_read_example :
    (authorize_page_read page_meta (with_memberships "bob@x" bob_member) "p" db).0 ≡ (true, true)
unfolding resolve_session email member_id_for_workspace with_memberships any select workspace_ids
    at_least
resolve_session-authorize_page_read_example =
    resolve_session-authorize_page_read roster page_meta stale bob_member "p" db refl refl refl

abbrev page_resource : Sql ResourceContext
page_resource db = (ok context, db)

-- What Bob is granted on the page of his grant.
abbrev bob_granted : Granted
bob_granted = record { level = AccessLevel.edit; actor = "bob"; workspace_id = "w" }

require_access-passes_example :
    (res : ResourceContext) × ((page_resource db).0 ≡ ok res)
    × (member_id_for_workspace (with_memberships "bob@x" bob_member) res.workspace_id ≡ some "bob")
    × (("bob" == "") ≡ false)
    × ("w" ≡ res.workspace_id)
    × (at_least AccessLevel.edit AccessLevel.view ≡ true)
    × ((check "bob" res
          (workspace_ids (with_memberships "bob@x" bob_member))
          (page_resource db).1).0
        ≡ ok AccessLevel.edit)
unfolding require_access check member_id_for_workspace with_memberships workspace_ids at_least any
    select
require_access-passes_example =
    require_access-passes (with_memberships "bob@x" bob_member) AccessLevel.view page_resource db
      bob_granted refl
