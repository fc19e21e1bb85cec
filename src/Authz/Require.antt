-- ===== src/Authz/Require.antt =====
-- internal/permission/middleware.go: the gate of a route on the caller's level. A resolver's lookup is a
-- parameter: it reads the id of the route's resource and its owner and workspace.
use talyvor_docs.Prelude.{
  String, ◌≡◌, refl, Bool, true, false, not, Option, none, some, [], arith, ◌==◌, if◌then◌else◌,
  Bool-cases, inl, inr,
}
use talyvor_docs.Postgres.Rows.{Db, AccessLevel, ResourceType}
use talyvor_docs.Postgres.Sql.{Sql, Result, ok, err}
use talyvor_docs.Permission.{ResourceContext, at_least, check, list_for_resource, or_none, is_admin}
use talyvor_docs.Authz.{non_empty, Context, member_id_for_workspace, workspace_ids}
use talyvor_docs.Authz.Space.{SpaceMeta, PageMeta}

-- What the request's context carries to the handler.
pub record Granted : Type 0 where
  pub level : AccessLevel
  pub actor : String
  pub workspace_id : String

-- 404, 403, or the handler behind the gate
pub data Answer : Type 0 where
  not_found forbidden : Answer
  passes : Granted → Answer

abbrev level_answer : AccessLevel → String → ResourceContext → Result AccessLevel → Answer
level_answer min member res (err e) = forbidden
level_answer min member res (ok level) =
    if not (at_least level min)
    then forbidden
    else passes (record { level = level; actor = member; workspace_id = res.workspace_id })

abbrev member_answer : Context → AccessLevel → ResourceContext → Option String → Db → Answer × Db
member_answer ctx min res none db = (forbidden, db)
member_answer ctx min res (some member) db =
    let (level, db') = check member res (workspace_ids ctx) db in
    if member == "" then (forbidden, db) else (level_answer min member res level, db')

abbrev resolved_answer : Context → AccessLevel → Result ResourceContext → Db → Answer × Db
resolved_answer ctx min (err e) db = (not_found, db)
resolved_answer ctx min (ok res) db =
    member_answer ctx min res (member_id_for_workspace ctx res.workspace_id) db

-- `RequireAccess`
unfoldable pub require_access : Context → Sql ResourceContext → AccessLevel → Db → Answer × Db
unfolding check
require_access ctx resolver min db = let (res, db') = resolver db in resolved_answer ctx min res db'

-- `Enforcer.Require`; an enforcer that is not there answers 404.
unfoldable require : Option (Sql ResourceContext) → Context → AccessLevel → Db → Answer × Db
unfolding require_access
require none ctx min db = (not_found, db)
require (some resolver) ctx min db = require_access ctx resolver min db

-- `SpaceResolverFromParam`, after its lookup
unfoldable space_resolver : String → Result SpaceMeta → Sql ResourceContext
space_resolver id (err e) db = (err e, db)
space_resolver id (ok md) db = (
  ok (record {
    kind = ResourceType.space;
    id = id;
    space_id = "";
    workspace_id = md.workspace_id;
    created_by = md.created_by;
    private = md.private;
    space_perms = [];
  }),
  db,
)

-- `PageResolverFromParam`, `PageResolverFromBlock` and `PageResolverFromDatabase`, after their lookups. The error
-- of the list of grants is dropped.
unfoldable page_resolver : Context → Result (String × PageMeta) → Sql ResourceContext
unfolding list_for_resource
page_resolver ctx (err e) db = (err e, db)
page_resolver ctx (ok (id, md)) db =
    let (perms, db') = list_for_resource ResourceType.space md.space_id (workspace_ids ctx) db in
    (
      ok (record {
        kind = ResourceType.page;
        id = id;
        space_id = md.space_id;
        workspace_id = md.workspace_id;
        created_by = md.space_created_by;
        private = md.space_private;
        space_perms = or_none perms;
      }),
      db',
    )

-- `IsAdminFromContext`, `ActorFromContext` and `WorkspaceFromContext`
abbrev is_admin_from_context : Option Granted → Bool
is_admin_from_context none = false
is_admin_from_context (some g) = is_admin g.level

abbrev actor_from_context : Option Granted → Option String
actor_from_context none = none
actor_from_context (some g) = non_empty g.actor

abbrev workspace_from_context : Option Granted → Option String
workspace_from_context none = none
workspace_from_context (some g) = non_empty g.workspace_id

module _ (ctx : Context) (min : AccessLevel) where
  level_answer-passes :
      (res : ResourceContext) (member : String) (level : Result AccessLevel) (g : Granted)
      → level_answer min member res level ≡ passes g
      → (member ≡ g.actor)
        × (g.workspace_id ≡ res.workspace_id)
        × (at_least g.level min ≡ true)
        × (level ≡ ok g.level)
  level_answer-passes res member (err e) g answer = absurd (ground (arith, answer))
  level_answer-passes res member (ok level) g answer = elim (Bool-cases (at_least level min)) [
    | inl enough ↦ ground (arith, answer, enough)
    | inr low ↦ absurd (ground (arith, answer, low))
  ]

  -- What the gate has checked of a caller whom it lets pass.
  abbrev Cleared : ResourceContext → Db → Granted → Type 0
  Cleared res db g =
      (member_id_for_workspace ctx res.workspace_id ≡ some g.actor)
      × ((g.actor == "") ≡ false)
      × (g.workspace_id ≡ res.workspace_id)
      × (at_least g.level min ≡ true)
      × ((check g.actor res (workspace_ids ctx) db).0 ≡ ok g.level)

  member_answer-Cleared :
      (res : ResourceContext) (member : Option String) (db : Db) (g : Granted)
      → member_id_for_workspace ctx res.workspace_id ≡ member
      → (member_answer ctx min res member db).0 ≡ passes g
      → Cleared res db g
  member_answer-Cleared res none db g m e = absurd (ground (arith, e))
  member_answer-Cleared res (some member) db g m e = elim (Bool-cases (member == "")) [
    | inl empty ↦ absurd (ground (arith, e, empty))
    | inr named ↦
        let answer : level_answer min member res (check member res (workspace_ids ctx) db).0
            ≡ passes g =
          ground (arith, e, named) in
        let (own, place, enough, level) =
          level_answer-passes res member (check member res (workspace_ids ctx) db).0 g answer in
        rw (← own) (m, named, place, enough, level)
  ]

  resolved-Cleared :
      (resolved : Result ResourceContext) (db : Db) (g : Granted)
      → (resolved_answer ctx min resolved db).0 ≡ passes g
      → (res : ResourceContext) × (resolved ≡ ok res) × Cleared res db g
  resolved-Cleared (err error) db g e = absurd (ground (arith, e))
  resolved-Cleared (ok res) db g e = (
    res,
    refl,
    member_answer-Cleared res (member_id_for_workspace ctx res.workspace_id) db g refl e,
  )

  -- A request passes the gate only if its resource was found, the caller is a member of the resource's workspace, and
  -- the level that `Check` computes is as high as the route demands; the handler gets that member, that workspace and
  -- that level. This holds whatever statement fails.
  pub require_access-passes :
      (resolver : Sql ResourceContext) (db : Db) (g : Granted)
      → (require_access ctx resolver min db).0 ≡ passes g
      → (res : ResourceContext) × ((resolver db).0 ≡ ok res)
        × (member_id_for_workspace ctx res.workspace_id ≡ some g.actor)
        × ((g.actor == "") ≡ false)
        × (g.workspace_id ≡ res.workspace_id)
        × (at_least g.level min ≡ true)
        × ((check g.actor res (workspace_ids ctx) (resolver db).1).0 ≡ ok g.level)
  unfolding require_access
  require_access-passes resolver db g e =
      let (res, found, (member, named, place, enough, level)) =
        resolved-Cleared (resolver db).0 (resolver db).1 g e in
      (res, found, member, named, place, enough, level)
