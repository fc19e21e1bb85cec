-- ===== src/Membership/Tests.antt =====
-- A small roster: eve has left, and zoe was put in by hand.
use talyvor_docs.Prelude.{
  String, ◌≡◌, ◌⊎◌, refl, true, false, not, Option, none, some, [], ◌∷◌, ◌==◌, if◌then◌else◌, any,
  map, select as filter,
}
use talyvor_docs.Postgres.Tables.{among}
use talyvor_docs.Authz.{Context, with_memberships}
use talyvor_docs.Membership.{Member, MemberRef, Tables, reconcile_workspace, as_membership}
use talyvor_docs.Membership.Reconcile.{is_ok, reconcile_workspace_atomic}
use talyvor_docs.Gateway.{
  Request, Identity, serve, identity_of, exempt_transit_proof, exempt_membership,
}
use talyvor_docs.Gateway.Passes.{Resolved, serve_passes}

abbrev member : String → String → String → Member
member workspace email source = record {
  workspace_id = workspace;
  email = email;
  role = "member";
  member_id = email;
  synced_at = 1;
  source = source;
}

abbrev roster : Tables
roster = record {
  members =
      member "w" "eve@x" "track" ∷ member "w" "zoe@x" "docs" ∷ member "v" "eve@x" "track" ∷ [];
  space_workspaces = "w" ∷ [];
  page_workspaces = "w" ∷ "v" ∷ [];
  clock = 5;
}

abbrev ada : MemberRef
ada = record { email = "ada@x"; role = "owner"; member_id = "ada" }

-- Eve goes from w and stays in v, zoe stays, ada comes.
reconciled :
    (reconcile_workspace "w" (ada ∷ []) roster []).1.members
    ≡ record (member "w" "ada@x" "track") { role = "owner"; member_id = "ada"; synced_at = 5 }
      ∷ member "w" "zoe@x" "docs"
      ∷ member "v" "eve@x" "track"
      ∷ []
unfolding reconcile_workspace any among filter
reconciled = refl

reconcile_workspace_atomic_example :
    (let out = reconcile_workspace "w" (ada ∷ []) roster (false ∷ false ∷ true ∷ []) in
      (filter (λ m. not (m.workspace_id == "w")) out.1.members
        ≡ filter (λ m. not (m.workspace_id == "w")) roster.members)
      × ((is_ok out.0 ≡ true) ⊎ (out.1 ≡ roster)))
reconcile_workspace_atomic_example =
    reconcile_workspace_atomic "w" (ada ∷ []) roster (false ∷ false ∷ true ∷ [])

abbrev header : String → String
header name =
    if name == "X-Gateway-Auth" then "secret" else if name == "X-User-Email" then "eve@x" else ""

abbrev request : Request
request = record { path = "/v1/spaces"; header = header }

abbrev digest : String → String
digest s = s

abbrev eve_context : Context
eve_context =
    with_memberships "eve@x"
      (map as_membership (member "w" "eve@x" "track" ∷ member "v" "eve@x" "track" ∷ []))

abbrev left_context : Context
left_context = with_memberships "eve@x" (map as_membership (member "v" "eve@x" "track" ∷ []))

serve_passes_example :
    (("secret" == "") ≡ false)
    × ((digest (header "X-Gateway-Auth") == digest "secret") ≡ true)
    × (◌≡◌ {A = Option Identity} (some (identity_of header)) (some (identity_of header)))
    × (((exempt_membership "/v1/spaces" ≡ true) × (eve_context ≡ none))
        ⊎ Resolved digest "secret" request roster [] eve_context)
unfolding serve exempt_transit_proof with_memberships filter
serve_passes_example =
    serve_passes digest "secret" request roster [] (some (identity_of header)) eve_context refl refl
