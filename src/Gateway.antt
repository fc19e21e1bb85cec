-- ===== src/Gateway.antt =====
-- internal/gatewayauth and the middleware of internal/authz/authz.go: what a request passes before a handler. The
-- digest is a parameter; the constant time of its comparison is not modelled.
pub mod Passes
use text.Mathlib.Text.{starts_with}
use talyvor_docs.Prelude.{
  String, Bool, true, false, not, ◌||◌, Option, none, some, List, [], ◌∷◌, ◌==◌, if◌then◌else◌,
}
use talyvor_docs.Postgres.Run.{Reply, ok, refused, failed}
use talyvor_docs.Authz.{Membership, Context, with_memberships}
use talyvor_docs.Membership.{Tables, RosterError, memberships_by_email}

-- What the middlewares read of a request; a header that is not there is "".
pub record Request : Type 0 where
  pub path : String
  pub header : String → String

-- `Identity`
pub record Identity : Type 0 where
  pub email : String
  pub user_id : String
  pub teams : String
  pub issuer : String
  pub lens_workspace : String

-- 401, 403, 500, or the handler with the identity and the context that it finds
pub data Answer : Type 0 where
  unauthorized forbidden unresolved : Answer
  serves : Option Identity → Context → Answer

-- `ExemptTransitProof`
unfoldable pub exempt_transit_proof : String → Bool
exempt_transit_proof path = starts_with path "/v1/public/"

-- `ExemptMembership`
unfoldable pub exempt_membership : String → Bool
unfolding exempt_transit_proof
exempt_membership path = exempt_transit_proof path || starts_with path "/v1/service/"

abbrev pub identity_of : (String → String) → Identity
identity_of header = record {
  email = header "X-User-Email";
  user_id = header "X-User-Id";
  teams = header "X-User-Teams";
  issuer = header "X-Auth-Iss";
  lens_workspace = header "X-Talyvor-Workspace";
}

-- `authz.Middleware`, on a request whose context has an identity or none
abbrev pub resolved : Identity → Reply RosterError (List Membership) → Answer
resolved id (ok ms) = serves (some id) (with_memberships id.email ms)
resolved id (refused e) = unresolved
resolved id failed = unresolved

abbrev pub identified : Option Identity → Tables → List Bool → Answer
identified none t down = forbidden
identified (some id) t down =
    if id.email == "" then forbidden else resolved id (memberships_by_email id.email t down).0

unfoldable pub authz_middleware :
    (String → Bool) → Option Identity → Request → Tables → List Bool → Answer
unfolding memberships_by_email
authz_middleware exempt id request t down =
    if exempt request.path then serves id none else identified id t down

module _ (sha256 : String → String) where
  -- `gatewayauth.Middleware`, around the next handler
  unfoldable pub gateway_middleware :
      String → (String → Bool) → (Option Identity → Answer) → Request → Answer
  gateway_middleware secret exempt next request =
      if exempt request.path
      then next none
      else if secret == ""
      then unauthorized
      else if not (sha256 (request.header "X-Gateway-Auth") == sha256 secret)
      then unauthorized
      else next (some (identity_of request.header))

  -- The routes of /v1, as cmd/docs/main.go mounts them.
  unfoldable pub serve : String → Request → Tables → List Bool → Answer
  unfolding gateway_middleware authz_middleware exempt_transit_proof exempt_membership
  serve secret request t down =
      gateway_middleware secret exempt_transit_proof
        (λ id. authz_middleware exempt_membership id request t down) request
