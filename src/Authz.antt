-- ===== src/Authz.antt =====
-- internal/authz/authz.go: the verified identity of a request and its memberships. A context holds it
-- or not; `none` is a context that no middleware has touched.
pub mod Space
pub mod Session
pub mod Closed
pub mod Require
use talyvor_docs.Prelude.{
  String, Bool, true, false, not, Option, none, some, List, [], ◌∷◌, map, ◌==◌, if◌then◌else◌,
}

pub record Membership : Type 0 where
  pub workspace_id : String
  pub member_id : String
  pub role : String

-- `authCtx`
pub record AuthContext : Type 0 where
  pub email : String
  pub memberships : List Membership
  pub auth_ws : String
  pub auth_member : String
  pub passed : Bool

abbrev pub Context : Type 0
Context = Option AuthContext

unfoldable pub memberships : Context → Option (List Membership)
memberships none = none
memberships (some ac) = if ac.passed then some ac.memberships else none

unfoldable pub email : Context → Option String
email none = none
email (some ac) = if ac.passed then some ac.email else none

unfoldable pub workspace_ids : Context → List String
unfolding memberships
workspace_ids ctx = elim (memberships ctx) [
  | none ↦ []
  | some ms ↦ map (λ (m : Membership). m.workspace_id) ms
]

unfoldable pub find_membership : String → List Membership → Option Membership
find_membership ws [] = none
find_membership ws (m ∷ ms) = if m.workspace_id == ws then some m else find_membership ws ms

unfoldable pub member_id_for_workspace : Context → String → Option String
unfolding memberships find_membership
member_id_for_workspace ctx ws = elim (memberships ctx) [
  | none ↦ none
  | some ms ↦ elim (find_membership ws ms) [ none ↦ none | some m ↦ some m.member_id ]
]

abbrev pub only : List Membership → Option Membership
only (m ∷ []) = some m
only _ = none

unfoldable pub single_workspace : Context → Option String
unfolding memberships
single_workspace ctx = elim (memberships ctx) [
  | none ↦ none
  | some ms ↦ elim (only ms) [ none ↦ none | some m ↦ some m.workspace_id ]
]

unfoldable pub single_member_id : Context → Option String
unfolding memberships
single_member_id ctx = elim (memberships ctx) [
  | none ↦ none
  | some ms ↦ elim (only ms) [ none ↦ none | some m ↦ some m.member_id ]
]

unfoldable pub authorize_workspace : Context → String → Option Membership
unfolding memberships find_membership
authorize_workspace ctx ws =
    if ws == ""
    then none
    else elim (memberships ctx) [ none ↦ none | some ms ↦ find_membership ws ms ]

unfoldable pub with_authorized : Context → String → String → Context
with_authorized none ws member =
    some
      (record { email = ""; memberships = []; auth_ws = ws; auth_member = member; passed = false })
with_authorized (some ac) ws member = some (record ac { auth_ws = ws; auth_member = member })

abbrev pub non_empty : String → Option String
non_empty s = if s == "" then none else some s

unfoldable pub authorized_member : Context → Option String
authorized_member none = none
authorized_member (some ac) = non_empty ac.auth_member

unfoldable pub authorized_workspace : Context → Option String
authorized_workspace none = none
authorized_workspace (some ac) = non_empty ac.auth_ws

unfoldable pub with_memberships : String → List Membership → Context
with_memberships address ms =
    some
      (record { email = address; memberships = ms; auth_ws = ""; auth_member = ""; passed = true })
