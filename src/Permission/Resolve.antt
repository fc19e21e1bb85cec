-- ===== src/Permission/Resolve.antt =====
-- The level that the rules give, as a maximum.
use talyvor_docs.Prelude.{
  ◌≤◌, ℕ, String, ◌≡◌, refl, ap, ◌∙◌, Bool, true, false, not, ◌&&◌, List, [], ◌∷◌, arith, ◌==◌,
  if◌then◌else◌, Bool-cases, ltb,
}
use talyvor_docs.Postgres.Rows.{AccessLevel, Permission}
use talyvor_docs.Permission.{
  ResourceContext, is_nothing, rank, applies, consider, consider_all, resolve_access_for_teams,
  best_grant,
}

abbrev pub larger : ℕ → ℕ → ℕ
larger m n = if ltb m n then n else m

-- The highest rank among the grants for the member, and 0 when there is none.
unfoldable pub top : String → List String → List Permission → ℕ
top member teams [] = 0
top member teams (p ∷ ps) =
    let rest = top member teams ps in
    if applies member teams p then larger (rank p.access) rest else rest

larger_assoc : (a b c : ℕ) → larger (larger a b) c ≡ larger a (larger b c)
larger_assoc a b c = ground arith

rank-consider :
    (member : String) (teams : List String) (best : AccessLevel) (p : Permission)
    → rank (consider member teams best p)
      ≡ (if applies member teams p then larger (rank best) (rank p.access) else rank best)
unfolding consider
rank-consider member teams best p = ground (arith, Bool-cases (applies member teams p))

larger-if :
    (b : Bool) (a c d : ℕ)
    → larger (if b then larger a c else a) d ≡ larger a (if b then larger c d else d)
larger-if true a c d = larger_assoc a c d
larger-if false a c d = refl

rank-consider_all :
    (member : String) (teams : List String) (best : AccessLevel) (ps : List Permission)
    → rank (consider_all member teams best ps) ≡ larger (rank best) (top member teams ps)
unfolding consider_all top
rank-consider_all member teams best [] = ground arith
rank-consider_all member teams best (p ∷ ps) =
    rank-consider_all member teams (consider member teams best p) ps
    ∙ ap (λ n. larger n (top member teams ps)) (rank-consider member teams best p)
    ∙ larger-if (applies member teams p) (rank best) (rank p.access) (top member teams ps)

-- The rank by the rules: 4 for the creator, else the highest grant on the page or its space, and
-- without any grant 1 in a space that is not private and 0 in one that is.
abbrev pub rank_by_rules : ResourceContext → String → List String → List Permission → ℕ
rank_by_rules res member teams perms =
    if not (member == "") && member == res.created_by
    then 4
    else let granted = larger (top member teams perms) (top member teams res.space_perms) in
      if ltb 0 granted then granted else if res.private then 0 else 1

rank-default :
    (best : AccessLevel) (private : Bool)
    → rank (
        if not (is_nothing best)
        then best
        else if not private
        then AccessLevel.view
        else AccessLevel.nothing)
      ≡ (if ltb 0 (rank best) then rank best else if private then 0 else 1)
unfolding rank
rank-default AccessLevel.nothing true = refl
rank-default AccessLevel.nothing false = refl
rank-default AccessLevel.view private = refl
rank-default AccessLevel.comment private = refl
rank-default AccessLevel.edit private = refl
rank-default AccessLevel.admin private = refl

pub rank-resolve_access_for_teams :
    (res : ResourceContext) (member : String) (teams : List String) (perms : List Permission)
    → rank (resolve_access_for_teams res member teams perms) ≡ rank_by_rules res member teams perms
unfolding resolve_access_for_teams
rank-resolve_access_for_teams res member teams perms = ground (
  arith,
  rank-default (best_grant res member teams perms) res.private,
  rank-consider_all member teams AccessLevel.nothing perms,
  rank-consider_all member teams (consider_all member teams AccessLevel.nothing perms)
      res.space_perms,
)

-- To go on without the grants of the space, as `CheckPage` does when it cannot list them, never raises
-- the level.
resolve_access_for_teams_mono :
    (res : ResourceContext) (member : String) (teams : List String) (perms : List Permission)
    → rank (resolve_access_for_teams (record res { space_perms = [] }) member teams perms)
      ≤ rank (resolve_access_for_teams res member teams perms)
unfolding top
resolve_access_for_teams_mono res member teams perms = ground (
  arith,
  rank-resolve_access_for_teams res member teams perms,
  rank-resolve_access_for_teams (record res { space_perms = [] }) member teams perms,
)
