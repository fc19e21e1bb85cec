-- ===== src/Permission/Grants.antt =====
-- The rows that grants and revocations leave.
use mathlib.Core.List.{foldl}
use talyvor_docs.Prelude.{
  String, ◌≡◌, refl, Bool, true, false, not, ◌&&◌, ◌||◌, and_intro, and_left, and_right, List, [],
  ◌∷◌, arith, ◌==◌, eq_iff, if◌then◌else◌, all, select as filter,
}
use talyvor_docs.Postgres.Rows.{Db, AccessLevel, ResourceType, Permission}
use talyvor_docs.Postgres.Tables.{among}
use talyvor_docs.Permission.{
  grant, revoke, revoke_by_id, is_grantable, is_admin, is_subject, same_key, upgrade, put_grant,
  is_named, is_key,
}

-- A row that the rule engine honours: a real level for a subject of a known type, and no admin for a team.
unfoldable pub is_sound_grant : AccessLevel → String → String → Bool
is_sound_grant access kind subject =
    is_grantable access
    && not (kind == "" || subject == "")
    && is_subject kind
    && not (kind == "team" && is_admin access)

abbrev pub is_sound : Permission → Bool
is_sound p = is_sound_grant p.access p.subject_type p.subject_id

-- The operations that write grants.
pub data GrantOp : Type 0 where
  grants : String → Permission → GrantOp
  revokes : ResourceType → String → String → String → GrantOp
  revokes_id : String → ResourceType → String → List String → GrantOp

unfoldable pub run_op : Db → GrantOp → Db
unfolding grant revoke revoke_by_id
run_op db (grants new_id p) = (grant new_id p db).1
run_op db (revokes kind id subject_type subject_id) = (revoke kind id subject_type subject_id db).1
run_op db (revokes_id id kind resource ws) = (revoke_by_id id kind resource ws db).1

upgrade_sound :
    (p q : Permission) → same_key q p ≡ true → is_sound p ≡ true → is_sound (upgrade p q) ≡ true
upgrade_sound p q same sound =
    ground (arith, eq_iff q.subject_type p.subject_type, eq_iff q.subject_id p.subject_id)

put_grant_sound :
    (p : Permission) (rows : List Permission)
    → is_sound p ≡ true
    → all is_sound rows ≡ true
    → all is_sound (put_grant p rows) ≡ true
unfolding all put_grant
put_grant_sound p [] sound rows_sound = ground arith
put_grant_sound p (q ∷ rows) sound rows_sound =
    put_step (same_key q p) refl
      (put_grant_sound p rows sound (and_right (is_sound q) (all is_sound rows) rows_sound))
  where
    put_step :
        (b : Bool)
        → same_key q p ≡ b
        → all is_sound (put_grant p rows) ≡ true
        → all is_sound (if b then upgrade p q ∷ rows else q ∷ put_grant p rows) ≡ true
    put_step true e rest =
        and_intro (upgrade_sound p q e sound)
          (and_right (is_sound q) (all is_sound rows) rows_sound)
    put_step false e rest = and_intro (and_left (is_sound q) (all is_sound rows) rows_sound) rest

filter_sound :
    (keep : Permission → Bool) (rows : List Permission)
    → all is_sound rows ≡ true
    → all is_sound (filter keep rows) ≡ true
unfolding all filter
filter_sound keep [] rows_sound = refl
filter_sound keep (q ∷ rows) rows_sound = ground (arith, filter_sound keep rows)

run_op_sound :
    (db : Db) (op : GrantOp)
    → all is_sound db.permissions ≡ true
    → all is_sound (run_op db op).permissions ≡ true
unfolding run_op is_sound_grant
run_op_sound db (grants new_id p) sound =
    ground (arith, put_grant_sound (record p { id = new_id; created_at = db.clock }) db.permissions)
run_op_sound db (revokes kind id subject_type subject_id) sound =
    ground
      (arith, filter_sound (λ p. not (is_key kind id subject_type subject_id p)) db.permissions)
run_op_sound db (revokes_id id kind resource ws) sound =
    ground (arith, filter_sound (λ p. not (is_named id kind resource ws p)) db.permissions)

-- No sequence of grants and revocations, whichever of their statements fail, writes a grant of no
-- access, one for an empty or unknown subject, or an admin grant for a team: when all rows are sound
-- before, they are after.
run_ops_sound :
    (db : Db) (ops : List GrantOp)
    → all is_sound db.permissions ≡ true
    → all is_sound (foldl run_op db ops).permissions ≡ true
run_ops_sound db [] sound = sound
run_ops_sound db (op ∷ ops) sound = run_ops_sound (run_op db op) ops (run_op_sound db op sound)

-- Filters that do not meet.
filter-filter :
    (keep about : Permission → Bool) (rows : List Permission)
    → ((p : Permission) → about p ≡ true → keep p ≡ true)
    → filter about (filter keep rows) ≡ filter about rows
unfolding filter
filter-filter keep about [] apart = refl
filter-filter keep about (p ∷ rows) apart =
    ground (arith, apart p, filter-filter keep about rows apart)

abbrev pub is_outside : String → List String → Permission → Bool
is_outside resource ws p = not (p.resource_id == resource && among ws p.workspace_id)

-- A revocation by id reaches no grant on another resource and none in another workspace: those rows
-- are the same after it, in their order, also when it fails.
revoke_by_id-outside :
    (id : String) (kind : ResourceType) (resource : String) (ws : List String) (db : Db)
    → filter (is_outside resource ws) (revoke_by_id id kind resource ws db).1.permissions
      ≡ filter (is_outside resource ws) db.permissions
unfolding revoke_by_id
revoke_by_id-outside id kind resource ws db = ground (
  arith,
  filter-filter (λ p. not (is_named id kind resource ws p)) (is_outside resource ws) db.permissions
      (λ p out. ground arith),
)
