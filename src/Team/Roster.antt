-- ===== src/Team/Roster.antt =====
-- internal/team/store.go: the rosters of teams along calls.
use talyvor_docs.Prelude.{
  ℕ, String, ◌≡◌, refl, Bool, true, false, not, ◌&&◌, ◌||◌, Option, none, some, List, [], ◌∷◌,
  arith, ◌==◌, ◌∙◌, ap, ltb, Bool-cases, inl, inr, eq_iff, any, all, if◌then◌else◌,
  select as filter,
}
use talyvor_docs.Postgres.Run.{
  ok, pure, refuse, ◌>>=◌, ◌>>◌, select, write, Ensures, ensure_bind, ensure_statement,
}
use talyvor_docs.Postgres.Run.Keep.{
  Keeps, keep_pure, keep_bind, keep_statement, keep_select, keep_if, kept,
}
use talyvor_docs.Team.{
  TeamRow, MemberRow, Tables, TeamError, Teams, insert_team, create, find_team, check_creator,
  manage, insert_member, require_on, require_gone, unknown_member, add_member, delete_member,
  remove_member, is_on, is_team_row, is_taken, max_name_len,
}

-- The calls of a workspace's members.
pub data TeamOp : Type 0 where
  make : String → String → String → TeamOp
  enlist : String → String → String → TeamOp
  expel : String → String → String → TeamOp

abbrev pub ignored : {A : Type 0} → Teams A → Teams (Unit {0})
ignored m t down = let (r, t', down') = m t down in (ok tt, t', down')

module _ (trim : String → String) (byte_length : String → ℕ) where
  -- A call of an actor, whose answer or error is the caller's.
  unfoldable pub run_op : String × TeamOp → Teams (Unit {0})
  unfolding create add_member remove_member
  run_op (actor, make id workspace name) = ignored (create trim byte_length id workspace name actor)
  run_op (actor, enlist workspace team member) = ignored (add_member workspace team member actor)
  run_op (actor, expel workspace team member) = ignored (remove_member workspace team member actor)

  unfoldable pub run_ops : List (String × TeamOp) → Teams (Unit {0})
  unfolding run_op
  run_ops [] = pure tt
  run_ops (op ∷ ops) = run_op op >> run_ops ops

abbrev pub own_rows : String → List MemberRow → List MemberRow
own_rows team ms = filter (λ m. m.team_id == team) ms

abbrev pub is_own : String → String → TeamRow → Bool
is_own team creator r = not (r.id == team) || (r.created_by == creator)

module _ (team creator : String) (rows : List MemberRow) where
  -- The team is there, made by the creator, and its roster is as it was.
  abbrev pub IsOwned : Tables → Type 0
  IsOwned t =
      (any (λ r. r.id == team) t.teams ≡ true)
      × (all (is_own team creator) t.teams ≡ true)
      × (own_rows team t.members ≡ rows)

  abbrev made_team : String → String → String → String → ℕ → TeamRow
  made_team id workspace name by now = record {
    id = id;
    workspace_id = workspace;
    name = name;
    created_by = by;
    created_at = now;
  }

  make-IsOwned :
      (id workspace name by : String) (t : Tables)
      → IsOwned t
      → any (λ r. r.id == id) t.teams ≡ false
      → IsOwned (record t { teams = made_team id workspace name by t.clock ∷ t.teams })
  unfolding any all
  make-IsOwned id workspace name by t (there, own, same) new = (
    ground (arith, there),
    ground (
      arith,
      own,
      new,
      there,
      eq_iff id team,
      λ (p : id ≡ team). ap (λ x. any (λ r. r.id == x) t.teams) p,
    ),
    same,
  )

  insert_team-Keeps :
      (id workspace name by : String) → Keeps IsOwned (insert_team id workspace name by)
  unfolding insert_team
  insert_team-Keeps id workspace name by = keep_statement TeamError IsOwned _ λ t h.
      elim (Bool-cases (any (λ r. r.id == id) t.teams)) [
        | inl taken ↦ rw taken h
        | inr new ↦ elim (Bool-cases (any (is_taken workspace name) t.teams)) [
          | inl named ↦ rw (new, named) h
          | inr free ↦ rw (new, free) (make-IsOwned id workspace name by t h new)
        ]
      ]

  find_team-creator :
      (workspace x : String) (teams : List TeamRow) (r : TeamRow)
      → all (is_own team creator) teams ≡ true
      → find_team workspace x teams ≡ some r
      → (x == team) ≡ true
      → (r.created_by == creator) ≡ true
  unfolding find_team all
  find_team-creator workspace x [] r own found here = absurd (ground (arith, found))
  find_team-creator workspace x (q ∷ teams) r own found here = ground (
    arith,
    own,
    found,
    here,
    find_team-creator workspace x teams r,
    eq_iff q.id x,
    eq_iff x team,
    eq_iff q.id team,
    λ (p : q ≡ r). ap (λ (y : TeamRow). y.created_by == creator) p,
  )

  -- A caller who is not the creator.
  module _ (actor : String) (other : (actor == creator) ≡ false) where
    abbrev Elsewhere : String → Tables → Type 0
    Elsewhere x t = IsOwned t × ((x == team) ≡ false)

    abbrev Seen : String → String → Option TeamRow → Tables → Type 0
    Seen workspace x found t = IsOwned t × (find_team workspace x t.teams ≡ found)

    check_creator-Ensures :
        (workspace x : String) (found : Option TeamRow)
        → Ensures (Seen workspace x found) (check_creator actor found) (λ _. Elsewhere x) IsOwned
    check_creator-Ensures workspace x none t down h = h.0
    check_creator-Ensures workspace x (some r) t down (owned, found) =
        elim (Bool-cases (r.created_by == actor)) [
          | inr stranger ↦ rw stranger owned
          | inl mine ↦ rw mine (
            owned,
            ground (
              arith,
              mine,
              other,
              find_team-creator workspace x t.teams r owned.1 found,
              eq_iff r.created_by actor,
              eq_iff r.created_by creator,
              eq_iff actor creator,
            ),
          )
        ]

    manage-Ensures :
        (workspace x : String)
        → Ensures IsOwned (manage workspace x actor) (λ _. Elsewhere x) IsOwned
    unfolding manage select
    manage-Ensures workspace x =
        ensure_bind IsOwned IsOwned (Seen workspace x) (λ _. Elsewhere x)
          (select (λ t. find_team workspace x t.teams)) (check_creator actor)
          (ensure_statement IsOwned IsOwned (Seen workspace x) _ (λ t h. (h, refl)) (λ t h. h))
          (check_creator-Ensures workspace x)

    insert_member-Ensures :
        (workspace x member : String)
        → Ensures (Elsewhere x) (insert_member workspace x member actor) (λ _. IsOwned) IsOwned
    unfolding insert_member write filter
    insert_member-Ensures workspace x member =
        ensure_statement IsOwned (Elsewhere x) (λ _. IsOwned) _
          (λ t h.
            elim (Bool-cases (
              any (λ w. w.workspace_id == workspace && w.member_id == member) t.roster
              && not (any (is_on x member) t.members))) [
                | inl new ↦ rw new (h.0.0, h.0.1, rw h.1 h.0.2)
                | inr old ↦ rw old h.0
              ])
          (λ t h. h.0)

    own_rows-gone :
        (workspace x member : String) (ms : List MemberRow)
        → (x == team) ≡ false
        → own_rows team (filter (λ m. not (is_team_row workspace x member m)) ms) ≡ own_rows team ms
    unfolding filter
    own_rows-gone workspace x member [] away = refl
    own_rows-gone workspace x member (m ∷ ms) away = ground (
      arith,
      away,
      own_rows-gone workspace x member ms,
      eq_iff m.team_id x,
      eq_iff m.team_id team,
      eq_iff x team,
    )

    delete_member-Ensures :
        (workspace x member : String)
        → Ensures (Elsewhere x) (delete_member workspace x member) (λ _. IsOwned) IsOwned
    unfolding delete_member write
    delete_member-Ensures workspace x member =
        ensure_statement IsOwned (Elsewhere x) (λ _. IsOwned) _
          (λ t h. (h.0.0, h.0.1, own_rows-gone workspace x member t.members h.1 ∙ h.0.2))
          (λ t h. h.0)

    require_on-Keeps : (x member : String) (new : Bool) → Keeps IsOwned (require_on x member new)
    unfolding require_on
    require_on-Keeps x member true = keep_pure TeamError IsOwned tt
    require_on-Keeps x member false =
        keep_bind TeamError IsOwned (select (λ t. any (is_on x member) t.members))
          (λ on_team. if on_team then pure tt else refuse unknown_member)
          (keep_select TeamError IsOwned _)
          (λ on_team. keep_if TeamError IsOwned on_team _ _ (λ t down h. h) (λ t down h. h))

    require_gone-Keeps : (gone : Bool) → Keeps IsOwned (require_gone gone)
    require_gone-Keeps gone = keep_if TeamError IsOwned gone _ _ (λ t down h. h) (λ t down h. h)

    add_member-Keeps :
        (workspace x member : String) → Keeps IsOwned (add_member workspace x member actor)
    unfolding add_member
    add_member-Keeps workspace x member =
        ensure_bind IsOwned IsOwned (λ _. Elsewhere x) (λ _. IsOwned) (manage workspace x actor)
          (λ _. insert_member workspace x member actor >>= require_on x member)
          (manage-Ensures workspace x)
          (λ _.
            ensure_bind IsOwned (Elsewhere x) (λ _. IsOwned) (λ _. IsOwned)
              (insert_member workspace x member actor) (require_on x member)
              (insert_member-Ensures workspace x member) (require_on-Keeps x member))

    remove_member-Keeps :
        (workspace x member : String) → Keeps IsOwned (remove_member workspace x member actor)
    unfolding remove_member
    remove_member-Keeps workspace x member =
        ensure_bind IsOwned IsOwned (λ _. Elsewhere x) (λ _. IsOwned) (manage workspace x actor)
          (λ _. delete_member workspace x member >>= require_gone) (manage-Ensures workspace x)
          (λ _.
            ensure_bind IsOwned (Elsewhere x) (λ _. IsOwned) (λ _. IsOwned)
              (delete_member workspace x member) require_gone
              (delete_member-Ensures workspace x member) require_gone-Keeps)

  module _ (trim : String → String) (byte_length : String → ℕ) where
    ignored-Keeps : {A : Type 0} (m : Teams A) → Keeps IsOwned m → Keeps IsOwned (ignored m)
    ignored-Keeps m keeps t down h = kept IsOwned m keeps t down h

    run_op-Keeps :
        (actor : String) (op : TeamOp)
        → (actor == creator) ≡ false
        → Keeps IsOwned (run_op trim byte_length (actor, op))
    unfolding run_op create
    run_op-Keeps actor (make id workspace name) other =
        ignored-Keeps (create trim byte_length id workspace name actor) (
          keep_if TeamError IsOwned (trim name == "" || ltb max_name_len (byte_length (trim name)))
            _ _ (λ t down h. h) (insert_team-Keeps id workspace (trim name) actor))
    run_op-Keeps actor (enlist workspace x member) other =
        ignored-Keeps (add_member workspace x member actor)
          (add_member-Keeps actor other workspace x member)
    run_op-Keeps actor (expel workspace x member) other =
        ignored-Keeps (remove_member workspace x member actor)
          (remove_member-Keeps actor other workspace x member)

    run_ops-Keeps :
        (ops : List (String × TeamOp))
        → all (λ op. not (op.0 == creator)) ops ≡ true
        → Keeps IsOwned (run_ops trim byte_length ops)
    unfolding run_ops all
    run_ops-Keeps [] others = keep_pure TeamError IsOwned tt
    run_ops-Keeps ((actor, op) ∷ ops) others =
        keep_bind TeamError IsOwned (run_op trim byte_length (actor, op))
          (λ _. run_ops trim byte_length ops) (run_op-Keeps actor op (ground (arith, others)))
          (λ _. run_ops-Keeps ops (ground (arith, others)))

-- Along every sequence of calls by members who did not create a team, with whatever ids and workspaces, and under
-- whatever failures, the roster of that team stays as it was, and the team stays its creator's.
pub run_ops-IsOwned :
    (trim : String → String) (byte_length : String → ℕ) (team creator : String)
    (ops : List (String × TeamOp)) (t : Tables) (down : List Bool)
    → all (λ op. not (op.0 == creator)) ops ≡ true
    → any (λ r. r.id == team) t.teams ≡ true
    → all (is_own team creator) t.teams ≡ true
    → (let t' = (run_ops trim byte_length ops t down).1 in
        (all (is_own team creator) t'.teams ≡ true)
        × (own_rows team t'.members ≡ own_rows team t.members))
run_ops-IsOwned trim byte_length team creator ops t down others there own =
    let rows : List MemberRow = own_rows team t.members in
    let (still, its, same) =
      kept (IsOwned team creator rows) (run_ops trim byte_length ops)
        (run_ops-Keeps team creator rows trim byte_length ops others) t down (there, own, refl) in
    (its, same)
