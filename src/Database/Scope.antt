-- ===== src/Database/Scope.antt =====
-- internal/database/store.go: databases and rows outside the own workspaces.
use talyvor_docs.Prelude.{
  ℕ, String, ◌≡◌, refl, Bool, true, false, not, List, [], ◌∷◌, arith, ◌==◌, ◌∙◌, ap, any, eq_iff,
  if◌then◌else◌, select as filter,
}
use talyvor_docs.Prelude.Map.{Map}
use talyvor_docs.Postgres.Run.{
  ok, pure, refuse, select, write, ◌>>◌, Ensures, ensure_bind, ensure_statement,
}
use talyvor_docs.Postgres.Run.Keep.{
  Keeps, keep_pure, keep_bind, keep_select, keep_write, keep_if, kept,
}
use talyvor_docs.Database.{
  Base, Row, Cell, ColumnDef, Tables, BaseError, not_found, Bases, is_base, in_workspaces, is_row,
  first_of, affected, changed, create_row, update_row, delete_row, update_schema, assert_database,
  is_valid_schema, merge,
}

-- The calls of a member with these workspaces.
pub data BaseOp : Type 0 where
  set_schema : String → List ColumnDef → BaseOp
  add_row : String → String → Map Cell → ℕ → BaseOp
  patch_row : String → String → Map Cell → BaseOp
  drop_row : String → String → BaseOp

abbrev pub ignored : {A : Type 0} → Bases A → Bases (Unit {0})
ignored m t down = let (r, t', down') = m t down in (ok tt, t', down')

-- A call, whose answer or error is the caller's.
unfoldable pub run_op : List String → BaseOp → Bases (Unit {0})
unfolding update_schema create_row update_row delete_row
run_op ws (set_schema id schema) = ignored (update_schema id schema ws)
run_op ws (add_row id database values position) =
    ignored (create_row id database values position ws)
run_op ws (patch_row database id patch) = ignored (update_row database id patch ws)
run_op ws (drop_row database id) = ignored (delete_row database id ws)

unfoldable pub run_ops : List String → List BaseOp → Bases (Unit {0})
unfolding run_op
run_ops ws [] = pure tt
run_ops ws (op ∷ ops) = run_op ws op >> run_ops ws ops

module _ (ws : List String) (d : String) (bases : List Base) (rows : List Row) where
  abbrev own_bases : List Base → List Base
  own_bases bs = filter (λ b. b.id == d) bs

  abbrev own_rows : List Row → List Row
  own_rows rs = filter (λ r. r.database_id == d) rs

  -- The database is outside of the workspaces, and it and its rows are as they were.
  abbrev pub IsKept : Tables → Type 0
  IsKept t = (in_workspaces d ws t ≡ false) × (own_bases t.bases ≡ bases) × (own_rows t.rows ≡ rows)

  own_bases-changed :
      (id : String) (f : Base → Base) (bs : List Base)
      → any (is_base d ws) bs ≡ false
      → ((b : Base) → ((f b).id ≡ b.id) × ((f b).workspace_id ≡ b.workspace_id))
      → (own_bases (changed (is_base id ws) f bs) ≡ own_bases bs)
        × (any (is_base d ws) (changed (is_base id ws) f bs) ≡ false)
  unfolding filter any
  own_bases-changed id f [] out same = (refl, refl)
  own_bases-changed id f (b ∷ bs) out same =
      ground
        (arith, out, same b, own_bases-changed id f bs, eq_iff b.id id, eq_iff b.id d, eq_iff id d)

  own_rows-changed :
      (t : Tables) (database id : String) (f : Row → Row) (rs : List Row)
      → in_workspaces d ws t ≡ false
      → ((r : Row) → (f r).database_id ≡ r.database_id)
      → own_rows (changed (is_row database id ws t) f rs) ≡ own_rows rs
  unfolding filter
  own_rows-changed t database id f [] out same = refl
  own_rows-changed t database id f (r ∷ rs) out same = ground (
    arith,
    out,
    same r,
    own_rows-changed t database id f rs,
    eq_iff r.database_id d,
    λ (p : r.database_id ≡ d). ap (λ x. in_workspaces x ws t) p,
  )

  own_rows-dropped :
      (t : Tables) (database id : String) (rs : List Row)
      → in_workspaces d ws t ≡ false
      → own_rows (filter (λ r. not (is_row database id ws t r)) rs) ≡ own_rows rs
  unfolding filter
  own_rows-dropped t database id [] out = refl
  own_rows-dropped t database id (r ∷ rs) out = ground (
    arith,
    out,
    own_rows-dropped t database id rs,
    eq_iff r.database_id d,
    λ (p : r.database_id ≡ d). ap (λ x. in_workspaces x ws t) p,
  )

  keep_first : {A : Type 0} (found : List A) → Keeps IsKept (first_of found)
  keep_first [] t down h = h
  keep_first (a ∷ rest) t down h = h

  keep_affected : {A : Type 0} (found : List A) → Keeps IsKept (affected found)
  keep_affected [] t down h = h
  keep_affected (a ∷ rest) t down h = h

  update_schema-Keeps :
      (id : String) (schema : List ColumnDef) → Keeps IsKept (update_schema id schema ws)
  unfolding update_schema
  update_schema-Keeps id schema =
      keep_if BaseError IsKept (not (is_valid_schema schema)) _ _ (λ t down h. h)
        (keep_bind BaseError IsKept _ _
          (keep_write BaseError IsKept _ λ t h.
            let f : Base → Base = λ b. record b { schema = schema; updated_at = t.clock } in
            let (same, out) = own_bases-changed id f t.bases h.0 (λ b. (refl, refl)) in
            (out, same ∙ h.1, h.2))
          (λ found. keep_first found))

  update_row-Keeps :
      (database id : String) (patch : Map Cell) → Keeps IsKept (update_row database id patch ws)
  unfolding update_row
  update_row-Keeps database id patch =
      keep_bind BaseError IsKept _ _ (keep_select BaseError IsKept _) λ found.
        keep_bind BaseError IsKept _ _ (keep_first found) λ (existing : Row).
          keep_bind BaseError IsKept _ _
            (keep_write BaseError IsKept _ λ t h.
              let f : Row → Row =
                λ r. record r { values = merge patch existing.values; updated_at = t.clock } in
              (h.0, h.1, own_rows-changed t database id f t.rows h.0 (λ r. refl) ∙ h.2))
            (λ updated. keep_first updated)

  delete_row-Keeps : (database id : String) → Keeps IsKept (delete_row database id ws)
  unfolding delete_row
  delete_row-Keeps database id =
      keep_bind BaseError IsKept _ _
        (keep_write BaseError IsKept _
          λ t h. (h.0, h.1, own_rows-dropped t database id t.rows h.0 ∙ h.2))
        (λ gone. keep_affected gone)

  -- The insert comes only after the check that the database is the caller's.
  abbrev Checked : String → Tables → Type 0
  Checked database t = IsKept t × (in_workspaces database ws t ≡ true)

  assert_database-Checked :
      (database : String)
      → Ensures IsKept (assert_database database ws) (λ _. Checked database) IsKept
  unfolding assert_database select
  assert_database-Checked database =
      ensure_bind IsKept IsKept (λ exists t. IsKept t × (in_workspaces database ws t ≡ exists))
        (λ _. Checked database) (select (in_workspaces database ws)) _
        (ensure_statement IsKept IsKept
          (λ exists t. IsKept t × (in_workspaces database ws t ≡ exists))
          (λ t. (ok (in_workspaces database ws t), t)) (λ t h. (h, refl)) (λ t h. h))
        by_answer
    where
      by_answer :
          (exists : Bool)
          → Ensures
              (λ t. IsKept t × (in_workspaces database ws t ≡ exists))
              (if exists then pure tt else refuse not_found)
              (λ _. Checked database)
              IsKept
      by_answer true t down h = h
      by_answer false t down h = h.0

  insert-IsKept :
      (id database : String) (values : Map Cell) (position : ℕ) (t : Tables)
      → Checked database t
      → IsKept (record t {
        rows =
            record {
              id = id;
              database_id = database;
              values = values;
              position = position;
              created_at = t.clock;
              updated_at = t.clock;
            }
            ∷ t.rows;
      })
  unfolding filter
  insert-IsKept id database values position t h = (
    h.0.0,
    h.0.1,
    ground (
      arith,
      h.0.0,
      h.0.2,
      h.1,
      eq_iff database d,
      λ (p : database ≡ d). ap (λ x. in_workspaces x ws t) p,
    ),
  )

  create_row-Keeps :
      (id database : String) (values : Map Cell) (position : ℕ)
      → Keeps IsKept (create_row id database values position ws)
  unfolding create_row write
  create_row-Keeps id database values position =
      keep_if BaseError IsKept (database == "") _ _ (λ t down h. h)
        (ensure_bind IsKept IsKept (λ _. Checked database) (λ _. IsKept)
          (assert_database database ws) _ (assert_database-Checked database)
          (λ _.
            ensure_statement IsKept (Checked database) (λ _. IsKept) _
              (insert-IsKept id database values position) (λ t h. h.0)))

  ignored-Keeps : {A : Type 0} (m : Bases A) → Keeps IsKept m → Keeps IsKept (ignored m)
  ignored-Keeps m keeps t down h = kept IsKept m keeps t down h

  run_op-Keeps : (op : BaseOp) → Keeps IsKept (run_op ws op)
  unfolding run_op
  run_op-Keeps (set_schema id schema) =
      ignored-Keeps (update_schema id schema ws) (update_schema-Keeps id schema)
  run_op-Keeps (add_row id database values position) =
      ignored-Keeps (create_row id database values position ws)
        (create_row-Keeps id database values position)
  run_op-Keeps (patch_row database id patch) =
      ignored-Keeps (update_row database id patch ws) (update_row-Keeps database id patch)
  run_op-Keeps (drop_row database id) =
      ignored-Keeps (delete_row database id ws) (delete_row-Keeps database id)

  run_ops-Keeps : (ops : List BaseOp) → Keeps IsKept (run_ops ws ops)
  unfolding run_ops
  run_ops-Keeps [] = keep_pure BaseError IsKept tt
  run_ops-Keeps (op ∷ ops) =
      keep_bind BaseError IsKept _ _ (run_op-Keeps op) (λ _. run_ops-Keeps ops)

-- Along every sequence of schema changes and of inserts, patches and deletes of rows by members of the workspaces,
-- under whatever failures, a database outside of these workspaces and all its rows stay as they were.
pub run_ops-IsKept :
    (ws : List String) (d : String) (ops : List BaseOp) (t : Tables) (down : List Bool)
    → in_workspaces d ws t ≡ false
    → (let t' = (run_ops ws ops t down).1 in
        (in_workspaces d ws t' ≡ false)
        × (filter (λ b. b.id == d) t'.bases ≡ filter (λ b. b.id == d) t.bases)
        × (filter (λ r. r.database_id == d) t'.rows ≡ filter (λ r. r.database_id == d) t.rows))
run_ops-IsKept ws d ops t down out =
    let same : List Base = filter (λ b. b.id == d) t.bases in
    let rows : List Row = filter (λ r. r.database_id == d) t.rows in
    kept (IsKept ws d same rows) (run_ops ws ops) (run_ops-Keeps ws d same rows ops) t down
      (out, refl, refl)
