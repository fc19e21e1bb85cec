-- ===== src/Database/Tests.antt =====
-- Two databases in two workspaces.
use talyvor_docs.Prelude.{
  ℕ, String, ◌≡◌, refl, true, false, Option, none, some, List, [], ◌∷◌, ◌==◌, if◌then◌else◌, any,
  all, select as filter,
}
use talyvor_docs.Prelude.Int.{ℤ, pos}
use talyvor_docs.Prelude.Sort.{sort_by}
use talyvor_docs.Postgres.Tables.{among}
use talyvor_docs.Postgres.Run.{ok}
use talyvor_docs.Database.{Base, Row, Cell, Tables, View, in_workspaces, update_row, list_rows}
use talyvor_docs.Database.Scope.{BaseOp, run_ops, run_ops-IsKept}

abbrev base : String → String → Base
base id workspace = record {
  id = id;
  page_id = "p";
  workspace_id = workspace;
  name = id;
  schema = [];
  updated_at = 1;
}

abbrev row : String → String → ℕ → Row
row id database n = record {
  id = id;
  database_id = database;
  values = ("n", Cell.number (pos n)) ∷ [];
  position = 1;
  created_at = 1;
  updated_at = 1;
}

abbrev small : Tables
small = record {
  bases = base "d" "w" ∷ base "e" "v" ∷ [];
  rows = row "r3" "d" 3 ∷ row "r1" "d" 1 ∷ row "r2" "e" 2 ∷ [];
  views = [];
  clock = 9;
}

abbrev parse_float : String → Option ℤ
parse_float s = if s == "1" then some (pos 1) else none

abbrev format_float : ℤ → String
format_float n = "1"

abbrev by_number : View
by_number = record {
  id = "v";
  database_id = "d";
  name = "";
  type = "table";
  filters = record { col_id = "n"; operator = "gt"; value = "1" } ∷ [];
  sort_by = "n";
  sort_dir = "asc";
  group_by = "";
  hidden_cols = [];
  created_at = 1;
}

listed :
    (list_rows parse_float format_float (λ s. s) "d" (some by_number) ("w" ∷ []) small []).0
    ≡ ok (row "r3" "d" 3 ∷ [])
unfolding list_rows any among filter all sort_by
listed = refl

patched :
    (update_row "d" "r1" (("m", Cell.flag true) ∷ []) ("w" ∷ []) small []).1.rows
    ≡ row "r3" "d" 3
      ∷ record (row "r1" "d" 1) {
        values = ("n", Cell.number (pos 1)) ∷ ("m", Cell.flag true) ∷ [];
        updated_at = 9;
      }
      ∷ row "r2" "e" 2
      ∷ []
unfolding update_row any among filter
patched = refl

abbrev calls : List BaseOp
calls =
    BaseOp.patch_row "e" "r2" (("n", Cell.other) ∷ [])
    ∷ BaseOp.add_row "r4" "e" [] 1
    ∷ BaseOp.drop_row "e" "r2"
    ∷ BaseOp.set_schema "e" []
    ∷ []

run_ops-IsKept_example :
    let t' = (run_ops ("w" ∷ []) calls small (false ∷ true ∷ [])).1 in
    (in_workspaces "e" ("w" ∷ []) t' ≡ false)
    × (filter (λ b. b.id == "e") t'.bases ≡ filter (λ b. b.id == "e") small.bases)
    × (filter (λ r. r.database_id == "e") t'.rows ≡ filter (λ r. r.database_id == "e") small.rows)
unfolding any among
run_ops-IsKept_example = run_ops-IsKept ("w" ∷ []) "e" calls small (false ∷ true ∷ []) refl
