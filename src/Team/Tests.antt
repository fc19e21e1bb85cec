-- ===== src/Team/Tests.antt =====
-- internal/team/store.go at fixed inputs.
use talyvor_docs.Prelude.{
  ℕ, String, true, false, List, [], ◌∷◌, ◌≡◌, refl, all, any, select as filter,
}
use talyvor_docs.Postgres.Run.{refused}
use talyvor_docs.Team.{
  Tables, not_creator, unknown_member, add_member, manage, find_team, insert_member, require_on,
}
use talyvor_docs.Team.Roster.{
  TeamOp, make, enlist, expel, run_ops, own_rows, is_own, run_ops-IsOwned,
}

abbrev unchanged : String → String
unchanged s = s

abbrev byte_length : String → ℕ
byte_length s = 4

abbrev start : Tables
start = record {
  teams =
      record { id = "t"; workspace_id = "w"; name = "core"; created_by = "ada"; created_at = 1 }
      ∷ [];
  members =
      record {
        team_id = "t";
        workspace_id = "w";
        member_id = "bob";
        added_by = "ada";
        added_at = 2;
      }
      ∷ [];
  roster = record { workspace_id = "w"; member_id = "eve" } ∷ [];
  clock = 3;
}

bob_refused : (add_member "w" "t" "eve" "bob" start []).0 ≡ refused not_creator
unfolding add_member manage find_team
bob_refused = refl

ada_admits :
    own_rows "t" (add_member "w" "t" "eve" "ada" start []).1.members
    ≡ own_rows "t" (
        record {
          team_id = "t";
          workspace_id = "w";
          member_id = "eve";
          added_by = "ada";
          added_at = 3;
        }
        ∷ start.members)
unfolding add_member manage find_team insert_member any filter
ada_admits = refl

stranger_unknown : (add_member "w" "t" "zoe" "ada" start []).0 ≡ refused unknown_member
unfolding add_member manage find_team insert_member any require_on
stranger_unknown = refl

-- Bob and Eve try the roster of Ada's team, one also under an id that is taken.
abbrev tries : List (String × TeamOp)
tries =
    ("bob", enlist "w" "t" "eve") ∷ ("eve", expel "w" "t" "bob") ∷ ("eve", make "t" "w" "mine") ∷ []

run_ops-IsOwned_example :
    (all (is_own "t" "ada") (run_ops unchanged byte_length tries start (false ∷ true ∷ [])).1.teams
      ≡ true)
    × (own_rows "t" (run_ops unchanged byte_length tries start (false ∷ true ∷ [])).1.members
        ≡ own_rows "t" start.members)
unfolding all any
run_ops-IsOwned_example =
    run_ops-IsOwned unchanged byte_length "t" "ada" tries start (false ∷ true ∷ []) refl refl refl
