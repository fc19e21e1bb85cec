-- ===== src/EditSession/Composite.antt =====
-- internal/editsession/composite.go: the guards of the save path, one after the other.
use talyvor_docs.Prelude.{
  String, Bool, true, false, Option, none, some, List, [], ◌∷◌, if◌then◌else◌,
}
use talyvor_docs.Postgres.Sql.{Sql, pure, ◌>>=◌}

-- `EditGuard`, at its one method
abbrev pub EditGuard : Type 0
EditGuard = String → String → Bool → Sql (Bool × String)

unfoldable pub compose : List (Option EditGuard) → List EditGuard
compose [] = []
compose (none ∷ guards) = compose guards
compose (some g ∷ guards) = g ∷ compose guards

unfoldable pub can_edit : List EditGuard → String → String → Bool → Sql (Bool × String)
can_edit [] page member admin = pure (true, "")
can_edit (g ∷ guards) page member admin = do
  answer ← g page member admin
  if answer.0 then can_edit guards page member admin else pure (false, answer.1)
