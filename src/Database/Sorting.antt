-- ===== src/Database/Sorting.antt =====
-- internal/database/store.go: what a view lists.
use talyvor_docs.Prelude.{String, ◌≡◌, Bool, Option, some, List}
use talyvor_docs.Prelude.Int.{ℤ}
use talyvor_docs.Prelude.Map.{lookup}
use talyvor_docs.Database.{Row, Cell, sorts_before}

module _ (parse_float : String → Option ℤ) (format_float : ℤ → String) (lower : String → String)
    (col dir : String) where
  -- The row has a number in the column.
  abbrev pub IsNumeric : Row → Type 0
  IsNumeric r = (n : ℤ) × (lookup col r.values ≡ some (Cell.number n))

  abbrev less : Row → Row → Bool
  less = sorts_before parse_float format_float lower col dir
