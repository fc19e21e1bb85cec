-- ===== src/Database.antt =====
-- internal/database/store.go: the inline databases of pages, their rows and their views. A store has a pool here; the
-- id of a new row of a table is an argument, and a JSON column holds the value itself. A float is an integer, since
-- only its order and its texts are used; reading and writing those, and lower case, are parameters.
pub mod Sorting
pub mod Scope
pub mod Views
pub mod Tests
use Prim.Native.String.{compare}
use Prim.Native.Nat.{Ordering}
use package.text.Mathlib.Text.{find?}
use mathlib.Core.List.{reverse}
use talyvor_docs.Prelude.{
  ℕ, String, Bool, true, false, not, ◌&&◌, Option, none, some, List, [], ◌∷◌, ◌==◌, if◌then◌else◌,
  length, ltb, leb, any, map, all, select as filter,
}
use talyvor_docs.Prelude.Int.{ℤ, ltb_ℤ}
use talyvor_docs.Prelude.Map.{Map, lookup, insert}
use talyvor_docs.Prelude.Sort.{sort_by}
use talyvor_docs.Postgres.Tables.{among}
use talyvor_docs.Postgres.Run.{Run, pure, refuse, ◌>>=◌, ◌>>◌, statement, select, write}

-- ColumnDef
pub record ColumnDef : Type 0 where
  pub id : String
  pub name : String
  pub type : String
  pub options : List String
  pub formula : String

-- A value of a cell; `other` is a list, an object or null.
pub data Cell : Type 0 where
  text : String → Cell
  flag : Bool → Cell
  number : ℤ → Cell
  other : Cell

-- Database
pub record Base : Type 0 where
  pub id : String
  pub page_id : String
  pub workspace_id : String
  pub name : String
  pub schema : List ColumnDef
  pub updated_at : ℕ

pub record Row : Type 0 where
  pub id : String
  pub database_id : String
  pub values : Map Cell
  pub position : ℕ
  pub created_at : ℕ
  pub updated_at : ℕ

pub record Filter : Type 0 where
  pub col_id : String
  pub operator : String
  pub value : String

-- DatabaseView
pub record View : Type 0 where
  pub id : String
  pub database_id : String
  pub name : String
  pub type : String
  pub filters : List Filter
  pub sort_by : String
  pub sort_dir : String
  pub group_by : String
  pub hidden_cols : List String
  pub created_at : ℕ

pub record Tables : Type 0 where
  pub bases : List Base
  pub rows : List Row
  pub views : List View
  pub clock : ℕ

pub data BaseError : Type 0 where
  page_required too_many_columns not_found database_required no_fields : BaseError

abbrev pub Bases : Type 0 → Type 0
Bases A = Run Tables BaseError A

-- `MaxColumns`
abbrev pub max_columns : ℕ
max_columns = 50

abbrev pub is_base : String → List String → Base → Bool
is_base id workspaces d = d.id == id && among workspaces d.workspace_id

-- database_id IN (SELECT id FROM databases WHERE workspace_id = ANY($n)), for one id
abbrev pub in_workspaces : String → List String → Tables → Bool
in_workspaces id workspaces t = any (is_base id workspaces) t.bases

-- What a statement that RETURNS rows gives: the first, or none.
abbrev pub first_of : {A : Type 0} → List A → Bases A
first_of [] = refuse not_found
first_of (a ∷ rest) = pure a

-- The rows that a test picks, each changed by a function; the answer is those rows.
abbrev pub changed : {A : Type 0} → (A → Bool) → (A → A) → List A → List A
changed test f rows = map (λ r. if test r then f r else r) rows

abbrev pub picked : {A : Type 0} → (A → Bool) → (A → A) → List A → List A
picked test f rows = map f (filter test rows)

-- `validateSchema`
abbrev pub is_valid_schema : List ColumnDef → Bool
is_valid_schema schema = leb (length schema) max_columns

-- `CreateDatabase`
unfoldable pub create_database : String → String → String → String → List ColumnDef → Bases Base
unfolding write
create_database id page workspace name schema =
    if page == ""
    then refuse page_required
    else if not (is_valid_schema schema)
    then refuse too_many_columns
    else write (λ t.
      let d : Base = record {
        id = id;
        page_id = page;
        workspace_id = workspace;
        name = if name == "" then "Untitled Database" else name;
        schema = schema;
        updated_at = t.clock;
      } in
      (d, record t { bases = d ∷ t.bases }))

-- `assertDatabaseInWorkspaces`
unfoldable pub assert_database : String → List String → Bases (Unit {0})
unfolding select
assert_database id workspaces = do
  exists ← select (in_workspaces id workspaces)
  if exists then pure tt else refuse not_found

-- `GetDatabase`
unfoldable pub get_database : String → List String → Bases Base
unfolding select
get_database id workspaces = do
  found ← select (λ t. filter (is_base id workspaces) t.bases)
  first_of found

-- `UpdateSchema`
unfoldable pub update_schema : String → List ColumnDef → List String → Bases Base
unfolding write
update_schema id schema workspaces =
    if not (is_valid_schema schema)
    then refuse too_many_columns
    else (write (λ t.
          let f = λ (d : Base). record d { schema = schema; updated_at = t.clock } in
          (
            picked (is_base id workspaces) f t.bases,
            record t { bases = changed (is_base id workspaces) f t.bases },
          ))
        >>= first_of)

-- `CreateRow`
unfoldable pub create_row : String → String → Map Cell → ℕ → List String → Bases Row
unfolding assert_database write
create_row id database values position workspaces =
    if database == ""
    then refuse database_required
    else (assert_database database workspaces
        >> write (λ t.
          let r : Row = record {
            id = id;
            database_id = database;
            values = values;
            position = position;
            created_at = t.clock;
            updated_at = t.clock;
          } in
          (r, record t { rows = r ∷ t.rows })))

-- The WHERE clause of the statements on one row.
abbrev pub is_row : String → String → List String → Tables → Row → Bool
is_row database id workspaces t r =
    r.id == id && r.database_id == database && in_workspaces r.database_id workspaces t

-- The loop over the patch, which Go visits in any order: its keys differ.
unfoldable pub merge : Map Cell → Map Cell → Map Cell
unfolding insert
merge [] values = values
merge ((k, v) ∷ patch) values = merge patch (insert k v values)

-- `UpdateRow`
unfoldable pub update_row : String → String → Map Cell → List String → Bases Row
unfolding select write merge
update_row database id patch workspaces = do
  found ← select (λ t. filter (is_row database id workspaces t) t.rows)
  existing ← first_of found
  updated ← write (λ t.
      let f =
        λ (r : Row). record r { values = merge patch existing.values; updated_at = t.clock } in
      (
        picked (is_row database id workspaces t) f t.rows,
        record t { rows = changed (is_row database id workspaces t) f t.rows },
      ))
  first_of updated

abbrev pub affected : {A : Type 0} → List A → Bases (Unit {0})
affected [] = refuse not_found
affected (a ∷ rest) = pure tt

-- `DeleteRow`
unfoldable pub delete_row : String → String → List String → Bases (Unit {0})
unfolding write
delete_row database id workspaces = do
  gone ← write (λ t. (
    filter (is_row database id workspaces t) t.rows,
    record t { rows = filter (λ r. not (is_row database id workspaces t r)) t.rows },
  ))
  affected gone

-- ORDER BY position ASC, created_at ASC, id ASC
abbrev pub text_before : String → String → Bool
text_before a b = elim (compare a b) [
  | Ordering.lt ↦ true
  | Ordering.eq ↦ false
  | Ordering.gt ↦ false
]

abbrev pub stands_before : Row → Row → Bool
stands_before a b =
    if ltb a.position b.position
    then true
    else if ltb b.position a.position
    then false
    else if ltb a.created_at b.created_at
    then true
    else if ltb b.created_at a.created_at
    then false
    else text_before a.id b.id

module _ (parse_float : String → Option ℤ) (format_float : ℤ → String)
    (lower : String → String) where
  abbrev pub flag_text : Bool → String
  flag_text true = "true"
  flag_text false = "false"

  -- `stringOf`
  abbrev pub string_of : Cell → String
  string_of (text s) = s
  string_of (flag b) = flag_text b
  string_of (number n) = format_float n
  string_of other = ""

  -- `numberOf`
  abbrev pub number_of : Cell → Option ℤ
  number_of (number n) = some n
  number_of (text s) = parse_float s
  number_of (flag b) = none
  number_of other = none

  abbrev pub same_number : ℤ → Option ℤ → Bool
  same_number n none = false
  same_number n (some m) = not (ltb_ℤ n m) && not (ltb_ℤ m n)

  -- `cellEquals`
  unfoldable pub cell_equals : Cell → String → Bool
  cell_equals (text s) want = s == want
  cell_equals (flag b) want = flag_text b == lower want
  cell_equals (number n) want = same_number n (parse_float want)
  cell_equals other want = "" == want

  abbrev pub both_numbers : (ℤ → ℤ → Bool) → Option ℤ → Option ℤ → Bool
  both_numbers f none b = false
  both_numbers f (some a) none = false
  both_numbers f (some a) (some b) = f a b

  abbrev pub contains : String → String → Bool
  contains s part = elim (find? s part) [ none ↦ false | some i ↦ true ]

  abbrev pub filter_cell : Filter → Option Cell → Bool
  filter_cell f none = false
  filter_cell f (some v) =
      if f.operator == "eq"
      then cell_equals v f.value
      else if f.operator == "neq"
      then not (cell_equals v f.value)
      else if f.operator == "contains"
      then contains (lower (string_of v)) (lower f.value)
      else if f.operator == "gt"
      then both_numbers (λ a b. ltb_ℤ b a) (number_of v) (parse_float f.value)
      else if f.operator == "lt"
      then both_numbers ltb_ℤ (number_of v) (parse_float f.value)
      else false

  -- `applyFilter`
  unfoldable pub apply_filter : Row → Filter → Bool
  unfolding lookup cell_equals
  apply_filter r f = filter_cell f (lookup f.col_id r.values)

  -- `filterRows`
  unfoldable pub filter_rows : List Row → List Filter → List Row
  unfolding apply_filter
  filter_rows rows filters = filter (λ r. all (apply_filter r) filters) rows

  abbrev pub cell_of : Option Cell → Cell
  cell_of none = other
  cell_of (some v) = v

  -- `compareValues`, whose result is below zero
  abbrev pub is_less : Option ℤ → Option ℤ → Cell → Cell → Bool
  is_less none b x y = text_before (string_of x) (string_of y)
  is_less (some a) none x y = text_before (string_of x) (string_of y)
  is_less (some a) (some b) x y = ltb_ℤ a b

  abbrev pub compares_below : Cell → Cell → Bool
  compares_below x y = is_less (number_of x) (number_of y) x y

  abbrev pub column : String → Row → Cell
  column col r = cell_of (lookup col r.values)

  -- The order of `sortRows`.
  abbrev pub sorts_before : String → String → Row → Row → Bool
  sorts_before col dir a b =
      if dir == "desc"
      then compares_below (column col b) (column col a)
      else compares_below (column col a) (column col b)

  -- `sortRows`
  unfoldable pub sort_rows : String → String → List Row → List Row
  unfolding lookup
  sort_rows col dir rows = sort_by (sorts_before col dir) rows

  abbrev pub viewed : Option View → List Row → List Row
  viewed none rows = rows
  viewed (some v) rows =
      let kept = filter_rows rows v.filters in
      if v.sort_by == "" then kept else sort_rows v.sort_by v.sort_dir kept

  -- `ListRows`
  unfoldable pub list_rows : String → Option View → List String → Bases (List Row)
  unfolding select filter_rows sort_rows
  list_rows database view workspaces = do
    rows ← select (λ t. sort_by stands_before (
        filter (λ r. r.database_id == database && in_workspaces r.database_id workspaces t) t.rows))
    pure (viewed view rows)
