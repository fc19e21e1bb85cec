-- ===== src/Database/Views.antt =====
-- internal/database/store.go: the views of a database. The map of updates is a record of the fields that the code
-- lets through.
use talyvor_docs.Prelude.{
  String, Bool, true, false, ◌&&◌, Option, none, some, List, ◌∷◌, ◌==◌, if◌then◌else◌, ltb,
  select as filter,
}
use talyvor_docs.Prelude.Sort.{sort_by}
use talyvor_docs.Postgres.Run.{refuse, ◌>>=◌, ◌>>◌, select, write}
use talyvor_docs.Database.{
  View, Filter, Tables, Bases, no_fields, in_workspaces, assert_database, first_of, changed, picked,
}

abbrev pub or_text : String → String → String
or_text s other = if s == "" then other else s

-- `CreateView`; the title of a type, as strings.Title writes it, is a parameter.
unfoldable pub create_view : (String → String) → String → View → List String → Bases View
unfolding assert_database write
create_view title id v workspaces =
    assert_database v.database_id workspaces
    >> write (λ t.
      let type = or_text v.type "table" in
      let made : View = record v {
        id = id;
        type = type;
        sort_dir = or_text v.sort_dir "asc";
        name = or_text v.name (title type);
        created_at = t.clock;
      } in
      (made, record t { views = made ∷ t.views }))

abbrev pub is_older : View → View → Bool
is_older a b = ltb a.created_at b.created_at

-- `ListViews`
unfoldable pub list_views : String → List String → Bases (List View)
unfolding select
list_views database workspaces = select λ t.
    sort_by is_older
      (filter (λ v. v.database_id == database && in_workspaces v.database_id workspaces t) t.views)

-- The fields of `allowed`.
pub record ViewUpdates : Type 0 where
  pub name : Option String
  pub type : Option String
  pub filters : Option (List Filter)
  pub sort_by : Option String
  pub sort_dir : Option String
  pub group_by : Option String
  pub hidden_cols : Option (List String)

abbrev pub or_old {ℓ} : {A : Type ℓ} → Option A → A → A
or_old none a = a
or_old (some b) a = b

abbrev pub is_none {ℓ} : {A : Type ℓ} → Option A → Bool
is_none none = true
is_none (some a) = false

abbrev pub is_empty : ViewUpdates → Bool
is_empty u =
    is_none u.name
    && is_none u.type
    && is_none u.filters
    && is_none u.sort_by
    && is_none u.sort_dir
    && is_none u.group_by
    && is_none u.hidden_cols

abbrev pub with_updates : ViewUpdates → View → View
with_updates u v = record v {
  name = or_old u.name v.name;
  type = or_old u.type v.type;
  filters = or_old u.filters v.filters;
  sort_by = or_old u.sort_by v.sort_by;
  sort_dir = or_old u.sort_dir v.sort_dir;
  group_by = or_old u.group_by v.group_by;
  hidden_cols = or_old u.hidden_cols v.hidden_cols;
}

abbrev pub is_view : String → String → List String → Tables → View → Bool
is_view database id workspaces t v =
    v.id == id && v.database_id == database && in_workspaces v.database_id workspaces t

-- `UpdateView`
unfoldable pub update_view : String → String → ViewUpdates → List String → Bases View
unfolding write
update_view database id u workspaces =
    if is_empty u
    then refuse no_fields
    else (write (λ t. (
      picked (is_view database id workspaces t) (with_updates u) t.views,
      record t { views = changed (is_view database id workspaces t) (with_updates u) t.views },
    ))
        >>= first_of)
