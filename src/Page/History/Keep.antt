-- ===== src/Page/History/Keep.antt =====
-- The history of a page, whatever statements of `Update` fail.
use talyvor_docs.Prelude.{
  ℕ, suc, ◌≤◌, String, ◌≡◌, refl, Bool, some, List, [], ◌∷◌, arith, eq_iff, Bool-cases, inl, inr,
  ◌⊎◌,
}
use talyvor_docs.Postgres.Run.Calm.{after_same}
use talyvor_docs.Page.{VersionRow, Tables}
use talyvor_docs.Page.Create.{latest}
use talyvor_docs.Page.Update.{Guard, Updates, update}
use talyvor_docs.Page.History.{find_version, is_version}
use talyvor_docs.Page.History.Append.{OneMore, update-OneMore}

find_version-le-latest :
    (page : String) (n : ℕ) (workspaces : List String) (rows : List VersionRow) (v : VersionRow)
    → find_version page n workspaces rows ≡ some v
    → n ≤ latest page rows
unfolding find_version latest
find_version-le-latest page n workspaces [] v found = ground arith
find_version-le-latest page n workspaces (w ∷ rows) v found =
    elim (Bool-cases (is_version page n workspaces w)) [
      | inl this ↦ ground arith
      | inr other ↦ ground (arith, find_version-le-latest page n workspaces rows v)
    ]

module _ (extract : String → String) (guard : Guard) (page : String) (u : Updates) (t : Tables)
    (down : List Bool) where
  -- `Update` leaves the versions as they are, or adds one of its page, whose number is the next. This holds
  -- whatever statements fail.
  pub update-latest :
      (let t' = (update extract guard page u t down).1 in
        (t'.versions ≡ t.versions)
        ⊎ ((v : VersionRow) × (t'.versions ≡ v ∷ t.versions)
            × (v.page_id ≡ page)
            × (v.version ≡ suc (latest page t.versions))))
  update-latest =
      after_same (OneMore page t.versions) (update extract guard page u t down).0
        (update extract guard page u t down).1
        (update-OneMore extract guard page u t.versions t down refl)

  -- A version that can be read before an `Update` reads the same after it, whatever statements fail.
  pub update-find_version :
      (asked : String) (n : ℕ) (workspaces : List String) (v : VersionRow)
      → find_version asked n workspaces t.versions ≡ some v
      → find_version asked n workspaces (update extract guard page u t down).1.versions ≡ some v
  unfolding find_version
  update-find_version asked n workspaces v found = elim update-latest [
    | inl same ↦ rw same found
    | inr (w, more, own, next) ↦ rw more (
        ground (
          arith,
          found,
          own,
          next,
          eq_iff page asked,
          eq_iff w.page_id asked,
          find_version-le-latest asked n workspaces t.versions v found,
        ))
  ]
