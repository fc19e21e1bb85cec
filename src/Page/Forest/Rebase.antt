-- ===== src/Page/Forest/Rebase.antt =====
-- A rebase makes a forest of a table whose roots have a new parent.
use talyvor_docs.Prelude.{
  ℕ, ◌+◌, String, ◌≡◌, refl, ◌∙◌, Bool, true, false, not, ◌&&◌, Option, none, some, List, arith,
  eqb, leb, Bool-cases, Option-cases, inl, inr, ◌⊎◌,
}
use talyvor_docs.Page.{PageRow, find}
use talyvor_docs.Page.Tree.{rel, rebase, set_depth, is_some}
use talyvor_docs.Page.Update.{has}
use talyvor_docs.Page.Forest.{sound_at, under, IsForest, map_row, find-update_all, find-id}
use talyvor_docs.Page.Forest.Walk.{rel-cases}

set_depth-id : (base : ℕ) (k : Option ℕ) (r : PageRow) → (set_depth base k r).id ≡ r.id
set_depth-id base none r = refl
set_depth-id base (some n) r = refl

pub find-rebase :
    (is_root : String → Bool) (base : ℕ) (rows : List PageRow) (page : String)
    → find page (rebase is_root base rows)
      ≡ map_row (set_depth base (rel is_root rows page)) (find page rows)
unfolding rebase
find-rebase is_root base rows page =
    find-update_all (λ r. set_depth base (rel is_root rows r.id) r)
      (λ r. set_depth-id base (rel is_root rows r.id) r) page rows
    ∙ at_id (Option-cases (find page rows))
  where
    at_id :
        ((find page rows ≡ none) ⊎ ((r : PageRow) × (find page rows ≡ some r)))
        → map_row (λ r. set_depth base (rel is_root rows r.id) r) (find page rows)
          ≡ map_row (set_depth base (rel is_root rows page)) (find page rows)
    at_id (inl q) = rw q refl
    at_id (inr (r, q)) = rw (q, find-id page rows r q) refl

-- What a root needs of its new parent: it is outside the subtree, in the workspace, and just above `base`.
abbrev pub joins : (String → Bool) → ℕ → List PageRow → PageRow → Bool
joins is_root base rows r = elim r.parent_id [
  | none ↦ eqb base 0
  | some up ↦
      under (record r { depth = base }) (find up rows) && not (is_some (rel is_root rows up))
]

abbrev pub joins_row : (String → Bool) → ℕ → List PageRow → Option PageRow → Bool
joins_row is_root base rows none = true
joins_row is_root base rows (some r) = joins is_root base rows r

abbrev pub fits : ℕ → Option ℕ → Bool
fits base none = true
fits base (some k) = leb (base + k) 5

module _ (is_root : String → Bool) (base : ℕ) (rows : List PageRow)
    (outside : (page : String) → is_root page ≡ false → sound_at rows (find page rows) ≡ true)
    (roots : (page : String)
      → is_root page ≡ true
      → joins_row is_root base rows (find page rows) ≡ true)
    (low : (page : String)
      → has (find page rows) ≡ true
      → fits base (rel is_root rows page) ≡ true) where
  rebase-root :
      (page : String) (r : PageRow)
      → find page rows ≡ some r
      → is_root page ≡ true
      → sound_at (rebase is_root base rows) (find page (rebase is_root base rows)) ≡ true
  rebase-root page r q root = elim (Option-cases r.parent_id) [
    | inl top ↦ ground (
      arith,
      find-rebase is_root base rows page,
      rel-cases is_root rows outside page,
      roots page root,
      low page,
    )
    | inr (up, p) ↦ ground (
      arith,
      find-rebase is_root base rows page,
      find-rebase is_root base rows up,
      rel-cases is_root rows outside page,
      roots page root,
      low page,
    )
  ]

  rebase-other :
      (page : String) (r : PageRow)
      → find page rows ≡ some r
      → is_root page ≡ false
      → sound_at (rebase is_root base rows) (find page (rebase is_root base rows)) ≡ true
  rebase-other page r q other = elim (Option-cases r.parent_id) [
    | inl top ↦ ground (
      arith,
      find-rebase is_root base rows page,
      rel-cases is_root rows outside page,
      outside page other,
      low page,
    )
    | inr (up, p) ↦ ground (
      arith,
      find-rebase is_root base rows page,
      find-rebase is_root base rows up,
      rel-cases is_root rows outside page,
      outside page other,
      low page,
    )
  ]

  pub rebase-IsForest : IsForest (rebase is_root base rows)
  rebase-IsForest page = elim (Option-cases (find page rows)) [
    | inl q ↦ ground (arith, find-rebase is_root base rows page)
    | inr (r, q) ↦ elim (Bool-cases (is_root page)) [
      | inl root ↦ rebase-root page r q root
      | inr other ↦ rebase-other page r q other
    ]
  ]
