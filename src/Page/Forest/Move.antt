-- ===== src/Page/Forest/Move.antt =====
-- A row that gets a new parent, and the tables that `Update` leaves.
use talyvor_docs.Prelude.{
  ℕ, zero, suc, ◌≤◌, String, ◌≡◌, refl, Bool, true, false, Option, none, some, List, [], ◌∷◌, arith,
  ◌==◌, eq_iff, eq_refl, if◌then◌else◌, Bool-cases, Option-cases, inl, inr, ◌⊎◌,
}
use talyvor_docs.Page.{PageRow, find, update_all}
use talyvor_docs.Page.Tree.{rel, steps_up, parent_of, rebase, height, walk_bound}
use talyvor_docs.Page.Update.{at_page, has}
use talyvor_docs.Page.Forest.{sound_at, IsForest, map_row, find-update_all, find-id}
use talyvor_docs.Page.Forest.Rebase.{joins_row, joins, fits, rebase-IsForest}

steps_up-parents :
    (is_root : String → Bool) (rows rows' : List PageRow)
    → ((page : String)
        → is_root page ≡ false
        → parent_of (find page rows') ≡ parent_of (find page rows))
    → (n : ℕ) (page : String) → steps_up n is_root rows' page ≡ steps_up n is_root rows page
unfolding steps_up
steps_up-parents is_root rows rows' same zero page = refl
steps_up-parents is_root rows rows' same (suc n) page = elim (Bool-cases (is_root page)) [
  | inl root ↦ ground arith
  | inr other ↦ elim (Option-cases (parent_of (find page rows))) [
    | inl top ↦ ground (arith, same page other)
    | inr (up, q) ↦ ground (arith, same page other, steps_up-parents is_root rows rows' same n up)
  ]
]

walk_bound-update_all :
    (f : PageRow → PageRow)
    → ((r : PageRow) → (f r).depth ≡ r.depth)
    → (rows : List PageRow) → walk_bound (update_all f rows) ≡ walk_bound rows
unfolding walk_bound update_all
walk_bound-update_all f same [] = refl
walk_bound-update_all f same (r ∷ rows) = ground (arith, same r, walk_bound-update_all f same rows)

pub rel-update_all :
    (is_root : String → Bool) (f : PageRow → PageRow) (rows : List PageRow)
    → ((r : PageRow) → (f r).depth ≡ r.depth)
    → ((page : String)
        → is_root page ≡ false
        → parent_of (find page (update_all f rows)) ≡ parent_of (find page rows))
    → (page : String) → rel is_root (update_all f rows) page ≡ rel is_root rows page
unfolding rel
rel-update_all is_root f rows depths parents page =
    rw (walk_bound-update_all f depths rows)
      (steps_up-parents is_root rows (update_all f rows) parents (walk_bound rows) page)

-- No page of the subtree is further down than its height.
pub rel-le-height :
    (sub : String → Option ℕ) (page : String) (rows : List PageRow) (r : PageRow) (k : ℕ)
    → find page rows ≡ some r
    → sub page ≡ some k
    → k ≤ height sub rows
unfolding find height
rel-le-height sub page [] r k found reached = ground arith
rel-le-height sub page (s ∷ rows) r k found reached =
    ground (arith, eq_iff s.id page, rel-le-height sub page rows r k)

module _ (f : PageRow → PageRow) (same_id : (r : PageRow) → (f r).id ≡ r.id)
    (same_place : (r : PageRow) → ((f r).workspace_id ≡ r.workspace_id) × ((f r).depth ≡ r.depth))
    (page : String) (rows : List PageRow) where
  abbrev moved : List PageRow
  moved = update_all (at_page page f) rows

  at_page-id : (r : PageRow) → (at_page page f r).id ≡ r.id
  at_page-id r = ground (arith, same_id r)

  at_page-depth : (r : PageRow) → (at_page page f r).depth ≡ r.depth
  at_page-depth r = ground (arith, same_place r)

  pub find-at_page :
      (x : String)
      → find x (update_all (at_page page f) rows)
        ≡ (if x == page then map_row f (find x rows) else find x rows)
  find-at_page x = elim (Option-cases (find x rows)) [
    | inl q ↦ ground (arith, find-update_all (at_page page f) at_page-id x rows)
    | inr (r, q) ↦
        ground (arith, find-update_all (at_page page f) at_page-id x rows, find-id x rows r q)
  ]

  -- The row keeps its parent: so does the forest.
  pub keep-IsForest :
      ((r : PageRow) → (f r).parent_id ≡ r.parent_id)
      → IsForest rows
      → IsForest (update_all (at_page page f) rows)
  keep-IsForest parents forest x = elim (Option-cases (find x rows)) [
    | inl q ↦ ground (arith, find-at_page x)
    | inr (r, q) ↦ elim (Option-cases r.parent_id) [
      | inl top ↦ ground (arith, find-at_page x, forest x, parents r, same_place r)
      | inr (up, p) ↦ elim (Option-cases (find up rows)) [
        | inl off ↦ ground (arith, forest x)
        | inr (s, on) ↦ ground (
          arith,
          find-at_page x,
          find-at_page up,
          forest x,
          parents r,
          same_place r,
          same_place s,
        )
      ]
    ]
  ]

  abbrev pub is_page : String → Bool
  is_page x = x == page

  rel-moved : (x : String) → rel is_page moved x ≡ rel is_page rows x
  rel-moved =
      rel-update_all is_page (at_page page f) rows at_page-depth
        (λ x other. ground (arith, find-at_page x))

  root_joins :
      (base : ℕ) (up : Option String)
      → ((find page rows ≡ none) ⊎ ((r : PageRow) × (find page rows ≡ some r)))
      → ((r : PageRow)
          → find page rows ≡ some r
          → joins is_page base rows (record r { parent_id = up }) ≡ true)
      → ((r : PageRow) → (f r).parent_id ≡ up)
      → joins_row is_page base moved (find page moved) ≡ true
  root_joins base up (inl q) target parents = ground (arith, find-at_page page)
  root_joins base none (inr (r, q)) target parents =
      ground (arith, find-at_page page, target r q, parents r, eq_refl page)
  root_joins base (some v) (inr (r, q)) target parents = elim (Option-cases (find v rows)) [
    | inl off ↦ ground (arith, target r q)
    | inr (s, on) ↦ ground (
      arith,
      find-at_page page,
      find-at_page v,
      target r q,
      parents r,
      same_place r,
      same_place s,
      rel-moved v,
      eq_refl page,
    )
  ]

  -- The page gets a parent outside its subtree, and its subtree the depths that go with it.
  pub move-IsForest :
      (up : Option String) (base : ℕ)
      → ((r : PageRow) → (f r).parent_id ≡ up)
      → IsForest rows
      → ((r : PageRow)
          → find page rows ≡ some r
          → joins is_page base rows (record r { parent_id = up }) ≡ true)
      → ((x : String) → has (find x rows) ≡ true → fits base (rel is_page rows x) ≡ true)
      → IsForest (rebase is_page base (update_all (at_page page f) rows))
  move-IsForest up base parents forest target low =
      rebase-IsForest is_page base moved outside roots depths
    where
      depths : (x : String) → has (find x moved) ≡ true → fits base (rel is_page moved x) ≡ true
      depths x there = ground (arith, find-at_page x, low x, rel-moved x)

      outside : (x : String) → is_page x ≡ false → sound_at moved (find x moved) ≡ true
      outside x other = elim (Option-cases (find x rows)) [
        | inl q ↦ ground (arith, find-at_page x)
        | inr (r, q) ↦ elim (Option-cases r.parent_id) [
          | inl top ↦ ground (arith, find-at_page x, forest x)
          | inr (u, p) ↦ elim (Option-cases (find u rows)) [
            | inl off ↦ ground (arith, forest x)
            | inr (s, on) ↦ ground (arith, find-at_page x, find-at_page u, forest x, same_place s)
          ]
        ]
      ]

      roots : (x : String) → is_page x ≡ true → joins_row is_page base moved (find x moved) ≡ true
      roots x root =
          rw ((eq_iff x page).0 root)
            (root_joins base up (Option-cases (find page rows)) target parents)
