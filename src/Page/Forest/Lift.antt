-- ===== src/Page/Forest/Lift.antt =====
-- `Delete` lifts the children of the page: the rows before the page itself goes.
use talyvor_docs.Prelude.{
  ℕ, ◌+◌, ◌≤◌, String, ◌≡◌, refl, Bool, true, false, not, ◌&&◌, Option, none, some, List, [], ◌∷◌,
  arith, eq_iff, Bool-cases, Option-cases, inl, inr,
}
use talyvor_docs.Postgres.Tables.{among}
use talyvor_docs.Page.{PageRow, find, update_all}
use talyvor_docs.Page.Tree.{rel, rebase}
use talyvor_docs.Page.Update.{has, depth_of}
use talyvor_docs.Page.Delete.{is_child, reparent, child_ids}
use talyvor_docs.Page.Forest.{IsForest, sound_at, map_row, find-update_all}
use talyvor_docs.Page.Forest.Walk.{rel-depth}
use talyvor_docs.Page.Forest.Rebase.{joins, joins_row, fits, rebase-IsForest, find-rebase}

-- The primary key of `pages`.
unfoldable pub unique_ids : List PageRow → Bool
unique_ids [] = true
unique_ids (r ∷ rows) = let rest = unique_ids rows in not (has (find r.id rows)) && rest

abbrev pub child_row : String → Option PageRow → Bool
child_row page none = false
child_row page (some r) = is_child page r

among-child_ids :
    (page x : String) (rows : List PageRow)
    → unique_ids rows ≡ true
    → among (child_ids page rows) x ≡ child_row page (find x rows)
unfolding child_ids find unique_ids among
among-child_ids page x [] unique = refl
among-child_ids page x (r ∷ rows) unique = elim (Bool-cases (is_child page r)) [
  | inl child ↦ ground (arith, eq_iff r.id x, eq_iff x r.id, among-child_ids page x rows)
  | inr other ↦ ground (arith, eq_iff r.id x, eq_iff x r.id, among-child_ids page x rows)
]

reparent-id : (page : String) (up : Option String) (r : PageRow) → (reparent page up r).id ≡ r.id
reparent-id page up r = elim (Bool-cases (is_child page r)) [
  | inl child ↦ rw child refl
  | inr other ↦ rw other refl
]

-- The rows with the children at their new parent, and then with their subtrees at the new depths.
abbrev pub lifted : String → List PageRow → PageRow → List PageRow
lifted page rows r = update_all (reparent page r.parent_id) rows

abbrev pub settled : String → List PageRow → PageRow → List PageRow
settled page rows r = rebase (among (child_ids page rows)) r.depth (lifted page rows r)

module _ (page : String) (rows : List PageRow) (r : PageRow) (found : find page rows ≡ some r)
    (forest : IsForest rows) (unique : unique_ids rows ≡ true) where
  find-lifted :
      (x : String) → find x (lifted page rows r) ≡ map_row (reparent page r.parent_id) (find x rows)
  find-lifted x = find-update_all (reparent page r.parent_id) (reparent-id page r.parent_id) x rows

  pub outside :
      (x : String)
      → among (child_ids page rows) x ≡ false
      → sound_at (lifted page rows r) (find x (lifted page rows r)) ≡ true
  outside x other = elim (Option-cases (find x rows)) [
    | inl q ↦ ground (arith, find-lifted x)
    | inr (s, q) ↦ elim (Option-cases s.parent_id) [
      | inl top ↦ ground (arith, find-lifted x, among-child_ids page x rows unique, forest x)
      | inr (up, p) ↦ elim (Option-cases (find up rows)) [
        | inl off ↦ ground (arith, forest x)
        | inr (v, on) ↦ elim (Bool-cases (is_child page v)) [
          | inl child ↦
              ground
                (arith, find-lifted x, find-lifted up, among-child_ids page x rows unique, forest x)
          | inr same ↦
              ground
                (arith, find-lifted x, find-lifted up, among-child_ids page x rows unique, forest x)
        ]
      ]
    ]
  ]

  root_depth :
      (x : String)
      → among (child_ids page rows) x ≡ true
      → r.depth + 1 ≤ depth_of (find x (lifted page rows r))
  root_depth x root = elim (Option-cases (find x rows)) [
    | inl q ↦ ground (arith, among-child_ids page x rows unique)
    | inr (s, q) ↦ elim (Option-cases s.parent_id) [
      | inl top ↦ ground (arith, among-child_ids page x rows unique)
      | inr (up, p) ↦
          ground
            (arith, find-lifted x, among-child_ids page x rows unique, forest x, eq_iff up page)
    ]
  ]

  lifted_depth : (x : String) → depth_of (find x (lifted page rows r)) ≡ depth_of (find x rows)
  lifted_depth x = elim (Option-cases (find x rows)) [
    | inl q ↦ ground (arith, find-lifted x)
    | inr (s, q) ↦ elim (Bool-cases (is_child page s)) [
      | inl child ↦ ground (arith, find-lifted x)
      | inr other ↦ ground (arith, find-lifted x)
    ]
  ]

  below_roots :
      (x : String) (k : ℕ)
      → rel (among (child_ids page rows)) (lifted page rows r) x ≡ some k
      → r.depth + 1 + k ≤ depth_of (find x rows)
  below_roots x k reached = rw (← lifted_depth x) (
      rel-depth (among (child_ids page rows)) (lifted page rows r) outside (r.depth + 1) x k
        root_depth reached)

  low :
      (x : String)
      → has (find x (lifted page rows r)) ≡ true
      → fits r.depth (rel (among (child_ids page rows)) (lifted page rows r) x) ≡ true
  low x there = elim (Option-cases (rel (among (child_ids page rows)) (lifted page rows r) x)) [
    | inl off ↦ ground arith
    | inr (k, on) ↦ elim (Option-cases (find x rows)) [
      | inl q ↦ ground (arith, below_roots x k on)
      | inr (s, q) ↦ ground (arith, below_roots x k on, forest x)
    ]
  ]

  find-child :
      (x : String) (s : PageRow)
      → find x rows ≡ some s
      → is_child page s ≡ true
      → find x (lifted page rows r) ≡ some (record s { parent_id = r.parent_id })
  find-child x s q child = ground (arith, find-lifted x)

  -- The page's parent is no child of the page.
  find-grandparent : (g : String) → r.parent_id ≡ some g → find g (lifted page rows r) ≡ find g rows
  find-grandparent g above = elim (Option-cases (find g rows)) [
    | inl off ↦ ground (arith, forest page)
    | inr (v, on) ↦ elim (Option-cases v.parent_id) [
      | inl top ↦ ground (arith, find-lifted g)
      | inr (w, up) ↦ ground (arith, find-lifted g, forest g, forest page, eq_iff w page)
    ]
  ]

  joins_at :
      (x g up : String) (s v : PageRow)
      → find x rows ≡ some s
      → s.parent_id ≡ some up
      → up ≡ page
      → r.parent_id ≡ some g
      → find g rows ≡ some v
      → rel (among (child_ids page rows)) (lifted page rows r) g ≡ none
      → joins
          (among (child_ids page rows))
          r.depth
          (lifted page rows r)
          (record s { parent_id = some g })
        ≡ true
  joins_at x g up s v q p e above on apart =
      rw (find-grandparent g above, on, apart)
        (ground (
          arith,
          forest x,
          forest page,
          eq_iff v.workspace_id r.workspace_id,
          eq_iff r.workspace_id s.workspace_id,
          eq_iff v.workspace_id s.workspace_id,
        ))

  child_joins :
      (x : String) (s : PageRow) (up : Option String)
      → find x rows ≡ some s
      → is_child page s ≡ true
      → r.parent_id ≡ up
      → joins
          (among (child_ids page rows))
          r.depth
          (lifted page rows r)
          (record s { parent_id = up })
        ≡ true
  child_joins x s none q child above = ground (arith, forest page)
  child_joins x s (some g) q child above =
      elim (Option-cases (rel (among (child_ids page rows)) (lifted page rows r) g)) [
        | inl apart ↦ elim (Option-cases s.parent_id) [
          | inl top ↦ ground arith
          | inr (up, p) ↦ elim (Option-cases (find g rows)) [
            | inl off ↦ ground (arith, forest page)
            | inr (v, on) ↦ joins_at x g up s v q p (ground (arith, eq_iff up page)) above on apart
          ]
        ]
        | inr (k, reached) ↦ ground (arith, forest page, below_roots g k reached)
      ]

  roots :
      (x : String)
      → among (child_ids page rows) x ≡ true
      → joins_row
          (among (child_ids page rows))
          r.depth
          (lifted page rows r)
          (find x (lifted page rows r))
        ≡ true
  roots x root = elim (Option-cases (find x rows)) [
    | inl q ↦ ground (arith, find-lifted x)
    | inr (s, q) ↦
        let child : is_child page s ≡ true = ground (arith, among-child_ids page x rows unique) in
        rw (find-child x s q child) (child_joins x s r.parent_id q child refl)
  ]

  pub no_child : (x : String) → child_row page (find x (lifted page rows r)) ≡ false
  no_child x = elim (Option-cases (find x rows)) [
    | inl q ↦ ground (arith, find-lifted x)
    | inr (s, q) ↦ elim (Bool-cases (is_child page s)) [
      | inl child ↦ elim (Option-cases r.parent_id) [
        | inl top ↦ ground (arith, find-lifted x)
        | inr (g, above) ↦ ground (arith, find-lifted x, forest page, eq_iff g page)
      ]
      | inr other ↦ ground (arith, find-lifted x)
    ]
  ]

  pub no_child-rebase : (x : String) → child_row page (find x (settled page rows r)) ≡ false
  no_child-rebase x = elim (Option-cases (find x (lifted page rows r))) [
    | inl q ↦
        ground (arith, find-rebase (among (child_ids page rows)) r.depth (lifted page rows r) x)
    | inr (s, q) ↦ elim (Option-cases (rel (among (child_ids page rows)) (lifted page rows r) x)) [
      | inl off ↦ ground (
        arith,
        find-rebase (among (child_ids page rows)) r.depth (lifted page rows r) x,
        no_child x,
      )
      | inr (k, on) ↦ ground (
        arith,
        find-rebase (among (child_ids page rows)) r.depth (lifted page rows r) x,
        no_child x,
      )
    ]
  ]

  pub settled-IsForest : IsForest (settled page rows r)
  settled-IsForest =
      rebase-IsForest (among (child_ids page rows)) r.depth (lifted page rows r) outside roots low
