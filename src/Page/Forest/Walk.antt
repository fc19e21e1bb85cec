-- ===== src/Page/Forest/Walk.antt =====
-- The walk up from a page does not depend on its bound.
use talyvor_docs.Prelude.{
  ℕ, zero, suc, ◌+◌, ◌-◌, ◌≤◌, String, ◌≡◌, Bool, true, false, Option, none, some, List, arith,
  if◌then◌else◌, Bool-cases, Option-cases, inl, inr, ◌⊎◌,
}
use talyvor_docs.Page.{PageRow, find}
use talyvor_docs.Page.Tree.{steps_up, rel, one_more, parent_of, walk_bound}
use talyvor_docs.Page.Update.{depth_of}
use talyvor_docs.Page.Forest.{sound_at, depth-lt-walk_bound}

-- The pages that are no roots are placed.
module _ (is_root : String → Bool) (rows : List PageRow)
    (outside : (page : String) → is_root page ≡ false → sound_at rows (find page rows) ≡ true) where
  steps_up-suc :
      (n : ℕ) (page : String)
      → depth_of (find page rows) ≤ n
      → steps_up n is_root rows page ≡ steps_up (suc n) is_root rows page
  unfolding steps_up
  steps_up-suc zero page low = elim (Bool-cases (is_root page)) [
    | inl root ↦ ground arith
    | inr other ↦ ground (arith, outside page other)
  ]
  steps_up-suc (suc n) page low = elim (Bool-cases (is_root page)) [
    | inl root ↦ ground arith
    | inr other ↦ elim (Option-cases (parent_of (find page rows))) [
      | inl top ↦ ground arith
      | inr (up, q) ↦ ground (arith, outside page other, steps_up-suc n up)
    ]
  ]

  abbrev step_up : Option String → Option ℕ
  step_up none = none
  step_up (some up) = one_more (rel is_root rows up)

  -- `rel` by the rows alone.
  rel_bound :
      (n : ℕ) (page : String)
      → walk_bound rows ≡ suc n
      → rel is_root rows page
        ≡ (if is_root page then some 0 else step_up (parent_of (find page rows)))
  unfolding rel
  rel_bound n page e =
      rw e (rel_at (Bool-cases (is_root page)) (Option-cases (parent_of (find page rows))))
    where
      rel_at :
          ((is_root page ≡ true) ⊎ (is_root page ≡ false))
          → ((parent_of (find page rows) ≡ none)
              ⊎ ((up : String) × (parent_of (find page rows) ≡ some up)))
          → steps_up (suc n) is_root rows page
            ≡ (if is_root page then some 0 else step_up (parent_of (find page rows)))
      rel_at (inl root) c = ground arith
      rel_at (inr other) (inl top) = ground arith
      rel_at (inr other) (inr (up, q)) =
          ground (arith, e, steps_up-suc n up, depth-lt-walk_bound up rows)

  pub rel-cases :
      (page : String)
      → rel is_root rows page
        ≡ (if is_root page then some 0 else step_up (parent_of (find page rows)))
  rel-cases page =
      rel_bound (walk_bound rows - 1) page (ground (arith, depth-lt-walk_bound page rows))

  -- A page that is reached from a root stands as much deeper than the lowest root.
  steps_up-depth :
      (lowest n : ℕ) (page : String) (k : ℕ)
      → ((root : String) → is_root root ≡ true → lowest ≤ depth_of (find root rows))
      → steps_up n is_root rows page ≡ some k
      → lowest + k ≤ depth_of (find page rows)
  unfolding steps_up
  steps_up-depth lowest zero page k roots reached = ground (arith, roots page)
  steps_up-depth lowest (suc n) page k roots reached = elim (Bool-cases (is_root page)) [
    | inl root ↦ ground (arith, roots page)
    | inr other ↦ elim (Option-cases (parent_of (find page rows))) [
      | inl top ↦ ground arith
      | inr (up, q) ↦ elim (Option-cases (steps_up n is_root rows up)) [
        | inl off ↦ ground arith
        | inr (m, on) ↦ ground (arith, outside page other, steps_up-depth lowest n up m roots on)
      ]
    ]
  ]

  pub rel-depth :
      (lowest : ℕ) (page : String) (k : ℕ)
      → ((root : String) → is_root root ≡ true → lowest ≤ depth_of (find root rows))
      → rel is_root rows page ≡ some k
      → lowest + k ≤ depth_of (find page rows)
  unfolding rel
  rel-depth lowest page k roots reached =
      steps_up-depth lowest (walk_bound rows) page k roots reached
