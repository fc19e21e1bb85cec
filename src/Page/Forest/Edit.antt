-- ===== src/Page/Forest/Edit.antt =====
-- `Update` keeps the forest, while no statement fails.
use talyvor_docs.Prelude.{
  ℕ, ◌+◌, String, ◌≡◌, refl, Bool, true, false, not, Option, none, some, List, arith, ◌==◌, ltb,
  Option-cases, inl, inr,
}
use talyvor_docs.Postgres.Run.{pure, ◌>>=◌}
use talyvor_docs.Postgres.Run.Calm.{Ensures, calm_bind, calm_guard}
use talyvor_docs.Page.{
  PageRow, Tables, parent_not_found, parent_cycle, max_depth, max_depth_limit, find,
}
use talyvor_docs.Page.Tree.{rel, height, is_some}
use talyvor_docs.Page.Update.{
  parent_checks, depth_checks, measured_target, apart_target, answered_target, move_target,
  same_workspace, depth_of, has,
}
use talyvor_docs.Page.Forest.{IsForest}
use talyvor_docs.Page.Forest.Walk.{rel-depth}
use talyvor_docs.Page.Forest.Rebase.{joins, fits}
use talyvor_docs.Page.Forest.Move.{rel-le-height}

abbrev pub HasForest : Tables → Type 0
HasForest t = IsForest t.pages

module _ (page : String) where
  -- The depth that the checks of a parent give is one with which the page can be moved there.
  abbrev pub CanMove : Option String → ℕ → List PageRow → Type 0
  CanMove up base rows =
      ((r : PageRow)
        → find page rows ≡ some r
        → joins (λ x. x == page) base rows (record r { parent_id = up }) ≡ true)
      × ((x : String) → has (find x rows) ≡ true → fits base (rel (λ x. x == page) rows x) ≡ true)

  abbrev pub Ready : Option (Option String) → Option ℕ → List PageRow → Type 0
  Ready none depth rows = depth ≡ none
  Ready (some up) none rows = ⊥
  Ready (some up) (some base) rows = CanMove up base rows

  abbrev pub HasReady : Option (Option String) → Option ℕ → Tables → Type 0
  HasReady parent depth t = HasForest t × Ready parent depth t.pages

  to_top : (rows : List PageRow) → IsForest rows → CanMove none 0 rows
  to_top rows forest = (λ r q. refl, low)
    where
      low : (x : String) → has (find x rows) ≡ true → fits 0 (rel (λ y. y == page) rows x) ≡ true
      low x there = elim (Option-cases (rel (λ y. y == page) rows x)) [
        | inl off ↦ ground arith
        | inr (k, on) ↦ elim (Option-cases (find x rows)) [
          | inl gone ↦ ground arith
          | inr (r, q) ↦ ground (
            arith,
            forest x,
            rel-depth (λ y. y == page) rows (λ y other. forest y) 0 x k (λ y root. omega arith) on,
          )
        ]
      ]

  below_parent :
      (rows : List PageRow) (up : String)
      → IsForest rows
      → same_workspace (find up rows) (find page rows) ≡ true
      → is_some (rel (λ x. x == page) rows up) ≡ false
      → ltb max_depth_limit (depth_of (find up rows) + 1 + height (rel (λ x. x == page) rows) rows)
        ≡ false
      → CanMove (some up) (depth_of (find up rows) + 1) rows
  below_parent rows up forest same apart shallow = (target, low)
    where
      target :
          (r : PageRow)
          → find page rows ≡ some r
          → joins
              (λ y. y == page)
              (depth_of (find up rows) + 1)
              rows
              (record r { parent_id = some up })
            ≡ true
      target r q = elim (Option-cases (find up rows)) [
        | inl off ↦ ground arith
        | inr (s, on) ↦ ground arith
      ]

      low :
          (x : String)
          → has (find x rows) ≡ true
          → fits (depth_of (find up rows) + 1) (rel (λ y. y == page) rows x) ≡ true
      low x there = elim (Option-cases (rel (λ y. y == page) rows x)) [
        | inl off ↦ ground arith
        | inr (k, on) ↦ elim (Option-cases (find x rows)) [
          | inl gone ↦ ground arith
          | inr (r, q) ↦ ground (arith, rel-le-height (rel (λ y. y == page) rows) x rows r k q on)
        ]
      ]

  -- What the two queries on a new parent answer.
  abbrev Answered : String → Bool × Bool → Tables → Type 0
  Answered up a t =
      HasForest t
      × (a.0 ≡ same_workspace (find up t.pages) (find page t.pages))
      × (a.1 ≡ is_some (rel (λ x. x == page) t.pages up))

  abbrev Measured : String → ℕ × ℕ → Tables → Type 0
  Measured up b t =
      HasForest t
      × (same_workspace (find up t.pages) (find page t.pages) ≡ true)
      × (is_some (rel (λ x. x == page) t.pages up) ≡ false)
      × (b.0 ≡ depth_of (find up t.pages))
      × (b.1 ≡ height (rel (λ x. x == page) t.pages) t.pages)

  parent_checks-ready :
      (up : String) → Ensures HasForest (parent_checks page up) (Answered up) HasForest
  unfolding parent_checks
  parent_checks-ready up t forest = ((forest, refl, refl), refl)

  depth_checks-ready :
      (up : String) (a : Bool × Bool)
      → not a.0 ≡ false
      → a.1 ≡ false
      → Ensures (Answered up a) (depth_checks page up) (Measured up) HasForest
  unfolding depth_checks
  depth_checks-ready up a same apart t (forest, answer_same, answer_apart) = (
    (forest, ground (arith, answer_same, same), ground (arith, answer_apart, apart), refl, refl),
    refl,
  )

  measured-CanMove :
      (up : String) (b : ℕ × ℕ) (t : Tables)
      → Measured up b t
      → ltb max_depth_limit (b.0 + 1 + b.1) ≡ false
      → CanMove (some up) (b.0 + 1) t.pages
  measured-CanMove up b t (forest, same, apart, depth, below) shallow =
      rw depth (below_parent t.pages up forest same apart (ground arith))

  measured_target-Ready :
      (up : String) (b : ℕ × ℕ)
      → Ensures (Measured up b) (measured_target b) (HasReady (some (some up))) HasForest
  measured_target-Ready up b =
      calm_guard HasForest (Measured up b) (HasReady (some (some up)))
        (ltb max_depth_limit (b.0 + 1 + b.1)) max_depth (pure (some (b.0 + 1))) (λ t p. p.0)
        (λ shallow t p. ((p.0, measured-CanMove up b t p shallow), refl))

  apart_target-Ready :
      (up : String) (a : Bool × Bool)
      → not a.0 ≡ false
      → Ensures (Answered up a) (apart_target page up a) (HasReady (some (some up))) HasForest
  apart_target-Ready up a same =
      calm_guard HasForest (Answered up a) (HasReady (some (some up))) a.1 parent_cycle
        (depth_checks page up >>= measured_target) (λ t p. p.0)
        (λ apart.
          calm_bind HasForest (Answered up a) (Measured up) (HasReady (some (some up)))
            (depth_checks page up) measured_target (depth_checks-ready up a same apart)
            (measured_target-Ready up))

  move_below-Ready :
      (up : String)
      → Ensures HasForest (move_target page (some (some up))) (HasReady (some (some up))) HasForest
  unfolding move_target
  move_below-Ready up =
      calm_bind HasForest HasForest (Answered up) (HasReady (some (some up)))
        (parent_checks page up) (answered_target page up) (parent_checks-ready up)
        (λ a.
          calm_guard HasForest (Answered up a) (HasReady (some (some up))) (not a.0)
            parent_not_found (apart_target page up a) (λ t p. p.0) (apart_target-Ready up a))

  pub move_target-Ready :
      (parent : Option (Option String))
      → Ensures HasForest (move_target page parent) (HasReady parent) HasForest
  unfolding move_target
  move_target-Ready none = λ t forest. ((forest, refl), refl)
  move_target-Ready (some none) = λ t forest. ((forest, to_top t.pages forest), refl)
  move_target-Ready (some (some up)) = move_below-Ready up
