-- ===== src/Page/Forest/Save.antt =====
-- The statements of `Update`, and `Update` itself, on a forest, while no statement fails.
use talyvor_docs.Prelude.{
  ℕ, String, ◌≡◌, refl, Bool, true, false, ◌||◌, Option, none, some, List, [], arith, ◌==◌, eq_iff,
  if◌then◌else◌, Bool-cases, Option-cases, inl, inr, ◌⊎◌,
}
use talyvor_docs.Postgres.Run.{
  Reply, ok, refused, failed, pure, refuse, statement, After, ◌>>=◌, ◌>>◌,
}
use talyvor_docs.Postgres.Run.Calm.{Ensures, calm_bind, after_same}
use talyvor_docs.Page.{PageRow, Tables, PageError, locked, find, update_all, Pages}
use talyvor_docs.Page.Tree.{rebase}
use talyvor_docs.Page.Create.{valid_type, append_version, insert_version}
use talyvor_docs.Page.Update.{
  Guard, Updates, answer, check_guard, move_target, has, update, save, write_page, returning,
  apply_updates, at_page, or_else, rebase_if, rebase_subtree_depth, checked_type, stored_type,
  is_empty, get_by_id, with_depth,
}
use talyvor_docs.Page.Forest.{IsForest}
use talyvor_docs.Page.Forest.Move.{find-at_page, keep-IsForest, move-IsForest}
use talyvor_docs.Page.Forest.Edit.{HasForest, HasReady, move_target-Ready}

-- No row has the id: lookups stay.
missing-IsForest :
    (f : PageRow → PageRow)
    → ((r : PageRow) → (f r).id ≡ r.id)
    → ((r : PageRow) → ((f r).workspace_id ≡ r.workspace_id) × ((f r).depth ≡ r.depth))
    → (page : String) (rows : List PageRow) → find page rows ≡ none
    → IsForest rows
    → IsForest (update_all (at_page page f) rows)
missing-IsForest f same_id same_place page rows gone forest x = elim (Option-cases (find x rows)) [
  | inl q ↦ ground (arith, find-at_page f same_id same_place page rows x)
  | inr (r, q) ↦ elim (Option-cases r.parent_id) [
    | inl top ↦
        ground (arith, find-at_page f same_id same_place page rows x, forest x, eq_iff x page)
    | inr (up, p) ↦ ground (
      arith,
      find-at_page f same_id same_place page rows x,
      find-at_page f same_id same_place page rows up,
      forest x,
      eq_iff x page,
      eq_iff up page,
    )
  ]
]

pub append_version-HasForest :
    (page workspace title content by : String)
    → Ensures HasForest (append_version page workspace title content by) (λ _. HasForest) HasForest
unfolding append_version insert_version statement
append_version-HasForest page workspace title content by t forest = (forest, refl)

module _ (extract : String → String) (page : String) where
  -- The rows are a forest once the subtree has its depths.
  abbrev Settles : Option ℕ → Tables → Type 0
  Settles none t = IsForest t.pages
  Settles (some base) t = IsForest (rebase (λ x. x == page) base t.pages)

  abbrev written : Updates → Option String → Tables → List PageRow
  written u page_type t =
      update_all (at_page page (apply_updates extract u page_type t.clock)) t.pages

  written-Settles :
      (u : Updates) (parent : Option (Option String)) (depth : Option ℕ) (page_type : Option String)
      (t : Tables)
      → u.parent_id ≡ parent
      → HasReady page parent depth t
      → Settles depth (record t { pages = written u page_type t })
  unfolding apply_updates
  written-Settles u none none page_type t e (forest, fits) =
      keep-IsForest (apply_updates extract u page_type t.clock) (λ r. refl) (λ r. (refl, refl)) page
        t.pages (λ r. rw e refl) forest
  written-Settles u none (some base) page_type t e (forest, fits) = ground arith
  written-Settles u (some up) none page_type t e (forest, fits) = elim fits [ ]
  written-Settles u (some up) (some base) page_type t e (forest, (target, low)) =
      move-IsForest (apply_updates extract u page_type t.clock) (λ r. refl) (λ r. (refl, refl)) page
        t.pages up base (λ r. rw e refl) forest target low

  write_page-Settles :
      (u : Updates) (depth : Option ℕ) (page_type : Option String)
      → Ensures
          (HasReady page u.parent_id depth)
          (write_page page (apply_updates extract u page_type))
          (λ _. Settles depth)
          HasForest
  unfolding write_page statement apply_updates
  write_page-Settles u depth page_type t p = (by_row (Option-cases (find page t.pages)), refl)
    where
      by_row :
          ((find page t.pages ≡ none) ⊎ ((r : PageRow) × (find page t.pages ≡ some r)))
          → After {T = Tables} {E = PageError} {A = PageRow}
              (λ _. Settles depth)
              HasForest
              (returning (find page t.pages) (apply_updates extract u page_type t.clock))
              (record t { pages = written u page_type t })
      by_row (inl gone) = rw gone (
          missing-IsForest (apply_updates extract u page_type t.clock) (λ r. refl)
            (λ r. (refl, refl)) page t.pages gone p.0)
      by_row (inr (r, q)) = rw q (written-Settles u u.parent_id depth page_type t refl p)

  rebase_if-HasForest :
      (depth : Option ℕ) → Ensures (Settles depth) (rebase_if page depth) (λ _. HasForest) HasForest
  unfolding rebase_subtree_depth statement
  rebase_if-HasForest none t forest = (forest, refl)
  rebase_if-HasForest (some base) t forest = (forest, refl)

  abbrev with_version : Updates → PageRow → Pages (Unit {0})
  with_version u out =
      if has u.content || has u.title
      then append_version page out.workspace_id out.title out.content (or_else u.updated_by "")
      else pure tt

  with_version-HasForest :
      (u : Updates) (out : PageRow)
      → Ensures HasForest (with_version u out) (λ _. HasForest) HasForest
  with_version-HasForest u out t forest = elim (Bool-cases (has u.content || has u.title)) [
    | inl changed ↦ rw changed (
        append_version-HasForest page out.workspace_id out.title out.content
          (or_else u.updated_by "") t forest)
    | inr same ↦ rw same (forest, refl)
  ]

  save-HasForest :
      (u : Updates) (depth : Option ℕ) (page_type : Option String)
      → Ensures
          (HasReady page u.parent_id depth)
          (save extract page u depth page_type)
          (λ _. HasForest)
          HasForest
  unfolding save
  save-HasForest u depth page_type =
      calm_bind HasForest (HasReady page u.parent_id depth) (λ _. Settles depth) (λ _. HasForest)
        (write_page page (apply_updates extract u page_type))
        (λ out. rebase_if page depth >> (with_version u out >> pure (with_depth depth out)))
        (write_page-Settles u depth page_type)
        (λ out.
          calm_bind HasForest (Settles depth) (λ _. HasForest) (λ _. HasForest)
            (rebase_if page depth) (λ _. with_version u out >> pure (with_depth depth out))
            (rebase_if-HasForest depth)
            (λ _.
              calm_bind HasForest HasForest (λ _. HasForest) (λ _. HasForest) (with_version u out)
                (λ _. pure (with_depth depth out)) (with_version-HasForest u out)
                (λ _ t forest. (forest, refl))))

-- Methods that only read, or refuse.
check_guard-HasForest :
    (guard : Guard) (page member : String) (admin : Bool)
    → Ensures HasForest (check_guard guard page member admin) (λ _. HasForest) HasForest
unfolding check_guard
check_guard-HasForest none page member admin t forest = (forest, refl)
check_guard-HasForest (some g) page member admin t forest = by_reply (g page member admin)
  where
    by_reply :
        (r : Reply PageError (Bool × String))
        → After {T = Tables} {E = PageError} {A = Unit {0}}
            (λ _. HasForest)
            HasForest
            ((answer r >>= λ a. if a.0 then pure tt else refuse (locked a.1)) t []).0
            ((answer r >>= λ a. if a.0 then pure tt else refuse (locked a.1)) t []).1
          × (((answer r >>= λ a. if a.0 then pure tt else refuse (locked a.1)) t []).2 ≡ [])
    by_reply (ok (true, reason)) = (forest, refl)
    by_reply (ok (false, reason)) = (forest, refl)
    by_reply (refused e) = (forest, refl)
    by_reply failed = (forest, refl)

get_by_id-HasForest :
    (page : String) → Ensures HasForest (get_by_id page) (λ _. HasForest) HasForest
unfolding get_by_id statement
get_by_id-HasForest page t forest = elim (Option-cases (find page t.pages)) [
  | inl q ↦ rw q (forest, refl)
  | inr (r, q) ↦ rw q (forest, refl)
]

stored_type-HasReady :
    (page : String) (parent : Option (Option String)) (depth : Option ℕ) (v : String)
    (page_type : Option String)
    → Ensures
        (HasReady page parent depth)
        (stored_type v page_type)
        (λ _. HasReady page parent depth)
        HasForest
stored_type-HasReady page parent depth v none t p = (p.0, refl)
stored_type-HasReady page parent depth v (some page_type) t p = (p, refl)

checked_type-HasReady :
    (page : String) (parent : Option (Option String)) (depth : Option ℕ) (v : Option String)
    → Ensures
        (HasReady page parent depth)
        (checked_type v)
        (λ _. HasReady page parent depth)
        HasForest
checked_type-HasReady page parent depth none t p = (p, refl)
checked_type-HasReady page parent depth (some v) t p =
    stored_type-HasReady page parent depth v (valid_type v) t p

module _ (extract : String → String) (guard : Guard) (page : String) (u : Updates) where
  abbrev last_steps : Option ℕ → Option String → Pages PageRow
  last_steps depth page_type =
      if is_empty u then get_by_id page else save extract page u depth page_type

  last_steps-HasForest :
      (depth : Option ℕ) (page_type : Option String)
      → Ensures
          (HasReady page u.parent_id depth)
          (last_steps depth page_type)
          (λ _. HasForest)
          HasForest
  last_steps-HasForest depth page_type t p = elim (Bool-cases (is_empty u)) [
    | inl empty ↦ rw empty (get_by_id-HasForest page t p.0)
    | inr other ↦ rw other (save-HasForest extract page u depth page_type t p)
  ]

  update-HasForest : Ensures HasForest (update extract guard page u) (λ _. HasForest) HasForest
  unfolding update
  update-HasForest =
      calm_bind HasForest HasForest (λ _. HasForest) (λ _. HasForest)
        (check_guard guard page (or_else u.updated_by "") u.is_admin)
        (λ _.
          move_target page u.parent_id >>= λ depth. checked_type u.page_type >>= last_steps depth)
        (check_guard-HasForest guard page (or_else u.updated_by "") u.is_admin)
        (λ _.
          calm_bind HasForest HasForest (HasReady page u.parent_id) (λ _. HasForest)
            (move_target page u.parent_id) (λ depth. checked_type u.page_type >>= last_steps depth)
            (move_target-Ready page u.parent_id)
            (λ depth.
              calm_bind HasForest (HasReady page u.parent_id depth)
                (λ _. HasReady page u.parent_id depth) (λ _. HasForest) (checked_type u.page_type)
                (last_steps depth) (checked_type-HasReady page u.parent_id depth u.page_type)
                (last_steps-HasForest depth)))

  -- `Update`, none of whose statements fails, keeps the forest of pages: a page without a parent stands at
  -- depth 0, another one stands one below its parent, in the parent's workspace, and no page is deeper
  -- than 5. This holds for a refused call as well.
  pub update-IsForest :
      (t : Tables) → IsForest t.pages → IsForest (update extract guard page u t []).1.pages
  update-IsForest t forest =
      after_same HasForest (update extract guard page u t []).0 (update extract guard page u t []).1
        (update-HasForest t forest).0
