-- ===== src/Page/Tree.antt =====
-- The recursive queries of internal/page/store.go. `sub` of SQL walks down from the roots; a page has one
-- parent, so it is in `sub` when the walk up from it meets a root, at the same distance. Where rows form a
-- ring, `sub` also holds the row that closes it, one lap down; that row is left out here.
use talyvor_docs.Prelude.{
  ℕ, zero, suc, ◌+◌, String, Bool, true, false, Option, none, some, List, [], ◌∷◌, if◌then◌else◌,
  ltb,
}
use talyvor_docs.Page.{PageRow, find, update_all}

-- Enough steps for every walk: one without a repetition has at most as many as there are rows, and one in
-- a tree at most as many as the depth of its start.
unfoldable pub walk_bound : List PageRow → ℕ
walk_bound [] = 1
walk_bound (r ∷ rows) = 1 + r.depth + walk_bound rows

abbrev pub one_more : Option ℕ → Option ℕ
one_more none = none
one_more (some n) = some (suc n)

abbrev pub parent_of : Option PageRow → Option String
parent_of none = none
parent_of (some r) = r.parent_id

-- The number of steps from the page up to the first root.
unfoldable pub steps_up : ℕ → (String → Bool) → List PageRow → String → Option ℕ
steps_up zero is_root rows page = if is_root page then some 0 else none
steps_up (suc n) is_root rows page =
    if is_root page then some 0 else elim (parent_of (find page rows)) [
      | none ↦ none
      | some up ↦ one_more (steps_up n is_root rows up)
    ]

-- `rel` of the page in `sub`, if it is there
unfoldable pub rel : (String → Bool) → List PageRow → String → Option ℕ
unfolding steps_up walk_bound
rel is_root rows page = steps_up (walk_bound rows) is_root rows page

abbrev pub is_some : {A : Type 0} → Option A → Bool
is_some none = false
is_some (some a) = true

abbrev pub or_zero : Option ℕ → ℕ
or_zero none = 0
or_zero (some n) = n

abbrev pub larger : ℕ → ℕ → ℕ
larger m n = if ltb m n then n else m

-- (SELECT max(rel) FROM sub)
unfoldable pub height : (String → Option ℕ) → List PageRow → ℕ
height sub [] = 0
height sub (r ∷ rows) = larger (or_zero (sub r.id)) (height sub rows)

abbrev pub set_depth : ℕ → Option ℕ → PageRow → PageRow
set_depth base none r = r
set_depth base (some n) r = record r { depth = base + n }

-- UPDATE pages SET depth = $2 + d.rel FROM … WHERE pages.id = d.id
unfoldable pub rebase : (String → Bool) → ℕ → List PageRow → List PageRow
unfolding rel update_all
rebase is_root base rows = update_all (λ r. set_depth base (rel is_root rows r.id) r) rows
