-- ===== src/Export/Children.antt =====
-- internal/export/exporter.go: the pages of an export. A `none` means that the fuel of the loop over the batches
-- ran out.
use talyvor_docs.Prelude.{
  ℕ, zero, suc, ◌+◌, ◌*◌, ◌<◌, String, ◌≡◌, refl, sym, ap, ◌∙◌, Bool, true, false, not, ◌&&◌,
  Option, none, some, List, [], ◌∷◌, ◌++◌, arith, ◌==◌, if◌then◌else◌, Bool-cases, Option-cases,
  eq_iff, inl, inr, ltb, ltb→lt, length, length-drop, ◌≤◌, take, drop, All, select as filter,
}
use mathlib.Core.List.{append-nil}
use talyvor_docs.Prelude.Sort.{sort_by, All-sort_by}
use talyvor_docs.Postgres.Tables.{among}
use talyvor_docs.Postgres.Run.{
  Reply, ok, refused, failed, pure, ◌>>=◌, statement, select, After, Ensures, ensure_bind,
  ensure_statement,
}
use talyvor_docs.Page.{find, PageRow, Tables, Pages, PageError}
use talyvor_docs.Page.Listing.{PageFilter, list, listed, page_limit}
use talyvor_docs.Page.History.{scoped, get_by_id_in_workspaces}

-- `childBatch`
unfoldable pub child_batch : ℕ
child_batch = 500

-- The rows that `seen` does not hold, each id once.
unfoldable pub once : List String → List PageRow → List PageRow
unfolding among
once seen [] = []
once seen (p ∷ rows) =
    let old = once seen rows in
    let new = p ∷ once (p.id ∷ seen) rows in if among seen p.id then old else new

unfoldable pub seen_after : List String → List PageRow → List String
unfolding among
seen_after seen [] = seen
seen_after seen (p ∷ rows) =
    let old = seen_after seen rows in
    let new = seen_after (p.id ∷ seen) rows in if among seen p.id then old else new

abbrev pub batch_of : PageRow → ℕ → PageFilter
batch_of root offset = record {
  space_id = root.space_id;
  parent_id = some root.id;
  limit = child_batch;
  offset = offset;
}

abbrev pub then_more : List PageRow → Option (List PageRow) → Option (List PageRow)
then_more rows none = none
then_more rows (some more) = some (rows ++ more)

-- `listChildren`, from a batch on
unfoldable pub list_children : ℕ → PageRow → List String → ℕ → Pages (Option (List PageRow))
list_children zero root seen offset = pure none
list_children (suc fuel) root seen offset = do
  batch ← list (batch_of root offset)
  more ←
      (let rest = list_children fuel root (seen_after seen batch) (offset + child_batch) in
        if ltb (length batch) child_batch then pure (some []) else rest)
  pure (then_more (once seen batch) more)

abbrev pub is_child : PageRow → PageRow → Bool
is_child root p = elim p.parent_id [ none ↦ false | some up ↦ up == root.id ]

abbrev pub stands_before : PageRow → PageRow → Bool
stands_before a b = ltb a.position b.position

module _ (can_view : String → Bool) where
  abbrev pub is_exported : PageRow → PageRow → Bool
  is_exported root p =
      not (p.id == root.id)
      && (p.workspace_id == root.workspace_id)
      && is_child root p
      && can_view p.id

  abbrev pub with_children : PageRow → Option (List PageRow) → Option (List PageRow)
  with_children root none = none
  with_children root (some siblings) =
      some (root ∷ sort_by stands_before (filter (is_exported root) siblings))

  -- `gatherPages`, with a gate
  unfoldable pub gather_pages : ℕ → String → List String → Bool → Pages (Option (List PageRow))
  unfolding get_by_id_in_workspaces list_children
  gather_pages fuel page workspaces children = do
    root ← get_by_id_in_workspaces page workspaces
    if children
        then (list_children fuel root [] 0 >>= λ siblings. pure (with_children root siblings))
        else pure (some (root ∷ []))

once-append :
    (seen : List String) (xs ys : List PageRow)
    → once seen (xs ++ ys) ≡ once seen xs ++ once (seen_after seen xs) ys
unfolding once seen_after
once-append seen [] ys = refl
once-append seen (p ∷ xs) ys = elim (Bool-cases (among seen p.id)) [
  | inl old ↦ rw old (once-append seen xs ys)
  | inr new ↦ rw new (ap (λ rows. p ∷ rows) (once-append (p.id ∷ seen) xs ys))
]

module _ {ℓ} {A : Type ℓ} where
  take-drop : (n : ℕ) (xs : List A) → take n xs ++ drop n xs ≡ xs
  take-drop zero xs = refl
  take-drop (suc n) [] = refl
  take-drop (suc n) (x ∷ xs) = ap (λ ys. x ∷ ys) (take-drop n xs)

  drop-nil : (n : ℕ) → let none_left : List A = [] in drop n none_left ≡ none_left
  drop-nil zero = refl
  drop-nil (suc n) = refl

  drop-drop : (m n : ℕ) (xs : List A) → drop n (drop m xs) ≡ drop (m + n) xs
  drop-drop zero n xs = ap (λ k. drop k xs) (omega arith)
  drop-drop (suc m) n [] = drop-nil n ∙ sym (drop-nil (suc m + n))
  drop-drop (suc m) n (x ∷ xs) =
      let e : suc m + n ≡ suc (m + n) = omega arith in
      drop-drop m n xs ∙ sym (ap (λ k. drop k (x ∷ xs)) e)

  take_short : (n : ℕ) (xs : List A) → length (take n xs) < n → (take n xs ≡ xs) × (length xs < n)
  take_short zero xs h = absurd (omega arith)
  take_short (suc n) [] h = (refl, omega arith)
  take_short (suc n) (x ∷ xs) h =
      let (same, less) = take_short n xs (omega arith) in (ap (λ ys. x ∷ ys) same, omega arith)

  length-take-le : (n : ℕ) (xs : List A) → length (take n xs) ≤ length xs
  length-take-le zero xs = omega arith
  length-take-le (suc n) [] = omega arith
  length-take-le (suc n) (x ∷ xs) = omega (arith, length-take-le n xs)

module _ (root : PageRow) (t : Tables) where
  -- The direct children of the root, in the order of the listing.
  abbrev pub children : List PageRow
  children = listed root.space_id (some root.id) t.pages

  child_limit : page_limit child_batch ≡ child_batch
  unfolding page_limit child_batch
  child_limit = refl

  step_full : (fuel : ℕ) → suc fuel * child_batch ≡ fuel * child_batch + child_batch
  unfolding child_batch
  step_full fuel = omega arith

  reaches : (n : ℕ) → ltb n child_batch ≡ false → child_batch ≤ n
  reaches n h = ground arith

  list_batch :
      (offset : ℕ)
      → list (batch_of root offset) t [] ≡ (ok (take child_batch (drop offset children)), t, [])
  unfolding list select statement
  list_batch offset = rw child_limit refl

  list_children_all :
      (fuel : ℕ) (seen : List String) (offset : ℕ)
      → length (drop offset children) < fuel * child_batch
      → list_children fuel root seen offset t []
        ≡ (ok (some (once seen (drop offset children))), t, [])
  unfolding list_children
  list_children_all zero seen offset h = absurd (omega arith)
  list_children_all (suc fuel) seen offset h =
      let ys : List PageRow = drop offset children in
      elim (Bool-cases (ltb (length (take child_batch ys)) child_batch)) [
        | inl short ↦
            let (whole, _) = take_short child_batch ys (ltb→lt _ _ short) in
            rw (list_batch offset, short, append-nil (once seen (take child_batch ys)), whole) refl
        | inr full ↦
            let later : drop (offset + child_batch) children ≡ drop child_batch ys =
              sym (drop-drop offset child_batch children) in
            let fewer : length (drop (offset + child_batch) children) < fuel * child_batch =
              rw later (
                omega (
                  arith,
                  length-drop child_batch ys,
                  length-take-le child_batch ys,
                  h,
                  step_full fuel,
                  reaches (length (take child_batch ys)) full,
                )) in
            rw
              (
                list_batch offset,
                full,
                list_children_all fuel (seen_after seen (take child_batch ys))
                    (offset + child_batch) fewer,
                later,
              )
              (ap (λ rows. (ok (some rows), t, []))
                (sym (once-append seen (take child_batch ys) (drop child_batch ys))
                  ∙ ap (once seen) (take-drop child_batch ys)))
      ]

pub gather_pages_all :
    (can_view : String → Bool) (fuel : ℕ) (page : String) (workspaces : List String)
    (root : PageRow) (t : Tables)
    → find page t.pages ≡ some root
    → among workspaces root.workspace_id ≡ true
    → length (children root t) < fuel * child_batch
    → gather_pages can_view fuel page workspaces true t [] ≡ (
      ok (
          some (
            root
            ∷ sort_by stands_before
                (filter (is_exported can_view root) (once [] (children root t))))),
      t,
      [],
    )
unfolding gather_pages get_by_id_in_workspaces select statement
gather_pages_all can_view fuel page workspaces root t found mine enough =
    rw (found, mine, list_children_all root t fuel [] 0 enough) refl

-- What the pages of an export are, to the caller.
module _ (can_view : String → Bool) (workspaces : List String) where
  abbrev pub Shown : PageRow → PageRow → Type 0
  Shown root p =
      (can_view p.id ≡ true) × (p.workspace_id ≡ root.workspace_id) × (p.parent_id ≡ some root.id)

  abbrev pub Visible : Option (List PageRow) → Type 0
  Visible none = Unit
  Visible (some []) = ⊥
  Visible (some (root ∷ rest)) = (among workspaces root.workspace_id ≡ true) × All (Shown root) rest

  is_exported-Shown : (root p : PageRow) → is_exported can_view root p ≡ true → Shown root p
  is_exported-Shown root p h = elim (Option-cases p.parent_id) [
    | inl top ↦ absurd (ground (arith, h, top))
    | inr (up, below) ↦
        ground (arith, h, below, eq_iff up root.id, eq_iff p.workspace_id root.workspace_id)
  ]

  filter-Shown :
      (root : PageRow) (rows : List PageRow)
      → All (Shown root) (filter (is_exported can_view root) rows)
  unfolding filter
  filter-Shown root [] = tt
  filter-Shown root (p ∷ rows) = elim (Bool-cases (is_exported can_view root p)) [
    | inl shown ↦ rw shown (is_exported-Shown root p shown, filter-Shown root rows)
    | inr left ↦ rw left (filter-Shown root rows)
  ]

  with_children-Visible :
      (root : PageRow) (siblings : Option (List PageRow))
      → among workspaces root.workspace_id ≡ true
      → Visible (with_children can_view root siblings)
  with_children-Visible root none mine = tt
  with_children-Visible root (some rows) mine =
      (mine, All-sort_by stands_before (Shown root) _ (filter-Shown root rows))

  abbrev Mine : PageRow → Type 0
  Mine root = among workspaces root.workspace_id ≡ true

  -- A fact that does not read the tables, beside a value.
  beside_value :
      {A : Type 0} (fact : Type 0) (r : Reply PageError A) (t : Tables)
      → fact
      → After (λ _ _. fact) (λ _. Unit) r t
  beside_value fact (ok a) t h = h
  beside_value fact (refused e) t h = tt
  beside_value fact failed t h = tt

  scoped-Mine :
      (row : Option PageRow)
      → Ensures (λ _. Unit) (scoped workspaces row) (λ r _. Mine r) (λ _. Unit)
  scoped-Mine none t down _ = tt
  scoped-Mine (some r) t down _ = elim (Bool-cases (among workspaces r.workspace_id)) [
    | inl mine ↦ rw mine mine
    | inr other ↦ rw other tt
  ]

  get_by_id-Mine :
      (page : String)
      → Ensures (λ _. Unit) (get_by_id_in_workspaces page workspaces) (λ r _. Mine r) (λ _. Unit)
  unfolding get_by_id_in_workspaces select
  get_by_id-Mine page =
      ensure_bind (λ _. Unit) (λ _. Unit) (λ _ _. Unit) (λ r _. Mine r) _ (scoped workspaces)
        (ensure_statement (λ _. Unit) (λ _. Unit) (λ _ _. Unit) (λ s. (ok (find page s.pages), s))
          (λ _ _. tt) (λ _ _. tt))
        scoped-Mine

  below-Visible :
      (fuel : ℕ) (root : PageRow) (with_below : Bool)
      → Ensures
          (λ _. Mine root)
          (if with_below
            then (list_children fuel root [] 0 >>= λ rows. pure (with_children can_view root rows))
            else pure (some (root ∷ [])))
          (λ rows _. Visible rows)
          (λ _. Unit)
  below-Visible fuel root false = λ t down mine. (mine, tt)
  below-Visible fuel root true =
      ensure_bind (λ _. Unit) (λ _. Mine root) (λ _ _. Mine root) (λ rows _. Visible rows)
        (list_children fuel root [] 0) (λ rows. pure (with_children can_view root rows))
        (λ t down mine.
          beside_value (Mine root) (list_children fuel root [] 0 t down).0
            (list_children fuel root [] 0 t down).1 mine)
        (λ rows t down mine. with_children-Visible root rows mine)

  -- Whatever statements fail: what an export shows is a page of the caller's workspaces, and below it only its own
  -- children, in its workspace, each of which the caller may view.
  pub gather_pages-Visible :
      (fuel : ℕ) (page : String) (with_below : Bool) (t : Tables) (down : List Bool)
      → After
          (λ rows _. Visible rows)
          (λ _. Unit)
          (gather_pages can_view fuel page workspaces with_below t down).0
          (gather_pages can_view fuel page workspaces with_below t down).1
  unfolding gather_pages
  gather_pages-Visible fuel page with_below t down =
      ensure_bind (λ _. Unit) (λ _. Unit) (λ root _. Mine root) (λ rows _. Visible rows)
        (get_by_id_in_workspaces page workspaces) _ (get_by_id-Mine page)
        (λ root. below-Visible fuel root with_below) t down tt
