-- ===== src/Page/Forest/Insert.antt =====
-- `Create` on a forest, while no statement fails.
use Prim.Native.String.{◌++◌ as concat}
use talyvor_docs.Prelude.{
  ℕ, zero, suc, ◌+◌, String, ◌≡◌, refl, true, ◌||◌, Option, none, some, List, [], ◌∷◌, arith, ◌==◌,
  eq_iff, eqb, ltb, Bool-cases, Option-cases, inl, inr,
}
use talyvor_docs.Postgres.Run.{pure, statement, select, After, ◌>>=◌, ◌>>◌}
use talyvor_docs.Postgres.Run.Calm.{Ensures, calm_bind, after_same}
use talyvor_docs.Page.{PageRow, Tables, PageError, find, Pages, max_depth_limit}
use talyvor_docs.Page.Tree.{is_some}
use talyvor_docs.Page.Create.{
  create, place, place_below, depth_below, with_defaults, insert_loop, insert_page, slug_used,
  append_version, valid_type, digit, typed_create,
}
use talyvor_docs.Page.Forest.{IsForest, sound_at, placed}
use talyvor_docs.Page.Forest.Edit.{HasForest}
use talyvor_docs.Page.Forest.Save.{append_version-HasForest}

insert-IsForest :
    (r : PageRow) (rows : List PageRow)
    → IsForest rows
    → find r.id rows ≡ none
    → sound_at rows (some r) ≡ true
    → IsForest (r ∷ rows)
unfolding find
insert-IsForest r rows forest fresh sound x = elim (Bool-cases (r.id == x)) [
  | inl same ↦ elim (Option-cases r.parent_id) [
    | inl top ↦ ground arith
    | inr (up, p) ↦ ground (arith, eq_iff r.id up)
  ]
  | inr other ↦ elim (Option-cases (find x rows)) [
    | inl q ↦ ground arith
    | inr (s, q) ↦ elim (Option-cases s.parent_id) [
      | inl top ↦ ground (arith, forest x)
      | inr (up, p) ↦ ground (arith, forest x, eq_iff r.id up)
    ]
  ]
]

-- The row can be added below its parent.
abbrev Fits : PageRow → Tables → Type 0
Fits r t = IsForest t.pages × (find r.id t.pages ≡ none) × (sound_at t.pages (some r) ≡ true)

insert_page-HasForest : (r : PageRow) → Ensures (Fits r) (insert_page r) (λ _. HasForest) HasForest
unfolding insert_page statement
insert_page-HasForest r t (forest, fresh, sound) =
    elim (Bool-cases (slug_used r.space_id r.slug t.pages)) [
      | inl used ↦ rw used (forest, refl)
      | inr free ↦ rw free (insert-IsForest r t.pages forest fresh sound, refl)
    ]

-- A try that finds its slug taken writes nothing.
insert_loop-HasForest :
    (left attempt : ℕ) (base : String) (r : PageRow)
    → Ensures (Fits r) (insert_loop left attempt base r) (λ _. HasForest) HasForest
unfolding insert_loop insert_page statement
insert_loop-HasForest zero attempt base r t fits = insert_page-HasForest r t fits
insert_loop-HasForest (suc left) attempt base r t (forest, fresh, sound) =
    elim (Bool-cases (slug_used r.space_id r.slug t.pages)) [
      | inl used ↦ rw used (
          insert_loop-HasForest left (suc attempt) base
            (record r { slug = concat base (concat "-" (digit (suc attempt))) }) t
            (forest, fresh, sound))
      | inr free ↦ rw free (insert-IsForest r t.pages forest fresh sound, refl)
    ]

-- What `Create` asks of the row: its id is new, and at the top it has depth 0.
abbrev Fresh : PageRow → Tables → Type 0
Fresh r t =
    IsForest t.pages × (find r.id t.pages ≡ none) × ((is_some r.parent_id || eqb r.depth 0) ≡ true)

depth_below-Fits :
    (p : PageRow) (up : String) (t : Tables) (row : Option PageRow)
    → Fresh p t
    → p.parent_id ≡ some up
    → find up t.pages ≡ row
    → After {E = PageError} Fits HasForest (depth_below p row t []).0 (depth_below p row t []).1
      × ((depth_below p row t []).2 ≡ [])
depth_below-Fits p up t none (forest, fresh, top) q e = (forest, refl)
depth_below-Fits p up t (some r) (forest, fresh, top) q e =
    elim (Bool-cases (r.workspace_id == p.workspace_id)) [
      | inr apart ↦ rw apart (forest, refl)
      | inl same ↦ rw same (elim (Bool-cases (ltb max_depth_limit (r.depth + 1))) [
        | inl deep ↦ rw deep (forest, refl)
        | inr shallow ↦ rw shallow ((forest, fresh, ground arith), refl)
      ])
    ]

place_below-Fits :
    (p : PageRow) (up : Option String)
    → p.parent_id ≡ up
    → Ensures (Fresh p) (place_below p up) Fits HasForest
unfolding place_below select statement
place_below-Fits p none q t (forest, fresh, top) = ((forest, fresh, ground arith), refl)
place_below-Fits p (some up) q t fresh = depth_below-Fits p up t (find up t.pages) fresh q refl

module _ (extract slugify : String → String) (p : PageRow) where
  abbrev inserted : PageRow → Pages PageRow
  inserted placed = do
    out ← insert_loop 4 1 placed.slug placed
    append_version out.id out.workspace_id out.title out.content p.created_by
    pure out

  inserted-HasForest :
      (placed : PageRow) → Ensures (Fits placed) (inserted placed) (λ _. HasForest) HasForest
  inserted-HasForest placed =
      calm_bind HasForest (Fits placed) (λ _. HasForest) (λ _. HasForest)
        (insert_loop 4 1 placed.slug placed)
        (λ out.
          append_version out.id out.workspace_id out.title out.content p.created_by >> pure out)
        (insert_loop-HasForest 4 1 placed.slug placed)
        (λ out.
          calm_bind HasForest HasForest (λ _. HasForest) (λ _. HasForest)
            (append_version out.id out.workspace_id out.title out.content p.created_by)
            (λ _. pure out)
            (append_version-HasForest out.id out.workspace_id out.title out.content p.created_by)
            (λ _ t forest. (forest, refl)))

  typed-HasForest :
      (page_type : Option String)
      → Ensures (Fresh p) (typed_create extract slugify p page_type) (λ _. HasForest) HasForest
  unfolding with_defaults typed_create
  typed-HasForest none t fresh = (fresh.0, refl)
  typed-HasForest (some page_type) t fresh =
      calm_bind HasForest (Fresh p) Fits (λ _. HasForest)
        (place (with_defaults extract slugify page_type p)) inserted
        (λ t fresh.
          place_below-Fits (with_defaults extract slugify page_type p) p.parent_id refl t fresh)
        inserted-HasForest t fresh

  -- `Create`, none of whose statements fails, keeps the forest of pages. The row has a new id, and either a
  -- parent or the depth 0: the code stores the depth that it is given for a page without a parent.
  pub create-IsForest :
      (t : Tables)
      → find p.id t.pages ≡ none
      → (is_some p.parent_id || eqb p.depth 0) ≡ true
      → IsForest t.pages
      → IsForest (create extract slugify p t []).1.pages
  unfolding create
  create-IsForest t fresh top forest =
      elim (Bool-cases (p.space_id == "" || p.workspace_id == "")) [
        | inl missing ↦ rw missing forest
        | inr given ↦ rw given (
            after_same HasForest (typed_create extract slugify p (valid_type p.page_type) t []).0
              (typed_create extract slugify p (valid_type p.page_type) t []).1
              (typed-HasForest (valid_type p.page_type) t (forest, fresh, top)).0)
      ]
