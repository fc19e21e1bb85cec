-- ===== src/Prelude/Sort.antt =====
-- A stable sort, as sort.SliceStable and ORDER BY: each element goes before the first one that is not less.
use mathlib.Core.Path.{◌≡◌}
use mathlib.Core.Logic.{inl, inr}
use mathlib.Core.Bool.{Bool, true, false}
use mathlib.Core.List.{List, [], ◌∷◌, Perm}
use mathlib.Core.List.Perm
use talyvor_docs.Prelude.Lists.{All}
use talyvor_docs.Prelude.Tests.{if◌then◌else◌, Bool-cases}

module _ {ℓ} {A : Type ℓ} (less : A → A → Bool) where
  unfoldable pub insert_by : A → List A → List A
  insert_by x [] = x ∷ []
  insert_by x (y ∷ ys) = let rest = insert_by x ys in if less y x then y ∷ rest else x ∷ y ∷ ys

  unfoldable pub sort_by : List A → List A
  unfolding insert_by
  sort_by [] = []
  sort_by (x ∷ xs) = insert_by x (sort_by xs)

  insert_by-perm : (x : A) (ys : List A) → Perm (insert_by x ys) (x ∷ ys)
  unfolding insert_by
  insert_by-perm x [] = Perm.refl (x ∷ [])
  insert_by-perm x (y ∷ ys) = elim (Bool-cases (less y x)) [
    | inl less_yx ↦ rw less_yx (Perm.trans (Perm.cons y (insert_by-perm x ys)) (Perm.swap x y ys))
    | inr other ↦ rw other (Perm.refl (x ∷ y ∷ ys))
  ]

  pub sort_by-perm : (xs : List A) → Perm (sort_by xs) xs
  unfolding sort_by
  sort_by-perm [] = Perm.refl []
  sort_by-perm (x ∷ xs) = Perm.trans (insert_by-perm x (sort_by xs)) (Perm.cons x (sort_by-perm xs))

  -- No element is less than one before it.
  abbrev pub NotLess : A → List A → Type 0
  NotLess x ys = All (λ y. less y x ≡ false) ys

  abbrev pub IsSorted : List A → Type 0
  IsSorted [] = Unit
  IsSorted (x ∷ xs) = NotLess x xs × IsSorted xs

module _ {ℓ κ} {A : Type ℓ} (less : A → A → Bool) (P : A → Type κ) where
  All-insert_by : (x : A) (ys : List A) → P x → All P ys → All P (insert_by less x ys)
  unfolding insert_by
  All-insert_by x [] p ps = (p, tt)
  All-insert_by x (y ∷ ys) p ps = elim (Bool-cases (less y x)) [
    | inl first ↦ rw first (ps.0, All-insert_by x ys p ps.1)
    | inr other ↦ rw other (p, ps)
  ]

  pub All-sort_by : (xs : List A) → All P xs → All P (sort_by less xs)
  unfolding sort_by
  All-sort_by [] h = tt
  All-sort_by (x ∷ xs) h = All-insert_by x (sort_by less xs) h.0 (All-sort_by xs h.1)

-- Where `less` is asymmetric and not less is transitive, on the elements that satisfy `P`, the sort sorts them.
module _ {ℓ κ} {A : Type ℓ} (less : A → A → Bool) (P : A → Type κ)
    (asym : (a b : A) → P a → P b → less a b ≡ true → less b a ≡ false)
    (trans : (a b c : A)
      → P a
      → P b
      → P c
      → less a b ≡ false
      → less b c ≡ false
      → less a c ≡ false) where
  NotLess-mono :
      (x y : A) (zs : List A)
      → P x
      → P y
      → less y x ≡ false
      → All P zs
      → NotLess less y zs
      → NotLess less x zs
  NotLess-mono x y [] px py other ps late = tt
  NotLess-mono x y (z ∷ zs) px py other ps late =
      (trans z y x ps.0 py px late.0 other, NotLess-mono x y zs px py other ps.1 late.1)

  insert_by-IsSorted :
      (x : A) (ys : List A)
      → P x
      → All P ys
      → IsSorted less ys
      → IsSorted less (insert_by less x ys)
  unfolding insert_by
  insert_by-IsSorted x [] px ps h = (tt, tt)
  insert_by-IsSorted x (y ∷ ys) px ps h = elim (Bool-cases (less y x)) [
    | inl first ↦ rw first (
      All-insert_by less (λ z. less z y ≡ false) x ys (asym y x ps.0 px first) h.0,
      insert_by-IsSorted x ys px ps.1 h.1,
    )
    | inr other ↦ rw other ((other, NotLess-mono x y ys px ps.0 other ps.1 h.0), h)
  ]

  pub sort_by-IsSorted : (xs : List A) → All P xs → IsSorted less (sort_by less xs)
  unfolding sort_by
  sort_by-IsSorted [] ps = tt
  sort_by-IsSorted (x ∷ xs) ps =
      insert_by-IsSorted x (sort_by less xs) ps.0 (All-sort_by less P xs ps.1)
        (sort_by-IsSorted xs ps.1)
