-- ===== src/Comment/Rows.antt =====
-- internal/comment/store.go: lemmas on the rows of comments.
use mathlib.Core.Path.{subst}
use talyvor_docs.Prelude.{
  suc, String, ◌≡◌, refl, sym, ap, ◌∙◌, Bool, true, false, not, ◌&&◌, ◌||◌, Option, none, some,
  List, [], ◌∷◌, arith, ◌==◌, Bool-cases, eq_iff, inl, inr, map, any, length, All, select as filter,
}
use talyvor_docs.Prelude.Sort.{insert_by, sort_by}
use talyvor_docs.Comment.{Comment, find_comment}
use talyvor_docs.Comment.Listing.{is_head}

abbrev or_id : String → Option Comment → String
or_id x none = x
or_id x (some c) = c.id

or_id-find_comment : (x : String) (rows : List Comment) → or_id x (find_comment x rows) ≡ x
unfolding find_comment
or_id-find_comment x [] = refl
or_id-find_comment x (c ∷ rows) = ground (arith, or_id-find_comment x rows, eq_iff c.id x)

find_comment-id :
    (x : String) (rows : List Comment) (r : Comment) → find_comment x rows ≡ some r → r.id ≡ x
find_comment-id x rows r h = ap (or_id x) (sym h) ∙ or_id-find_comment x rows

abbrev Holds : (Comment → Type 0) → Option Comment → Type 0
Holds P none = Unit
Holds P (some c) = P c

All-Holds :
    (P : Comment → Type 0) (x : String) (rows : List Comment)
    → All P rows
    → Holds P (find_comment x rows)
unfolding find_comment
All-Holds P x [] h = tt
All-Holds P x (c ∷ rows) h = elim (Bool-cases (c.id == x)) [
  | inl here ↦ rw here h.0
  | inr other ↦ rw other (All-Holds P x rows h.1)
]

pub All-found :
    (P : Comment → Type 0) (x : String) (rows : List Comment) (r : Comment)
    → All P rows
    → find_comment x rows ≡ some r
    → P r
All-found P x rows r h e = subst (Holds P) e (All-Holds P x rows h)

pub All-map :
    (P Q : Comment → Type 0)
    → ((c : Comment) → P c → Q c)
    → (rows : List Comment) → All P rows
    → All Q rows
All-map P Q f [] h = tt
All-map P Q f (c ∷ rows) h = (f c h.0, All-map P Q f rows h.1)

any-insert_by :
    (p : Comment → Bool) (less : Comment → Comment → Bool) (x : Comment) (ys : List Comment)
    → any p (insert_by less x ys) ≡ (p x || any p ys)
unfolding any insert_by
any-insert_by p less x [] = refl
any-insert_by p less x (y ∷ ys) = ground (arith, any-insert_by p less x ys)

pub any-sort_by :
    (p : Comment → Bool) (less : Comment → Comment → Bool) (xs : List Comment)
    → any p (sort_by less xs) ≡ any p xs
unfolding any sort_by
any-sort_by p less [] = refl
any-sort_by p less (x ∷ xs) =
    any-insert_by p less x (sort_by less xs) ∙ ap (λ b. p x || b) (any-sort_by p less xs)

count-insert_by :
    (p : Comment → Bool) (less : Comment → Comment → Bool) (x : Comment) (ys : List Comment)
    → length (filter p (insert_by less x ys)) ≡ length (filter p (x ∷ ys))
unfolding filter insert_by
count-insert_by p less x [] = refl
count-insert_by p less x (y ∷ ys) = ground (arith, count-insert_by p less x ys)

pub count-sort_by :
    (p : Comment → Bool) (less : Comment → Comment → Bool) (xs : List Comment)
    → length (filter p (sort_by less xs)) ≡ length (filter p xs)
unfolding filter sort_by
count-sort_by p less [] = refl
count-sort_by p less (x ∷ xs) =
    ground (arith, count-insert_by p less x (sort_by less xs), count-sort_by p less xs)

pub count-filter :
    (page : String) (rows : List Comment)
    → length (filter is_head (filter (λ c. c.page_id == page && (true || not c.resolved)) rows))
      ≡ length (filter (λ c. c.page_id == page && is_head c) rows)
unfolding filter
count-filter page [] = refl
count-filter page (c ∷ rows) = ground (arith, count-filter page rows)

pub any-filter :
    (p q : Comment → Bool) (rows : List Comment)
    → any p (filter q rows) ≡ any (λ c. q c && p c) rows
unfolding any filter
any-filter p q [] = refl
any-filter p q (c ∷ rows) = ground (arith, any-filter p q rows)

pub any-find_comment :
    (x : String) (q : Comment → Bool) (rows : List Comment) (r : Comment)
    → find_comment x rows ≡ some r
    → q r ≡ true
    → any q rows ≡ true
unfolding any find_comment
any-find_comment x q [] r h good = absurd (ground (arith, h))
any-find_comment x q (c ∷ rows) r h good =
    ground (arith, h, good, any-find_comment x q rows r, λ (p : c ≡ r). ap q p)

pub All-filter :
    (P : Comment → Type 0) (q : Comment → Bool) (rows : List Comment)
    → All P rows
    → All (λ c. P c × (q c ≡ true)) (filter q rows)
unfolding filter
All-filter P q [] h = tt
All-filter P q (c ∷ rows) h = elim (Bool-cases (q c)) [
  | inl kept ↦ rw kept ((h.0, kept), All-filter P q rows h.1)
  | inr gone ↦ rw gone (All-filter P q rows h.1)
]

pub filter-same :
    (p q : Comment → Bool) (rows : List Comment)
    → All (λ c. p c ≡ q c) rows
    → filter p rows ≡ filter q rows
unfolding filter
filter-same p q [] h = refl
filter-same p q (c ∷ rows) h = rw (h.0, filter-same p q rows h.1) refl

pub filter-none :
    (p : Comment → Bool) (rows : List Comment) → All (λ c. p c ≡ false) rows → filter p rows ≡ []
unfolding filter
filter-none p [] h = refl
filter-none p (c ∷ rows) h = rw h.0 (filter-none p rows h.1)

pub map-same :
    {A : Type 0} (f g : Comment → A)
    → ((c : Comment) → f c ≡ g c)
    → (rows : List Comment) → map f rows ≡ map g rows
map-same f g e [] = refl
map-same f g e (c ∷ rows) = rw (e c, map-same f g e rows) refl

pub length-map :
    {A : Type 0} (f : Comment → A) (rows : List Comment) → length (map f rows) ≡ length rows
length-map f [] = refl
length-map f (c ∷ rows) = ap suc (length-map f rows)
