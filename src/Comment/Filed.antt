-- ===== src/Comment/Filed.antt =====
-- internal/comment/store.go: threads among the rows of comments.
use talyvor_docs.Prelude.{
  String, ◌≡◌, refl, sym, ap, ◌∙◌, true, not, ◌||◌, Option, none, some, List, [], ◌∷◌, arith, ◌==◌,
  if◌then◌else◌, Bool-cases, Option-cases, eq_iff, inl, inr, map,
}
use talyvor_docs.Comment.{Comment, Tables, find_comment, has_parent, in_thread, set_thread, cascade}

-- A head has its own thread; a reply is on the page and in the thread of its parent, which is older.
abbrev pub Placed : Option String → Comment → List Comment → Type 0
Placed none c rows = c.thread_id ≡ some c.id
Placed (some up) c rows =
    (p : Comment) × (find_comment up rows ≡ some p)
    × (c.page_id ≡ p.page_id)
    × (c.thread_id ≡ p.thread_id)

abbrev pub IsFiled : List Comment → Type 0
IsFiled [] = Unit
IsFiled (c ∷ rows) = (find_comment c.id rows ≡ none) × Placed c.parent_id c rows × IsFiled rows

abbrev pub HasThreads : Tables → Type 0
HasThreads t = IsFiled t.comments

-- Where a change of the rows keeps the ids, the pages, the threads and the parents.
abbrev map_found : (Comment → Comment) → Option Comment → Option Comment
map_found f none = none
map_found f (some c) = some (f c)

module _ (f : Comment → Comment)
    (same : (c : Comment)
      → ((f c).id ≡ c.id)
        × ((f c).page_id ≡ c.page_id)
        × ((f c).thread_id ≡ c.thread_id)
        × ((f c).parent_id ≡ c.parent_id)) where
  find_comment-map :
      (id : String) (rows : List Comment)
      → find_comment id (map f rows) ≡ map_found f (find_comment id rows)
  unfolding find_comment
  find_comment-map id [] = refl
  find_comment-map id (c ∷ rows) = elim (Bool-cases (c.id == id)) [
    | inl here ↦ rw (ap (λ x. x == id) (same c).0 ∙ here, here) refl
    | inr other ↦ rw (ap (λ x. x == id) (same c).0 ∙ other, other) (find_comment-map id rows)
  ]

  Placed-map :
      (up : Option String) (c : Comment) (rows : List Comment)
      → Placed up c rows
      → Placed up (f c) (map f rows)
  Placed-map none c rows own = (same c).2 ∙ own ∙ sym (ap some (same c).0)
  Placed-map (some up) c rows (p, found, page, thread) = (
    f p,
    rw (find_comment-map up rows, found) refl,
    (same c).1 ∙ page ∙ sym (same p).1,
    (same c).2 ∙ thread ∙ sym (same p).2,
  )

  Placed-parent :
      (up up' : Option String) (c : Comment) (rows : List Comment)
      → up' ≡ up
      → Placed up c rows
      → Placed up' c rows
  Placed-parent up up' c rows e h = rw e h

  IsFiled-map : (rows : List Comment) → IsFiled rows → IsFiled (map f rows)
  IsFiled-map [] h = h
  IsFiled-map (c ∷ rows) (new, placed, filed) = (
    ap (λ x. find_comment x (map f rows)) (same c).0
        ∙ find_comment-map c.id rows
        ∙ ap (map_found f) new,
    Placed-parent c.parent_id (f c).parent_id (f c) (map f rows) (same c).3
        (Placed-map c.parent_id c rows placed),
    IsFiled-map rows filed,
  )

pub set_thread-IsFiled :
    (thread : Option String) (f : Comment → Comment) (rows : List Comment)
    → ((c : Comment)
        → ((f c).id ≡ c.id)
          × ((f c).page_id ≡ c.page_id)
          × ((f c).thread_id ≡ c.thread_id)
          × ((f c).parent_id ≡ c.parent_id))
    → IsFiled rows
    → IsFiled (set_thread thread f rows)
set_thread-IsFiled thread f rows same =
    IsFiled-map (λ c. if in_thread thread c then f c else c)
      (λ c. elim (Bool-cases (in_thread thread c)) [
        | inl mine ↦ rw mine (same c)
        | inr other ↦ rw other (refl, refl, refl, refl)
      ])
      rows

-- Whom the cascade leaves is found as before.
find_comment-cascade :
    (id x : String) (rows : List Comment) (r : Comment)
    → IsFiled rows
    → find_comment x (cascade id rows) ≡ some r
    → find_comment x rows ≡ some r
unfolding find_comment cascade
find_comment-cascade id x [] r filed h = h
find_comment-cascade id x (c ∷ rows) r (new, placed, filed) h = ground (
  arith,
  find_comment-cascade id x rows r filed,
  h,
  new,
  eq_iff c.id x,
  λ (p : c.id ≡ x). ap (λ y. find_comment y rows) p,
)

find_comment-cascade-none :
    (id x : String) (rows : List Comment)
    → find_comment x rows ≡ none
    → find_comment x (cascade id rows) ≡ none
unfolding find_comment cascade
find_comment-cascade-none id x [] h = h
find_comment-cascade-none id x (c ∷ rows) h = ground (arith, find_comment-cascade-none id x rows, h)

Placed-cascade :
    (id : String) (up : Option String) (c : Comment) (rows : List Comment)
    → IsFiled rows
    → has_parent (cascade id rows) up ≡ true
    → Placed up c rows
    → Placed up c (cascade id rows)
Placed-cascade id none c rows filed there own = own
Placed-cascade id (some up) c rows filed there (p, found, page, thread) =
    elim (Option-cases (find_comment up (cascade id rows))) [
      | inl gone ↦ absurd (ground (arith, there, gone))
      | inr (q, left) ↦
          (p, left ∙ sym (find_comment-cascade id up rows q filed left) ∙ found, page, thread)
    ]

pub cascade-IsFiled : (id : String) (rows : List Comment) → IsFiled rows → IsFiled (cascade id rows)
unfolding cascade
cascade-IsFiled id [] h = h
cascade-IsFiled id (c ∷ rows) (new, placed, filed) =
    elim (Bool-cases (c.id == id || not (has_parent (cascade id rows) c.parent_id))) [
      | inl gone ↦ rw gone (cascade-IsFiled id rows filed)
      | inr left ↦ rw left (
        find_comment-cascade-none id c.id rows new,
        Placed-cascade id c.parent_id c rows filed (ground (arith, left)) placed,
        cascade-IsFiled id rows filed,
      )
    ]
