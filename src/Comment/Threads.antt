-- ===== src/Comment/Threads.antt =====
-- internal/comment/store.go: what `ListByPage` makes of threads.
use mathlib.Core.List.{append-nil}
use talyvor_docs.Prelude.{
  String, ◌≡◌, refl, sym, ap, ◌∙◌, true, not, ◌&&◌, ◌||◌, Option, none, some, List, [], ◌∷◌, arith,
  ◌==◌, Option-cases, eq_iff, eq_refl, inl, inr, map, any, length, All, select as filter,
}
use talyvor_docs.Prelude.Sort.{All-sort_by}
use talyvor_docs.Postgres.Run.{ok, statement, select}
use talyvor_docs.Comment.{Comment, Tables, find_comment, in_thread, is_some}
use talyvor_docs.Comment.Listing.{
  CommentStats, Thread, is_head, find_head, by_key, or_else, home, is_home, with_replies,
  comes_before, listed, threads_of, list_by_page, get_stats,
}
use talyvor_docs.Comment.Filed.{Placed, IsFiled, HasThreads}
use talyvor_docs.Comment.Rows.{
  All-found, All-map, any-sort_by, count-sort_by, count-filter, any-filter, any-find_comment,
  All-filter, filter-same, filter-none, map-same, length-map,
}

-- The head of a comment's thread is among the rows, on its page; a head's thread is its own.
HeadOf : List Comment → Comment → Type 0
HeadOf rows c =
    (h : Comment) × (c.thread_id ≡ some h.id)
    × (find_comment h.id rows ≡ some h)
    × (h.parent_id ≡ none)
    × (h.page_id ≡ c.page_id)

HasHead : List Comment → Comment → Type 0
HasHead rows c = HeadOf rows c × (is_head c ≡ true → c.thread_id ≡ some c.id)

HeadOf-later :
    (c d : Comment) (rows : List Comment)
    → find_comment c.id rows ≡ none
    → HeadOf rows d
    → HeadOf (c ∷ rows) d
unfolding HeadOf find_comment
HeadOf-later c d rows new (h, thread, found, top, page) = (
  h,
  thread,
  ground
      (arith, found, new, eq_iff c.id h.id, λ (p : c.id ≡ h.id). ap (λ y. find_comment y rows) p),
  top,
  page,
)

Placed-HasHead :
    (up : Option String) (c : Comment) (rows : List Comment)
    → c.parent_id ≡ up
    → find_comment c.id rows ≡ none
    → All (HasHead rows) rows
    → Placed up c rows
    → HasHead (c ∷ rows) c
unfolding HasHead HeadOf find_comment
Placed-HasHead none c rows e new heads own = ((c, own, rw (eq_refl c.id) refl, e, refl), λ top. own)
Placed-HasHead (some up) c rows e new heads (p, found, page, thread) =
    let (h, its, there, top, same) = (All-found (HasHead rows) up rows p heads found).0 in
    (
      HeadOf-later c c rows new (h, thread ∙ its, there, top, same ∙ sym page),
      λ top. absurd (ground (arith, top, e)),
    )

IsFiled-HasHead : (rows : List Comment) → IsFiled rows → All (HasHead rows) rows
unfolding HasHead
IsFiled-HasHead [] h = tt
IsFiled-HasHead (c ∷ rows) (new, placed, filed) =
    let heads : All (HasHead rows) rows = IsFiled-HasHead rows filed in
    (
      Placed-HasHead c.parent_id c rows refl new heads placed,
      All-map (HasHead rows) (HasHead (c ∷ rows)) (λ d h. (HeadOf-later c d rows new h.0, h.1)) rows
          heads,
    )

-- The last head that stands under a key.
find_head-id :
    (key : String) (heads : List Comment) (x : Comment)
    → All (λ h. h.thread_id ≡ some h.id) heads
    → find_head key heads ≡ some x
    → x.id ≡ key
unfolding find_head
find_head-id key [] x own h = absurd (ground (arith, h))
find_head-id key (y ∷ heads) x own h = elim (Option-cases (find_head key heads)) [
  | inr (last, e) ↦ find_head-id key heads x own.1 (e ∙ ground (arith, h, e))
  | inl e ↦
      ground (arith, h, e, own.0, eq_iff y.id key, λ (p : y ≡ x). ap (λ (c : Comment). c.id) p)
]

find_head-some :
    (key : String) (heads : List Comment)
    → any (λ h. h.id == key) heads ≡ true
    → is_some (find_head key heads) ≡ true
unfolding find_head any
find_head-some key [] h = absurd (ground (arith, h))
find_head-some key (y ∷ heads) h = elim (Option-cases (find_head key heads)) [
  | inr (last, e) ↦ rw e refl
  | inl e ↦ elim (Option-cases y.thread_id) [
    | inl bare ↦ rw (e, bare) (ground (arith, h, e, find_head-some key heads))
    | inr (t, its) ↦ rw (e, its) (ground (arith, h, e, find_head-some key heads))
  ]
]

-- A thread as the rows have it: a comment without a parent, and the replies whose thread is its id.
abbrev pub thread_in : List Comment → Comment → Thread
thread_in rows h = record {
  head = h;
  replies = filter (λ c. not (is_head c) && in_thread (some h.id) c) rows;
}

-- What a reply is filed under is the head of its thread.
HasHome : List Comment → Comment → Type 0
HasHome heads c = (x : Comment) × (home heads c ≡ some x) × (c.thread_id ≡ some x.id)

HasHome-filed :
    (heads : List Comment) (c : Comment)
    → HasHome heads c
    → (h : Comment)
    → (not (is_head c) && is_home h (home heads c)) ≡ (not (is_head c) && in_thread (some h.id) c)
unfolding HasHome
HasHome-filed heads c (x, at, thread) h = rw (at, thread) refl

home-HasHome :
    (heads : List Comment) (c h : Comment)
    → c.thread_id ≡ some h.id
    → any (λ x. x.id == h.id) heads ≡ true
    → All (λ x. x.thread_id ≡ some x.id) heads
    → HasHome heads c
unfolding HasHome
home-HasHome heads c h thread there own = elim (Option-cases (find_head h.id heads)) [
  | inl lost ↦ absurd (ground (arith, lost, find_head-some h.id heads there))
  | inr (x, found) ↦ (
    x,
    ap (λ k. or_else (by_key heads k) (by_key heads c.parent_id)) thread
        ∙ ap (λ o. or_else o (by_key heads c.parent_id)) found,
    thread ∙ ap some (sym (find_head-id h.id heads x own found)),
  )
]

module _ (page : String) (rows : List Comment) (filed : IsFiled rows) where
  abbrev all : List Comment
  all = listed page true rows

  abbrev heads : List Comment
  heads = filter is_head all

  all-HasHead :
      All (λ c. HasHead rows c × ((c.page_id == page && (true || not c.resolved)) ≡ true)) all
  unfolding listed
  all-HasHead = All-sort_by comes_before _ _ (
      All-filter (HasHead rows) (λ c. c.page_id == page && (true || not c.resolved)) rows
        (IsFiled-HasHead rows filed))

  heads-own : All (λ h. h.thread_id ≡ some h.id) heads
  unfolding HasHead
  heads-own =
      All-map _ (λ (h : Comment). h.thread_id ≡ some h.id) (λ c h. h.0.0.1 h.1) heads
        (All-filter _ is_head all all-HasHead)

  head_there :
      (h : Comment)
      → find_comment h.id rows ≡ some h
      → h.parent_id ≡ none
      → (h.page_id == page) ≡ true
      → any (λ x. x.id == h.id) heads ≡ true
  unfolding listed
  head_there h found top here =
      any-filter (λ x. x.id == h.id) is_head all
      ∙ any-sort_by (λ x. is_head x && (x.id == h.id)) comes_before _
      ∙ any-filter (λ x. is_head x && (x.id == h.id)) _ rows
      ∙ any-find_comment h.id _ rows h found (rw (top, here, eq_refl h.id) refl)

  all-HasHome : All (HasHome heads) all
  unfolding HasHead HeadOf
  all-HasHome =
      All-map _ (HasHome heads)
        (λ c (((h, thread, found, top, same), own), here).
          home-HasHome heads c h thread
            (head_there h found top (ground (arith, here, ap (λ p. p == page) same))) heads-own)
        all all-HasHead

  threads_of-all : threads_of all ≡ map (thread_in all) heads
  unfolding threads_of HasHome
  threads_of-all =
      let orphans : filter (λ c. not (is_head c) && not (is_some (home heads c))) all ≡ [] =
        filter-none _ all
          (All-map (HasHome heads) _ (λ c (x, at, thread). rw at (ground arith)) all all-HasHome) in
      rw orphans (
        append-nil (map (with_replies all heads) heads)
        ∙ map-same (with_replies all heads) (thread_in all)
            (λ h.
              ap (λ rs. record { head = h; replies = rs })
                (filter-same _ _ all
                  (All-map (HasHome heads) _ (λ c at. HasHome-filed heads c at h) all all-HasHome)))
            heads)

-- Where the threads are kept: the listing of a page with its resolved comments, of which the read does not fail, has an
-- entry for each comment without a parent and no other, with the replies whose thread is its id, at whatever depth;
-- and it has as many entries as the statistics of the page count.
pub list_by_page-thread_in :
    (page : String) (t : Tables)
    → HasThreads t
    → (let rows = listed page true t.comments in
        let entries = map (thread_in rows) (filter is_head rows) in
        (list_by_page page true t [] ≡ (ok entries, t, []))
        × ((stats : CommentStats) × (get_stats page t [] ≡ (ok stats, t, []))
            × (length entries ≡ stats.total)))
unfolding list_by_page get_stats select statement listed
list_by_page-thread_in page t filed = (
  ap (λ entries. (ok entries, t, [])) (threads_of-all page t.comments filed),
  (_, refl, length-map _ _ ∙ count-sort_by is_head comes_before _ ∙ count-filter page t.comments),
)
