-- ===== src/Comment/Listing.antt =====
-- internal/comment/store.go: `ListByPage` and `GetStats`.
use Prim.Native.String.{compare}
use Prim.Native.Nat.{Ordering}
use talyvor_docs.Prelude.{
  ℕ, ◌-◌, String, Bool, true, false, not, ◌&&◌, ◌||◌, Option, none, some, List, [], ◌∷◌, ◌++◌, ◌==◌,
  if◌then◌else◌, length, ltb, map, select as filter,
}
use talyvor_docs.Prelude.Sort.{sort_by}
use talyvor_docs.Postgres.Run.{select}
use talyvor_docs.Comment.{Comment, Comments, is_some}

-- CommentStats
pub record CommentStats : Type 0 where
  pub total : ℕ
  pub open_threads : ℕ
  pub resolved : ℕ

-- `GetStats`
abbrev pub is_head : Comment → Bool
is_head c = elim c.parent_id [ none ↦ true | some p ↦ false ]

unfoldable pub get_stats : String → Comments CommentStats
unfolding select
get_stats page = select λ t.
    let heads = filter (λ c. c.page_id == page && is_head c) t.comments in
    let done = length (filter (λ c. c.resolved) heads) in
    record { total = length heads; open_threads = length heads - done; resolved = done }

-- ORDER BY thread_id ASC, created_at ASC, where NULL is last; rows that tie stand newest first, which the database
-- leaves open
abbrev pub text_before : String → String → Bool
text_before a b = elim (compare a b) [
  | Ordering.lt ↦ true
  | Ordering.eq ↦ false
  | Ordering.gt ↦ false
]

abbrev pub thread_before : Option String → Option String → Bool
thread_before none b = false
thread_before (some a) none = true
thread_before (some a) (some b) = text_before a b

abbrev pub comes_before : Comment → Comment → Bool
comes_before a b =
    if thread_before a.thread_id b.thread_id
    then true
    else if thread_before b.thread_id a.thread_id
    then false
    else ltb a.created_at b.created_at

-- The rows of the query of `ListByPage`.
unfoldable pub listed : String → Bool → List Comment → List Comment
listed page include_resolved rows =
    sort_by comes_before
      (filter (λ c. c.page_id == page && (include_resolved || not c.resolved)) rows)

-- A top-level comment, with its replies.
pub record Thread : Type 0 where
  pub head : Comment
  pub replies : List Comment

abbrev pub is_key : String → Comment → Bool
is_key key h = elim h.thread_id [ none ↦ h.id == key | some t ↦ (t == key) || (h.id == key) ]

-- threads[key]: the last head that was put there
unfoldable pub find_head : String → List Comment → Option Comment
find_head key [] = none
find_head key (h ∷ heads) = elim (find_head key heads) [
  | some last ↦ some last
  | none ↦ if is_key key h then some h else none
]

abbrev pub by_key : List Comment → Option String → Option Comment
by_key heads none = none
by_key heads (some key) = find_head key heads

abbrev pub or_else : Option Comment → Option Comment → Option Comment
or_else none other = other
or_else (some h) other = some h

-- The head that a reply is filed under.
abbrev pub home : List Comment → Comment → Option Comment
home heads c = or_else (by_key heads c.thread_id) (by_key heads c.parent_id)

abbrev pub is_home : Comment → Option Comment → Bool
is_home h none = false
is_home h (some x) = x.id == h.id

abbrev pub with_replies : List Comment → List Comment → Comment → Thread
with_replies rows heads h = record {
  head = h;
  replies = filter (λ c. not (is_head c) && is_home h (home heads c)) rows;
}

abbrev pub alone : Comment → Thread
alone c = record { head = c; replies = [] }

unfoldable pub threads_of : List Comment → List Thread
unfolding find_head
threads_of rows =
    let heads = filter is_head rows in
    map (with_replies rows heads) heads
    ++ map alone (filter (λ c. not (is_head c) && not (is_some (home heads c))) rows)

-- `ListByPage`
unfoldable pub list_by_page : String → Bool → Comments (List Thread)
unfolding select listed threads_of
list_by_page page include_resolved =
    select λ t. threads_of (listed page include_resolved t.comments)
