-- ===== src/Comment.antt =====
-- internal/comment/store.go: the comments of pages, in threads. A store has a pool here; the id of a new row and
-- whether a text is blank are parameters. The newest row is the first of the table.
pub mod Calls
pub mod Filed
pub mod Listing
pub mod Rows
pub mod Threads
pub mod Tests
use Prim.Native.String.{compare}
use Prim.Native.Nat.{Ordering}
use talyvor_docs.Prelude.{
  ℕ, ◌-◌, String, Bool, true, false, not, ◌&&◌, ◌||◌, Option, none, some, List, [], ◌∷◌, ◌++◌, ◌==◌,
  if◌then◌else◌, length, ltb, any, map, select as filter,
}
use talyvor_docs.Prelude.Sort.{sort_by}
use talyvor_docs.Postgres.Tables.{among}
use talyvor_docs.Postgres.Run.{
  Run, Reply, ok, refused, failed, pure, refuse, ◌>>=◌, ◌>>◌, statement, select, write,
}

-- Comment, a row of page_comments
pub record Comment : Type 0 where
  pub id : String
  pub page_id : String
  pub block_id : Option String
  pub thread_id : Option String
  pub parent_id : Option String
  pub author_id : String
  pub author_name : String
  pub content : String
  pub resolved : Bool
  pub resolved_by : Option String
  pub resolved_at : Option ℕ
  pub created_at : ℕ
  pub updated_at : ℕ

-- A page and its workspace.
pub record PageScope : Type 0 where
  pub id : String
  pub workspace_id : String

pub record Tables : Type 0 where
  pub comments : List Comment
  pub pages : List PageScope
  pub clock : ℕ

pub data CommentError : Type 0 where
  content_required author_required not_found not_author : CommentError

abbrev pub Comments : Type 0 → Type 0
Comments A = Run Tables CommentError A

unfoldable pub find_comment : String → List Comment → Option Comment
find_comment id [] = none
find_comment id (c ∷ rows) = if c.id == id then some c else find_comment id rows

abbrev pub is_some {ℓ} : {A : Type ℓ} → Option A → Bool
is_some none = false
is_some (some a) = true

-- REFERENCES page_comments(id)
abbrev pub has_parent : List Comment → Option String → Bool
has_parent rows none = true
has_parent rows (some p) = is_some (find_comment p rows)

-- INSERT … RETURNING, with the primary key and the parent's key
unfoldable pub insert_comment : Comment → Comments Comment
unfolding statement find_comment
insert_comment c = statement λ t.
    if is_some (find_comment c.id t.comments) || not (has_parent t.comments c.parent_id)
    then (failed, t)
    else (ok c, record t { comments = c ∷ t.comments })

abbrev pub written :
    String
    → String
    → Option String
    → Option String
    → Option String
    → String
    → String
    → String
    → ℕ
    → Comment
written id page block thread parent author name content now = record {
  id = id;
  page_id = page;
  block_id = block;
  thread_id = thread;
  parent_id = parent;
  author_id = author;
  author_name = name;
  content = content;
  resolved = false;
  resolved_by = none;
  resolved_at = none;
  created_at = now;
  updated_at = now;
}

-- now() in a statement
unfoldable pub now : Comments ℕ
now t down = (ok t.clock, t, down)

-- QueryRow, which fails where there is no row
abbrev pub or_missing : Option Comment → Comments Comment
or_missing none = refuse not_found
or_missing (some c) = pure c

-- The insert of `Reply`.
unfoldable pub reply_below : String → String → String → String → String → Comment → Comments Comment
unfolding now insert_comment
reply_below id parent author name content p = now >>= λ t.
    insert_comment (written id p.page_id none p.thread_id (some parent) author name content t)

module _ (is_blank : String → Bool) where
  -- `Create`
  unfoldable pub create :
      String → String → Option String → String → String → String → Comments Comment
  unfolding now insert_comment
  create id page block author name content =
      if is_blank content
      then refuse content_required
      else if author == ""
      then refuse author_required
      else (now >>= λ t.
          insert_comment (written id page block (some id) none author name content t))

  -- `Reply`
  unfoldable pub reply : String → String → String → String → String → Comments Comment
  unfolding select find_comment reply_below
  reply id parent author name content = if is_blank content then refuse content_required else (do
    found ← select (λ t. find_comment parent t.comments)
    p ← or_missing found
    reply_below id parent author name content p)

abbrev pub thread_of : Option Comment → Option String
thread_of none = none
thread_of (some c) = c.thread_id

-- thread_id = (…), which NULL never is
abbrev pub in_thread : Option String → Comment → Bool
in_thread none c = false
in_thread (some t) c = elim c.thread_id [ none ↦ false | some u ↦ u == t ]

abbrev pub settled : String → ℕ → Comment → Comment
settled by at c = record c {
  resolved = true;
  resolved_by = some by;
  resolved_at = some at;
  updated_at = at;
}

abbrev pub reopened : ℕ → Comment → Comment
reopened at c = record c {
  resolved = false;
  resolved_by = none;
  resolved_at = none;
  updated_at = at;
}

abbrev pub set_thread : Option String → (Comment → Comment) → List Comment → List Comment
set_thread thread f rows = map (λ c. if in_thread thread c then f c else c) rows

-- `Resolve`
unfoldable pub resolve : String → String → Comments (Unit {0})
unfolding write find_comment
resolve id by = write λ t. (
  tt,
  record t {
    comments = set_thread (thread_of (find_comment id t.comments)) (settled by t.clock) t.comments;
  },
)

-- `Unresolve`
unfoldable pub unresolve : String → Comments (Unit {0})
unfolding write find_comment
unresolve id = write λ t. (
  tt,
  record t {
    comments = set_thread (thread_of (find_comment id t.comments)) (reopened t.clock) t.comments;
  },
)

-- DELETE … WHERE id = $1, with ON DELETE CASCADE. A comment is older than its replies, so what is left is found from the
-- oldest row on.
unfoldable pub cascade : String → List Comment → List Comment
unfolding find_comment
cascade id [] = []
cascade id (c ∷ rows) =
    let kept = cascade id rows in
    if c.id == id || not (has_parent kept c.parent_id) then kept else c ∷ kept

-- The author's check of `Delete`, and its statement.
unfoldable pub delete_own : String → String → Comment → Comments (Unit {0})
unfolding write cascade
delete_own id requester c =
    if not (c.author_id == requester)
    then refuse not_author
    else write (λ t. (tt, record t { comments = cascade id t.comments }))

-- `Delete`
unfoldable pub delete : String → String → Comments (Unit {0})
unfolding select find_comment delete_own
delete id requester = do
  found ← select (λ t. find_comment id t.comments)
  c ← or_missing found
  delete_own id requester c

-- `assertInPage`
abbrev pub is_in_page : String → String → List String → Tables → Bool
is_in_page id page workspaces t =
    any (λ c. c.id == id && c.page_id == page) t.comments
    && any (λ p. p.id == page && among workspaces p.workspace_id) t.pages

unfoldable pub assert_in_page : String → String → List String → Comments (Unit {0})
unfolding select
assert_in_page id page workspaces = do
  exists ← select (is_in_page id page workspaces)
  if exists then pure tt else refuse not_found

-- `ReplyInWorkspaces`
unfoldable pub reply_in_workspaces :
    (String → Bool)
    → String
    → String
    → String
    → String
    → String
    → String
    → List String
    → Comments Comment
unfolding assert_in_page reply
reply_in_workspaces is_blank id parent page author name content workspaces =
    assert_in_page parent page workspaces >> reply is_blank id parent author name content

-- `ResolveInWorkspaces`
unfoldable pub resolve_in_workspaces : String → String → String → List String → Comments (Unit {0})
unfolding assert_in_page resolve
resolve_in_workspaces id page by workspaces = assert_in_page id page workspaces >> resolve id by

-- `UnresolveInWorkspaces`
unfoldable pub unresolve_in_workspaces : String → String → List String → Comments (Unit {0})
unfolding assert_in_page unresolve
unresolve_in_workspaces id page workspaces = assert_in_page id page workspaces >> unresolve id

-- `DeleteInWorkspaces`
unfoldable pub delete_in_workspaces : String → String → String → List String → Comments (Unit {0})
unfolding assert_in_page delete
delete_in_workspaces id page requester workspaces =
    assert_in_page id page workspaces >> delete id requester
