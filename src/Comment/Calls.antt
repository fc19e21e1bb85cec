-- ===== src/Comment/Calls.antt =====
-- internal/comment/store.go: the methods, and the calls of the handler.
use talyvor_docs.Prelude.{
  String, ◌≡◌, refl, Bool, not, Option, none, some, List, [], ◌∷◌, ◌==◌, Bool-cases, Option-cases,
  inl, inr,
}
use talyvor_docs.Postgres.Run.{
  ok, pure, ◌>>=◌, ◌>>◌, select, Ensures, ensure_bind, ensure_statement,
}
use talyvor_docs.Postgres.Run.Keep.{
  Keeps, keep_pure, keep_bind, keep_select, keep_write, keep_if, kept,
}
use talyvor_docs.Comment.{
  Comment, Tables, CommentError, Comments, find_comment, has_parent, insert_comment, written, now,
  create, reply, reply_below, or_missing, thread_of, settled, reopened, resolve, unresolve, delete,
  delete_own, assert_in_page, is_in_page, reply_in_workspaces, resolve_in_workspaces,
  unresolve_in_workspaces, delete_in_workspaces,
}
use talyvor_docs.Comment.Filed.{Placed, HasThreads, set_thread-IsFiled, cascade-IsFiled}

-- The methods.
module _ (P : Tables → Type 0) where
  keep_missing : (found : Option Comment) → Keeps P (or_missing found)
  keep_missing none t down h = h
  keep_missing (some c) t down h = h

  keep_page :
      {A : Type 0} (id page : String) (workspaces : List String) (m : Comments A)
      → Keeps P m
      → Keeps P (assert_in_page id page workspaces >> m)
  unfolding assert_in_page
  keep_page id page workspaces m keeps =
      keep_bind CommentError P _ (λ _. m)
        (keep_bind CommentError P _ _ (keep_select CommentError P (is_in_page id page workspaces))
          (λ exists. keep_if CommentError P exists _ _ (λ t down h. h) (λ t down h. h)))
        (λ _. keeps)

insert_comment-Ensures :
    (c : Comment)
    → Ensures
        (λ t. HasThreads t × Placed c.parent_id c t.comments)
        (insert_comment c)
        (λ _. HasThreads)
        HasThreads
unfolding insert_comment
insert_comment-Ensures c =
    ensure_statement HasThreads (λ t. HasThreads t × Placed c.parent_id c t.comments)
      (λ _. HasThreads) _
      (λ t h. elim (Option-cases (find_comment c.id t.comments)) [
        | inr (old, taken) ↦ rw taken h.0
        | inl new ↦ elim (Bool-cases (has_parent t.comments c.parent_id)) [
          | inl there ↦ rw (new, there) (new, h.1, h.0)
          | inr gone ↦ rw (new, gone) h.0
        ]
      ])
      (λ t h. h.0)

create-Keeps :
    (is_blank : String → Bool) (id page : String) (block : Option String)
    (author name content : String)
    → Keeps HasThreads (create is_blank id page block author name content)
unfolding create now
create-Keeps is_blank id page block author name content =
    keep_if CommentError HasThreads (is_blank content) _ _ (λ t down h. h)
      (keep_if CommentError HasThreads (author == "") _ _ (λ t down h. h)
        (λ t down h.
          insert_comment-Ensures (written id page block (some id) none author name content t.clock)
            t down (h, refl)))

abbrev Found : String → Option Comment → Tables → Type 0
Found parent found t = HasThreads t × (find_comment parent t.comments ≡ found)

missing-Found :
    (parent : String) (found : Option Comment)
    → Ensures (Found parent found) (or_missing found) (λ p. Found parent (some p)) HasThreads
missing-Found parent none t down h = h.0
missing-Found parent (some p) t down h = h

reply_below-Ensures :
    (id parent author name content : String) (p : Comment)
    → Ensures
        (Found parent (some p))
        (reply_below id parent author name content p)
        (λ _. HasThreads)
        HasThreads
unfolding reply_below now
reply_below-Ensures id parent author name content p t down h =
    insert_comment-Ensures
      (written id p.page_id none p.thread_id (some parent) author name content t.clock) t down
      (h.0, (p, h.1, refl, refl))

read-Found :
    (parent : String)
    → Ensures HasThreads
        (select {E = CommentError} (λ t. find_comment parent t.comments))
        (Found parent)
        HasThreads
unfolding select
read-Found parent =
    ensure_statement HasThreads HasThreads (Found parent)
      (λ t. (ok (find_comment parent t.comments), t)) (λ t h. (h, refl)) (λ t h. h)

reply-Keeps :
    (is_blank : String → Bool) (id parent author name content : String)
    → Keeps HasThreads (reply is_blank id parent author name content)
unfolding reply
reply-Keeps is_blank id parent author name content =
    let read : Comments (Option Comment) = select (λ t. find_comment parent t.comments) in
    let below : Comment → Comments Comment = reply_below id parent author name content in
    keep_if CommentError HasThreads (is_blank content) _ _ (λ t down h. h)
      (ensure_bind HasThreads HasThreads (Found parent) (λ _. HasThreads) read
        (λ found. or_missing found >>= below) (read-Found parent)
        (λ found.
          ensure_bind HasThreads (Found parent found) (λ p. Found parent (some p)) (λ _. HasThreads)
            (or_missing found) below (missing-Found parent found)
            (reply_below-Ensures id parent author name content)))

resolve-Keeps : (id by : String) → Keeps HasThreads (resolve id by)
unfolding resolve
resolve-Keeps id by = keep_write CommentError HasThreads _ λ t h.
    set_thread-IsFiled (thread_of (find_comment id t.comments)) (settled by t.clock) t.comments
      (λ c. (refl, refl, refl, refl)) h

unresolve-Keeps : (id : String) → Keeps HasThreads (unresolve id)
unfolding unresolve
unresolve-Keeps id = keep_write CommentError HasThreads _ λ t h.
    set_thread-IsFiled (thread_of (find_comment id t.comments)) (reopened t.clock) t.comments
      (λ c. (refl, refl, refl, refl)) h

delete_own-Keeps :
    (id requester : String) (c : Comment) → Keeps HasThreads (delete_own id requester c)
unfolding delete_own
delete_own-Keeps id requester c =
    keep_if CommentError HasThreads (not (c.author_id == requester)) _ _ (λ t down h. h)
      (keep_write CommentError HasThreads _ λ t h. cascade-IsFiled id t.comments h)

delete-Keeps : (id requester : String) → Keeps HasThreads (delete id requester)
unfolding delete
delete-Keeps id requester =
    let read : Comments (Option Comment) = select (λ t. find_comment id t.comments) in
    let own : Comment → Comments (Unit {0}) = delete_own id requester in
    keep_bind CommentError HasThreads read (λ found. or_missing found >>= own)
      (keep_select CommentError HasThreads (λ t. find_comment id t.comments))
      (λ found.
        keep_bind CommentError HasThreads (or_missing found) own (keep_missing HasThreads found)
          (delete_own-Keeps id requester))

-- The calls of the handler.
pub data CommentOp : Type 0 where
  add : String → String → Option String → String → String → String → CommentOp
  answer : String → String → String → String → String → String → List String → CommentOp
  settle : String → String → String → List String → CommentOp
  reopen : String → String → List String → CommentOp
  remove : String → String → String → List String → CommentOp

abbrev pub ignored : {A : Type 0} → Comments A → Comments (Unit {0})
ignored m t down = let (r, t', down') = m t down in (ok tt, t', down')

module _ (is_blank : String → Bool) where
  -- A call, whose answer or error is the caller's.
  unfoldable pub run_op : CommentOp → Comments (Unit {0})
  unfolding create reply_in_workspaces resolve_in_workspaces unresolve_in_workspaces
      delete_in_workspaces
  run_op (add id page block author name content) =
      ignored (create is_blank id page block author name content)
  run_op (answer id parent page author name content ws) =
      ignored (reply_in_workspaces is_blank id parent page author name content ws)
  run_op (settle id page by ws) = ignored (resolve_in_workspaces id page by ws)
  run_op (reopen id page ws) = ignored (unresolve_in_workspaces id page ws)
  run_op (remove id page requester ws) = ignored (delete_in_workspaces id page requester ws)

  unfoldable pub run_ops : List CommentOp → Comments (Unit {0})
  unfolding run_op
  run_ops [] = pure tt
  run_ops (op ∷ ops) = run_op op >> run_ops ops

  ignored-Keeps : {A : Type 0} (m : Comments A) → Keeps HasThreads m → Keeps HasThreads (ignored m)
  ignored-Keeps m keeps t down h = kept HasThreads m keeps t down h

  run_op-Keeps : (op : CommentOp) → Keeps HasThreads (run_op op)
  unfolding run_op reply_in_workspaces resolve_in_workspaces unresolve_in_workspaces
      delete_in_workspaces
  run_op-Keeps (add id page block author name content) =
      ignored-Keeps (create is_blank id page block author name content)
        (create-Keeps is_blank id page block author name content)
  run_op-Keeps (answer id parent page author name content ws) =
      ignored-Keeps (reply_in_workspaces is_blank id parent page author name content ws) (
        keep_page HasThreads parent page ws (reply is_blank id parent author name content)
          (reply-Keeps is_blank id parent author name content))
  run_op-Keeps (settle id page by ws) =
      ignored-Keeps (resolve_in_workspaces id page by ws)
        (keep_page HasThreads id page ws (resolve id by) (resolve-Keeps id by))
  run_op-Keeps (reopen id page ws) =
      ignored-Keeps (unresolve_in_workspaces id page ws)
        (keep_page HasThreads id page ws (unresolve id) (unresolve-Keeps id))
  run_op-Keeps (remove id page requester ws) =
      ignored-Keeps (delete_in_workspaces id page requester ws)
        (keep_page HasThreads id page ws (delete id requester) (delete-Keeps id requester))

  run_ops-Keeps : (ops : List CommentOp) → Keeps HasThreads (run_ops ops)
  unfolding run_ops
  run_ops-Keeps [] = keep_pure CommentError HasThreads tt
  run_ops-Keeps (op ∷ ops) =
      keep_bind CommentError HasThreads (run_op op) (λ _. run_ops ops) (run_op-Keeps op)
        (λ _. run_ops-Keeps ops)

  -- Along every sequence of the handler's calls, under whatever failures: ids differ, a comment without a parent has
  -- its own thread, and a reply has an older parent that is still there, whose page and thread are its own.
  pub run_ops-HasThreads :
      (ops : List CommentOp) (t : Tables) (down : List Bool)
      → HasThreads t
      → HasThreads (run_ops ops t down).1
  run_ops-HasThreads ops t down h = kept HasThreads (run_ops ops) (run_ops-Keeps ops) t down h
