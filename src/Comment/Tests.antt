-- ===== src/Comment/Tests.antt =====
-- internal/comment/store.go at fixed inputs.
use talyvor_docs.Prelude.{
  String, Bool, true, false, none, List, [], ◌∷◌, ◌≡◌, refl, ◌==◌, map, length, any,
  select as filter,
}
use talyvor_docs.Prelude.Sort.{sort_by}
use talyvor_docs.Postgres.Tables.{among}
use talyvor_docs.Postgres.Run.{ok, refused, failed, Reply}
use talyvor_docs.Comment.{Comment, CommentError, Tables, assert_in_page}
use talyvor_docs.Comment.Listing.{
  CommentStats, Thread, listed, list_by_page, get_stats, is_head, threads_of, find_head,
}
use talyvor_docs.Comment.Filed.{HasThreads}
use talyvor_docs.Comment.Calls.{
  CommentOp, add, answer, settle, remove, run_op, run_ops, run_ops-HasThreads,
}
use talyvor_docs.Comment.Threads.{thread_in, list_by_page-thread_in}

abbrev is_blank : String → Bool
is_blank s = s == ""

abbrev start : Tables
start = record { comments = []; pages = record { id = "p"; workspace_id = "w" } ∷ []; clock = 3 }

-- Ada asks, Bob answers, Ada answers Bob, and Bob settles the thread.
abbrev talk : List CommentOp
talk =
    add "c" "p" none "ada" "Ada" "why?"
    ∷ answer "d" "c" "p" "bob" "Bob" "so" ("w" ∷ [])
    ∷ answer "e" "d" "p" "ada" "Ada" "oh" ("w" ∷ [])
    ∷ settle "e" "p" "bob" ("w" ∷ [])
    ∷ []

abbrev settled_talk : Tables
settled_talk = (run_ops is_blank talk start []).1

abbrev ids : List Comment → List String
ids = map (λ c. c.id)

abbrev shown : Reply CommentError (List Thread) → List (String × List String)
shown (ok entries) = map (λ (e : Thread). (e.head.id, ids e.replies)) entries
shown (refused e) = []
shown failed = []

talk_listed : shown (list_by_page "p" true settled_talk []).0 ≡ (("c", "e" ∷ "d" ∷ []) ∷ [])
unfolding run_ops run_op list_by_page threads_of listed assert_in_page find_head filter sort_by any
    among
talk_listed = refl

-- An answer to a settled thread is not resolved itself, so the listing without resolved comments shows it as a thread.
answered_listed :
    shown
      (list_by_page "p" false
        (run_ops is_blank (answer "f" "c" "p" "eve" "Eve" "but" ("w" ∷ []) ∷ []) settled_talk []).1
        []).0
    ≡ (("f", []) ∷ [])
unfolding run_ops run_op list_by_page threads_of listed assert_in_page find_head filter sort_by any
    among
answered_listed = refl

-- Only the author deletes, and the answers go with the comment.
talk_removed :
    ids (run_ops is_blank (remove "c" "p" "bob" ("w" ∷ []) ∷ []) settled_talk []).1.comments
    ≡ ("e" ∷ "d" ∷ "c" ∷ [])
unfolding run_ops run_op assert_in_page any among
talk_removed = refl

answer_removed :
    ids (run_ops is_blank (remove "d" "p" "bob" ("w" ∷ []) ∷ []) settled_talk []).1.comments
    ≡ ("c" ∷ [])
unfolding run_ops run_op assert_in_page any among
answer_removed = refl

run_ops-HasThreads_example : HasThreads (run_ops is_blank talk start (false ∷ true ∷ [])).1
run_ops-HasThreads_example = run_ops-HasThreads is_blank talk start (false ∷ true ∷ []) tt

list_by_page-thread_in_example :
    let rows = listed "p" true settled_talk.comments in
    let entries = map (thread_in rows) (filter is_head rows) in
    (list_by_page "p" true settled_talk [] ≡ (ok entries, settled_talk, []))
    × ((stats : CommentStats) × (get_stats "p" settled_talk [] ≡ (ok stats, settled_talk, []))
        × (length entries ≡ stats.total))
list_by_page-thread_in_example =
    list_by_page-thread_in "p" settled_talk (run_ops-HasThreads is_blank talk start [] tt)
