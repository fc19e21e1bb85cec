-- ===== src/Collab/Tests.antt =====
-- The theorems of the collaboration engine at small documents, pages and clients.
use mathlib.Core.Bool.{false≢true}
use mathlib.Core.List.{foldl}
use talyvor_docs.Prelude.{
  ◌≤◌, ap, ℕ, ◌+◌, String, ◌≡◌, refl, true, not, ◌&&◌, none, some, List, [], ◌∷◌, ◌++◌, arith,
  length, drop, ◌==◌, get_elem?, if◌then◌else◌,
}
use talyvor_docs.Prelude.Int.{pos}
use talyvor_docs.Prelude.Map
use talyvor_docs.Collab.Types.{Op, OpType, Change, CollabClient, PageState, OtEngine}
use talyvor_docs.Collab.Transform.{transform_op, transform}
use talyvor_docs.Collab.Transform.Track.{put, edit_all, transform_op-track}
use talyvor_docs.Collab.Engine.{
  mark_saved, apply, page_state, new_engine, snapshot, join, admit, dirty_pages, unsaved_snapshot,
}
use talyvor_docs.Collab.Engine.Log.{Holds, apply-log}
use talyvor_docs.Collab.Engine.Author.{apply-join_author}
use talyvor_docs.Collab.Saver.{SaveFunc, flush, install}
use talyvor_docs.Collab.Saver.Durable.{Storage, Event, step}
use talyvor_docs.Collab.Saver.Stored.{IsStored, run-IsStored}
use talyvor_docs.Collab.Handler.{Gates, dispatch, change, answer}
use talyvor_docs.Collab.Handler.Gate.{has_tier, denied, dispatch-change}

abbrev ins_x : Op
ins_x = record { type = OpType.insert; pos = pos 0; content = "x"; length = pos 0 }

abbrev ins_y : Op
ins_y = record { type = OpType.insert; pos = pos 1; content = "y"; length = pos 0 }

abbrev doc : List ℕ
doc = 10 ∷ 11 ∷ 12 ∷ []

abbrev nine : List ℕ
nine = 9 ∷ []

abbrev eight : List ℕ
eight = 8 ∷ []

transform_op-track_example :
    ((transform_op (ins_x ∷ []) ins_y).pos ≡ pos 2)
    × (get_elem? (edit_all (put 0 (9 ∷ []) ∷ []) doc) 2 ≡ get_elem? doc 1)
transform_op-track_example =
    transform_op-track ins_y (ins_x ∷ []) (put 0 (9 ∷ []) ∷ []) doc 1 2 ((refl, refl, refl), tt)
      ((ground arith, ground arith), tt) (ground arith) refl refl

abbrev typed : String → ℕ → List Op → String → Change
typed client version ops text = record {
  id = "c";
  page_id = "p";
  client_id = client;
  version = version;
  ops = ops;
  snapshot = text;
  timestamp = 0;
}

-- The page after one insert by Ada, who is connected.
abbrev logged : Change
logged = typed "a" 1 (ins_x ∷ []) "x"

abbrev ada : CollabClient
ada = record {
  id = "a";
  member_id = "ada";
  member_name = "Ada";
  cursor = none;
  color = 0;
  send = 0;
}

abbrev written : PageState
written = record {
  version = 1;
  history = logged ∷ [];
  snapshot = "x";
  snapshot_by = "ada";
  saved_version = 0;
  clients = ("a", ada) ∷ [];
}

abbrev busy : OtEngine
busy = record { pages = ("p", written) ∷ []; on_idle = true; channels = [] }

apply-log_example :
    let out : OtEngine × Change = apply 7 busy "p" (typed "a" 0 (ins_y ∷ []) "xy") in
    let merged : Change = foldl transform (typed "a" 0 (ins_y ∷ []) "xy") (drop 0 (logged ∷ [])) in
    (out.1 ≡ record merged { version = length (logged ∷ []) + 1; timestamp = 7 })
    × Holds ((logged ∷ []) ++ out.1 ∷ []) (page_state out.0 "p")
    × ((other : String)
        → Map.lookup other out.0.pages
          ≡ (if "p" == other then some (page_state out.0 "p") else Map.lookup other busy.pages))
unfolding page_state Map.lookup
apply-log_example =
    apply-log 7 (logged ∷ []) busy "p" (typed "a" 0 (ins_y ∷ []) "xy")
      (record { version = refl; numbered = (refl, tt); history = refl }) (ground arith)

-- Bob joins under Ada's client id, and the next change of Ada's socket is saved as his.
abbrev taken_over : OtEngine × CollabClient
taken_over = admit busy "p" "a" "bob" "Bob"

apply-join_author_example :
    snapshot (apply 7 taken_over.0 "p" (typed "a" 1 [] "xy")).0 "p"
    ≡ ("xy", (page_state busy "p").version + 1, "bob")
unfolding join
apply-join_author_example =
    apply-join_author 7 busy taken_over.0 "p" "a" "bob" "Bob" taken_over.1 (typed "a" 1 [] "xy")
      refl refl (λ e. false≢true (ap (λ t. t == "") e))

-- A database, its saves, and one that is down.
abbrev saves : SaveFunc
saves = record {
  Db = Map.Map (String × String);
  save = λ db page content member. some (Map.insert page (content, member) db);
}

abbrev down : SaveFunc
down = record { Db = Unit {0}; save = λ db page content member. none }

stored_saves :
    (db db' : Map.Map (String × String)) (page content member other : String)
    → saves.save db page content member ≡ some db'
    → Map.lookup other db' ≡ (if page == other then some (content, member) else Map.lookup other db)
stored_saves db db' page content member other e =
    let q : Map.insert page (content, member) db ≡ db' = cc in
    rw (← q) (Map.lookup-insert page other (content, member) db)

abbrev storage : Storage saves
storage = record { stored = λ db page. Map.lookup page db; stored-save = stored_saves }

abbrev visit : List (Event saves storage)
visit =
    Event.joins "p" "a" "ada" "Ada" ∷ Event.changes 3 "p" (typed "a" 0 [] "x") ∷ Event.flushes ∷ []

abbrev visited : OtEngine × Map.Map (String × String)
visited = foldl (step saves storage) (install new_engine, []) visit

run-IsStored_example :
    ((page_state visited.0 "p").saved_version ≤ (page_state visited.0 "p").version)
    × IsStored saves storage visited.1 "p" (page_state visited.0 "p")
unfolding page_state Map.lookup step flush dirty_pages apply Map.insert join install
    unsaved_snapshot mark_saved
run-IsStored_example = run-IsStored saves storage [] visit "p" (page_state visited.0 "p") refl

abbrev gates : Gates
gates = record {
  resolve = some (λ page. page == "p");
  guard = some (λ page member. answer (member == "ada") "Locked by ada");
}

dispatch-change_example : (dispatch 7 gates busy "p" ada true (change (some logged))).pages ≡ (
    if has_tier gates true "p" && not (denied gates "p" "ada")
    then (apply 7 busy "p" (record logged { client_id = "a"; page_id = "p" })).0.pages
    else busy.pages)
dispatch-change_example = dispatch-change 7 gates busy "p" ada true logged
