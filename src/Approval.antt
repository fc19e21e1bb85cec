-- ===== src/Approval.antt =====
-- internal/approval/store.go: requests for approval, the reviewers' decisions, and the status of the
-- page. A store has a pool here. The id of a new request, which the database generates, is an argument.
pub mod Aggregate
pub mod Decide
pub mod Inbox
use talyvor_docs.Prelude.{
  ℕ, ◌+◌, String, Bool, true, false, not, ◌&&◌, ◌||◌, Option, none, some, List, [], ◌∷◌, ◌==◌,
  if◌then◌else◌, eqb, ltb, select as filter, any, ◌++◌,
}
use talyvor_docs.Postgres.Rows.{
  Db, PageRow, DocStatus, ApprovalRequest, ApprovalStatus, ReviewDecision,
}
use talyvor_docs.Postgres.Sql.{
  Sql, Result, pure, raise, ◌>>=◌, ◌>>◌, statement, select, not_found, no_rows, no_reviewers,
  not_reviewer, not_approved, invalid_decision,
}
use talyvor_docs.Postgres.Tables.{page_in, find_page, update_page, among}

-- An inbox row: the request and the space of its page.
pub record PendingItem : Type 0 where
  pub request : ApprovalRequest
  pub space_id : String

-- `validDecisions`
unfoldable pub is_valid : String → Bool
is_valid decision = decision == "approved" || decision == "rejected"

abbrev pub is_pending : ApprovalStatus → Bool
is_pending ApprovalStatus.pending = true
is_pending _ = false

abbrev pub set_doc : DocStatus → PageRow → PageRow
set_doc status r = record r { doc_status = status }

-- UPDATE pages SET doc_status = $1 WHERE id = $2
unfoldable pub write_status : DocStatus → String → Sql (Unit {0})
unfolding statement
write_status status page =
    statement λ db. (tt, record db { pages = update_page page (set_doc status) db.pages })

-- The row that `set_status` writes, in the caller's workspaces only.
abbrev pub set_doc_in : List String → DocStatus → PageRow → PageRow
set_doc_in workspaces status r = record r {
  doc_status = if among workspaces r.workspace_id then status else r.doc_status;
}

-- UPDATE pages SET doc_status = $1 WHERE id = $2 AND workspace_id = ANY($3)
unfoldable pub set_status : String → DocStatus → List String → Sql (Unit {0})
unfolding statement
set_status page status workspaces =
    statement
      λ db. (tt, record db { pages = update_page page (set_doc_in workspaces status) db.pages })

abbrev pub new_request :
    String → String → String → String → List String → String → Option ℕ → ℕ → ApprovalRequest
new_request id page workspace by reviewers message due now = record {
  id = id;
  page_id = page;
  workspace_id = workspace;
  requested_by = by;
  reviewers = reviewers;
  message = message;
  due_date = due;
  status = ApprovalStatus.pending;
  created_at = now;
  updated_at = now;
}

abbrev pub is_of : String → String → ReviewDecision → Bool
is_of request reviewer d = d.request_id == request && d.reviewer_id == reviewer

abbrev pub new_decision : String → String → ReviewDecision
new_decision request reviewer = record {
  request_id = request;
  reviewer_id = reviewer;
  decision = "pending";
  comment = "";
}

-- INSERT … ON CONFLICT (request_id, reviewer_id) DO NOTHING
unfoldable pub add_decision : String → String → List ReviewDecision → List ReviewDecision
add_decision request reviewer [] = new_decision request reviewer ∷ []
add_decision request reviewer (d ∷ rows) =
    if is_of request reviewer d then d ∷ rows else d ∷ add_decision request reviewer rows

unfoldable pub seed : String → List String → Sql (Unit {0})
unfolding statement
seed request [] = pure tt
seed request (r ∷ reviewers) = do
  statement λ db. (tt, record db { decisions = add_decision request r db.decisions })
  seed request reviewers

unfoldable pub insert_request : ApprovalRequest → Sql ApprovalRequest
unfolding statement
insert_request req = statement λ db. (req, record db { requests = req ∷ db.requests })

abbrev pub has_page : String → Db → Bool
has_page page db = elim (find_page page db.pages) [ none ↦ false | some r ↦ true ]

abbrev pub is_empty : List String → Bool
is_empty [] = true
is_empty _ = false

unfoldable pub now : Sql ℕ
now db = (Result.ok db.clock, db)

unfoldable pub request_approval :
    String → String → String → String → List String → String → Option ℕ → Sql ApprovalRequest
unfolding select insert_request seed write_status now
request_approval id page workspace by reviewers message due =
    if is_empty reviewers then raise no_reviewers else do
      there ← select (has_page page)
      if there
          then (do
            t ← now
            req ← insert_request (new_request id page workspace by reviewers message due t)
            seed id reviewers
            write_status DocStatus.in_review page
            pure req)
          else raise no_rows

unfoldable pub request_approval_in_workspaces :
    String
    → String
    → String
    → String
    → List String
    → String
    → Option ℕ
    → List String
    → Sql ApprovalRequest
unfolding select request_approval
request_approval_in_workspaces id page workspace by reviewers message due workspaces = do
  exists ← select (λ db. page_in page workspaces db.pages)
  if exists then request_approval id page workspace by reviewers message due else raise not_found

-- The counters of `aggregate`: approved, rejected and pending.
pub record Counts : Type 0 where
  pub approved : ℕ
  pub rejected : ℕ
  pub pending : ℕ

abbrev pub zero_counts : Counts
zero_counts = record { approved = 0; rejected = 0; pending = 0 }

abbrev pub count_one : String → Counts → Counts
count_one decision c =
    if decision == "approved"
    then record c { approved = 1 + c.approved }
    else if decision == "rejected"
    then record c { rejected = 1 + c.rejected }
    else record c { pending = 1 + c.pending }

-- The loop over the rows.
unfoldable pub count : String → Counts → List ReviewDecision → Counts
count request c [] = c
count request c (d ∷ rows) =
    count request (if d.request_id == request then count_one d.decision c else c) rows

unfoldable pub verdict : Counts → ApprovalStatus
verdict c =
    if ltb 0 c.rejected
    then ApprovalStatus.rejected
    else if eqb c.pending 0 && ltb 0 c.approved
    then ApprovalStatus.approved
    else ApprovalStatus.pending

unfoldable pub aggregate : String → Sql ApprovalStatus
unfolding select verdict
aggregate request = select (λ db. verdict (count request zero_counts db.decisions))

-- SELECT EXISTS(SELECT 1 FROM approval_requests WHERE id = $1 AND page_id = $2 AND workspace_id = ANY($3))
unfoldable pub request_in : String → String → List String → List ApprovalRequest → Bool
request_in request page workspaces [] = false
request_in request page workspaces (r ∷ rows) =
    if r.id == request && r.page_id == page && among workspaces r.workspace_id
    then true
    else request_in request page workspaces rows

-- UPDATE review_decisions SET decision = $1, comment = $2 WHERE request_id = $3 AND reviewer_id = $4
unfoldable pub set_decision :
    String → String → String → String → List ReviewDecision → List ReviewDecision
set_decision request reviewer decision comment [] = []
set_decision request reviewer decision comment (d ∷ rows) =
    (if is_of request reviewer d then record d { decision = decision; comment = comment } else d)
    ∷ set_decision request reviewer decision comment rows

-- Its row count is not 0.
unfoldable pub is_reviewer : String → String → List ReviewDecision → Bool
is_reviewer request reviewer [] = false
is_reviewer request reviewer (d ∷ rows) =
    if is_of request reviewer d then true else is_reviewer request reviewer rows

unfoldable pub update_decision : String → String → String → String → Sql Bool
unfolding statement
update_decision request reviewer decision comment = statement λ db. (
  is_reviewer request reviewer db.decisions,
  record db { decisions = set_decision request reviewer decision comment db.decisions },
)

-- UPDATE approval_requests SET status = $1, updated_at = NOW() WHERE id = $2
unfoldable pub set_request :
    String → ApprovalStatus → ℕ → List ApprovalRequest → List ApprovalRequest
set_request request status t [] = []
set_request request status t (r ∷ rows) =
    (if r.id == request then record r { status = status; updated_at = t } else r)
    ∷ set_request request status t rows

unfoldable pub update_request : String → ApprovalStatus → Sql (Unit {0})
unfolding statement
update_request request status =
    statement λ db. (tt, record db { requests = set_request request status db.clock db.requests })

abbrev pub next_doc : ApprovalStatus → DocStatus
next_doc ApprovalStatus.approved = DocStatus.approved
next_doc _ = DocStatus.rejected

-- The write half, after the aggregate.
unfoldable pub finish : String → String → ApprovalStatus → Sql (Unit {0})
unfolding update_request write_status
finish request page agg =
    if is_pending agg
    then pure tt
    else do update_request request agg; write_status (next_doc agg) page

unfoldable pub decide : String → String → String → String → String → List String → Sql (Unit {0})
unfolding select update_decision aggregate finish
decide request page reviewer decision comment workspaces =
    if not (is_valid decision) then raise (invalid_decision decision) else do
      there ← select (λ db. request_in request page workspaces db.requests)
      if not there then raise not_found else do
        wrote ← update_decision request reviewer decision comment
        if not wrote
            then raise not_reviewer
            else do agg ← aggregate request; finish request page agg

unfoldable pub page_in_workspaces : String → List String → Sql Bool
unfolding select
page_in_workspaces page workspaces = select (λ db. page_in page workspaces db.pages)

abbrev pub first_or_not_found : List ApprovalRequest → Sql ApprovalRequest
first_or_not_found [] = raise not_found
first_or_not_found (r ∷ rows) = pure r

unfoldable pub get_request : String → List String → Sql ApprovalRequest
unfolding select
get_request request workspaces = do
  rows ← select (λ db. filter (λ r. r.id == request && among workspaces r.workspace_id) db.requests)
  first_or_not_found rows

unfoldable pub get_decisions : String → List String → Sql (List ReviewDecision)
unfolding select
get_decisions request workspaces = select λ db.
    if any (λ r. r.id == request && among workspaces r.workspace_id) db.requests
    then filter (λ d. d.request_id == request) db.decisions
    else []

unfoldable pub list_by_page : String → List String → Sql (List ApprovalRequest)
unfolding select
list_by_page page workspaces = select λ db.
    if page_in page workspaces db.pages then filter (λ r. r.page_id == page) db.requests else []

-- The joined rows of a request: one for each pending decision of the reviewer on it.
unfoldable pub items_of :
    ApprovalRequest → Option PageRow → String → List ReviewDecision → List PendingItem
items_of r none reviewer ds = []
items_of r (some p) reviewer [] = []
items_of r (some p) reviewer (d ∷ ds) =
    let rest = items_of r (some p) reviewer ds in
    if is_of r.id reviewer d && d.decision == "pending"
    then record { request = r; space_id = p.space_id } ∷ rest
    else rest

-- The newest request stands first.
unfoldable pub pending_items :
    String
    → List String
    → List PageRow
    → List ReviewDecision
    → List ApprovalRequest
    → List PendingItem
unfolding items_of
pending_items reviewer workspaces pages ds [] = []
pending_items reviewer workspaces pages ds (r ∷ rows) =
    let rest = pending_items reviewer workspaces pages ds rows in
    if among workspaces r.workspace_id && is_pending r.status
    then items_of r (find_page r.page_id pages) reviewer ds ++ rest
    else rest

unfoldable pub list_pending : String → List String → Sql (List PendingItem)
unfolding select
list_pending reviewer workspaces =
    select (λ db. pending_items reviewer workspaces db.pages db.decisions db.requests)

abbrev pub is_approved : DocStatus → Bool
is_approved DocStatus.approved = true
is_approved _ = false

abbrev pub status_in : List String → Option PageRow → Sql DocStatus
status_in workspaces none = raise not_found
status_in workspaces (some r) =
    if among workspaces r.workspace_id then pure r.doc_status else raise not_found

unfoldable pub publish_approved : String → List String → Sql (Unit {0})
unfolding select set_status
publish_approved page workspaces = do
  row ← select (λ db. find_page page db.pages)
  status ← status_in workspaces row
  if is_approved status then set_status page DocStatus.approved workspaces else raise not_approved
