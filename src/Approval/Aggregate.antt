-- ===== src/Approval/Aggregate.antt =====
-- What the counters of `aggregate` decide.
use talyvor_docs.Prelude.{
  ◌+◌, String, ◌≡◌, refl, ap, ◌∙◌, Bool, true, false, not, ◌&&◌, ◌||◌, List, [], ◌∷◌, arith, ◌==◌,
  eq_iff, if◌then◌else◌, any, all, ltb, eqb,
}
use talyvor_docs.Postgres.Rows.{ReviewDecision, ApprovalStatus}
use talyvor_docs.Approval.{Counts, zero_counts, count_one, count, verdict}

-- The rows of the request.
abbrev pub rejects : String → ReviewDecision → Bool
rejects request d = d.request_id == request && d.decision == "rejected"

abbrev pub approves : String → ReviewDecision → Bool
approves request d = d.request_id == request && d.decision == "approved"

-- A row of another request, or one that approves.
abbrev pub agrees : String → ReviewDecision → Bool
agrees request d = not (d.request_id == request) || d.decision == "approved"

-- The decision of the quorum, read off the rows with no counters.
unfoldable pub quorum : String → List ReviewDecision → ApprovalStatus
unfolding any all
quorum request ds =
    if any (rejects request) ds
    then ApprovalStatus.rejected
    else if all (agrees request) ds && any (approves request) ds
    then ApprovalStatus.approved
    else ApprovalStatus.pending

-- The verdict when the loop is under way with `c`.
abbrev status_from : String → Counts → List ReviewDecision → ApprovalStatus
status_from request c ds =
    if ltb 0 c.rejected || any (rejects request) ds
    then ApprovalStatus.rejected
    else if (eqb c.pending 0 && all (agrees request) ds)
        && (ltb 0 c.approved || any (approves request) ds)
    then ApprovalStatus.approved
    else ApprovalStatus.pending

-- An approval is no rejection.
pub approved-rejected :
    (decision : String) → (decision == "approved") ≡ true → (decision == "rejected") ≡ false
approved-rejected decision e = ap (λ t. t == "rejected") ((eq_iff decision "approved").0 e)

count_one-status_from :
    (request : String) (c : Counts) (d : ReviewDecision) (ds : List ReviewDecision)
    (mine for_it against : Bool)
    → (d.request_id == request) ≡ mine
    → (d.decision == "approved") ≡ for_it
    → (d.decision == "rejected") ≡ against
    → status_from request
        (if mine
          then (if for_it
              then record c { approved = 1 + c.approved }
              else if against
              then record c { rejected = 1 + c.rejected }
              else record c { pending = 1 + c.pending })
          else c)
        ds
      ≡ status_from request c (d ∷ ds)
unfolding any all
count_one-status_from request c d ds false for_it against m y n = ground arith
count_one-status_from request c d ds true true against m y n =
    ground (arith, approved-rejected d.decision y)
count_one-status_from request c d ds true false true m y n = ground arith
count_one-status_from request c d ds true false false m y n = ground arith

count-status_from :
    (request : String) (c : Counts) (ds : List ReviewDecision)
    → verdict (count request c ds) ≡ status_from request c ds
unfolding verdict count any all
count-status_from request c [] = ground arith
count-status_from request c (d ∷ ds) =
    count-status_from request (if d.request_id == request then count_one d.decision c else c) ds
    ∙ count_one-status_from request c d ds _ _ _ refl refl refl

-- The three counters give the quorum rule: rejected when some row of the request rejects. Else
-- approved when there is a row and all of them approve, and pending in all other cases.
pub count-quorum :
    (request : String) (ds : List ReviewDecision)
    → verdict (count request zero_counts ds) ≡ quorum request ds
unfolding quorum
count-quorum request ds = ground (arith, count-status_from request zero_counts ds)
