-- ===== src/Freshness.antt =====
-- internal/freshness/engine.go: reports on the age of pages, and the daily digest. The links of a page, the
-- issues of Track, the gate on reads, the mailer and the list of workspaces are parameters. Times are
-- nanoseconds, 0 the zero time; the text of a reason is a value.
pub mod Stale
pub mod Tests
use talyvor_docs.Prelude.{
  ℕ, zero, suc, ◌+◌, ◌-◌, ◌*◌, ◌/◌, String, Bool, true, false, not, ◌&&◌, ◌||◌, Option, none, some,
  List, [], ◌∷◌, ◌==◌, if◌then◌else◌, eqb, ltb, leb, select as filter,
}
use talyvor_docs.Postgres.Run.{Reply, ok, refused, failed, Run, pure, ◌>>=◌}
use talyvor_docs.Page.{PageRow, Tables, Pages, PageError}
use talyvor_docs.Page.Update.{get_by_id}
use talyvor_docs.Page.Stale.{day, get_stale_pages}

pub data FreshnessStatus : Type 0 where
  fresh warning stale unknown : FreshnessStatus

pub data Reason : Type 0 where
  no_reason : Reason
  not_updated last_update : ℕ → ℕ → Reason
  issues_completed : ℕ → Reason
  also_completed : Reason → ℕ → Reason

pub record FreshnessReport : Type 0 where
  pub page_id : String
  pub space_id : String
  pub title : String
  pub status : FreshnessStatus
  pub days_since_edit : ℕ
  pub days_since_verify : Option ℕ
  pub stale_after_days : ℕ
  pub verified_by : Option String
  pub linked_issues_closed : ℕ
  pub suggest_review : Bool
  pub reason : Reason
  pub updated_at : ℕ

pub record DigestSummary : Type 0 where
  pub workspace_id : String
  pub stale_pages : ℕ
  pub warning_pages : ℕ
  pub mailed : ℕ

-- `daysBetween`
unfoldable pub days_between : ℕ → ℕ → ℕ
days_between from to = if eqb from 0 || eqb to 0 then 0 else (to - from) / day

-- `isClosed`
abbrev pub is_closed : String → Bool
is_closed status = status == "done" || status == "cancelled"

-- The fresher of the edit and the verification.
abbrev pub effective : ℕ → Option ℕ → ℕ
effective updated none = updated
effective updated (some verified) = if ltb updated verified then verified else updated

abbrev pub classify : ℕ → ℕ → FreshnessStatus × Reason
classify days ttl =
    if eqb ttl 0
    then (unknown, no_reason)
    else if leb ttl days
    then (stale, not_updated days ttl)
    else if leb ttl (2 * days)
    then (warning, last_update days ttl)
    else (fresh, no_reason)

abbrev pub add_closed : Reason → ℕ → Reason
add_closed no_reason closed = issues_completed closed
add_closed reason closed = also_completed reason closed

abbrev pub days_verified : ℕ → Option ℕ → Option ℕ
days_verified now none = none
days_verified now (some verified) = some (days_between verified now)

abbrev pub with_closed : ℕ → FreshnessReport → FreshnessReport
with_closed closed r =
    if ltb 0 closed
    then record r {
      linked_issues_closed = closed;
      suggest_review = true;
      reason = add_closed r.reason closed;
    }
    else r

abbrev pub closed_status : Option String → Bool
closed_status none = false
closed_status (some status) = is_closed status

-- The linked issues of a page that are closed; `issue` is the status that Track gives.
unfoldable pub count_closed : (String → Option String) → List String → ℕ
count_closed issue [] = 0
count_closed issue (id ∷ ids) =
    let rest = count_closed issue ids in if closed_status (issue id) then suc rest else rest

-- `statusRank`
abbrev pub status_rank : FreshnessStatus → ℕ
status_rank stale = 3
status_rank warning = 2
status_rank fresh = 1
status_rank unknown = 0

-- The order of the report: the worse status first, then the older page.
abbrev pub comes_before : FreshnessReport → FreshnessReport → Bool
comes_before a b =
    if not (eqb (status_rank a.status) (status_rank b.status))
    then ltb (status_rank b.status) (status_rank a.status)
    else ltb b.days_since_edit a.days_since_edit

-- sort.SliceStable
unfoldable pub insert_report : FreshnessReport → List FreshnessReport → List FreshnessReport
insert_report r [] = r ∷ []
insert_report r (s ∷ reports) =
    let rest = insert_report r reports in if comes_before s r then s ∷ rest else r ∷ s ∷ reports

unfoldable pub sort_reports : List FreshnessReport → List FreshnessReport
unfolding insert_report
sort_reports [] = []
sort_reports (r ∷ reports) = insert_report r (sort_reports reports)

-- `untilNext9amUTC`
unfoldable pub until_next_9am : ℕ → ℕ
until_next_9am now =
    let target = now / day * day + 9 * 3600000000000 in
    (if ltb now target then target else target + day) - now

abbrev pub count_statuses : List FreshnessReport → ℕ × ℕ × List String
count_statuses [] = (0, 0, [])
count_statuses (r ∷ reports) =
    let (stales, warnings, ids) = count_statuses reports in
    elim r.status [
      | fresh ↦ (stales, warnings, ids)
      | warning ↦ (stales, suc warnings, ids)
      | stale ↦ (suc stales, warnings, r.page_id ∷ ids)
      | unknown ↦ (stales, warnings, ids)
    ]

-- `links` gives the issues of a page, and `issue` the status of an issue of a workspace.
module _ (track : Bool) (links : String → Option (List String))
    (issue : String → String → Option String) where
  abbrev pub closed_issues : PageRow → Option (List String) → ℕ
  closed_issues p none = 0
  closed_issues p (some ids) = if track then count_closed (issue p.workspace_id) ids else 0

  -- `buildReport`
  unfoldable pub build_report : ℕ → PageRow → FreshnessReport
  unfolding days_between count_closed
  build_report now p =
      let days = days_between (effective p.updated_at p.last_verified_at) now in
      let (status, reason) = classify days p.stale_after_days in
      with_closed (closed_issues p (links p.id)) (record {
        page_id = p.id;
        space_id = p.space_id;
        title = p.title;
        status = status;
        days_since_edit = days;
        days_since_verify = days_verified now p.last_verified_at;
        stale_after_days = p.stale_after_days;
        verified_by = p.verified_by;
        linked_issues_closed = 0;
        suggest_review = false;
        reason = reason;
        updated_at = p.updated_at;
      })

  -- `GetStatus`
  unfoldable pub get_status : ℕ → String → Pages FreshnessReport
  unfolding get_by_id build_report
  get_status now page = do p ← get_by_id page; pure (build_report now p)

  unfoldable pub build_reports : ℕ → List PageRow → List FreshnessReport
  unfolding build_report
  build_reports now [] = []
  build_reports now (p ∷ pages) = build_report now p ∷ build_reports now pages

  -- `staleReportAll`
  unfoldable pub stale_report_all : ℕ → String → Pages (List FreshnessReport)
  unfolding get_stale_pages build_reports sort_reports
  stale_report_all now workspace = do
    pages ← get_stale_pages workspace
    pure (sort_reports (build_reports now pages))

  -- `GetStaleReport`: nothing where no gate is wired, which is ErrNoPageReadGate.
  unfoldable pub get_stale_report :
      Option (String → Bool × Bool) → ℕ → String → Option (Pages (List FreshnessReport))
  unfolding stale_report_all
  get_stale_report none now workspace = none
  get_stale_report (some access) now workspace = some do
    all ← stale_report_all now workspace
    pure (filter (λ r. (access r.page_id).0 && (access r.page_id).1) all)

  abbrev pub with_mail : DigestSummary → Option ℕ → DigestSummary
  with_mail d none = d
  with_mail d (some n) = record d { mailed = n }

  -- `QueueStaleDigest` of a mailer: how many mails it queued.
  abbrev pub Mailer : Type 0
  Mailer = Option (String → List String → Reply PageError ℕ)

  abbrev pub queue_mails : Mailer → String → List String → Pages (Option ℕ)
  queue_mails none workspace ids t down = (ok none, t, down)
  queue_mails (some queue) workspace ids t down = elim (queue workspace ids) [
    | ok n ↦ (ok (some n), t, down)
    | refused e ↦ (refused e, t, down)
    | failed ↦ (failed, t, down)
  ]

  abbrev pub summary : String → ℕ × ℕ × List String → DigestSummary
  summary workspace (stales, warnings, ids) = record {
    workspace_id = workspace;
    stale_pages = stales;
    warning_pages = warnings;
    mailed = 0;
  }

  -- `digestOne`
  unfoldable pub digest_one : Mailer → ℕ → String → Pages DigestSummary
  unfolding stale_report_all
  digest_one mailer now workspace = do
    reports ← stale_report_all now workspace
    mailed ← queue_mails mailer workspace (count_statuses reports).2
    pure (with_mail (summary workspace (count_statuses reports)) mailed)

  abbrev pub with_digest : Reply PageError DigestSummary → List DigestSummary → List DigestSummary
  with_digest (ok d) rest = d ∷ rest
  with_digest (refused e) rest = rest
  with_digest failed rest = rest

  -- The loop of `SendStaleDigestAll`: a workspace that fails is left out.
  unfoldable pub digest_each : Mailer → ℕ → List String → Tables → List Bool → List DigestSummary
  unfolding digest_one
  digest_each mailer now [] t down = []
  digest_each mailer now (workspace ∷ workspaces) t down =
      let (r, t', down') = digest_one mailer now workspace t down in
      with_digest r (digest_each mailer now workspaces t' down')
