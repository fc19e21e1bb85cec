-- ===== src/Freshness/Stale.antt =====
-- What the stale report holds.
use talyvor_docs.Prelude.{
  ℕ, ◌+◌, ◌-◌, ◌*◌, ◌/◌, ◌≤◌, ◌<◌, String, ◌≡◌, refl, ◌∙◌, Bool, true, false, ◌&&◌, ◌||◌, Option,
  none, some, List, [], ◌∷◌, arith, eqb, ltb, leb, select as filter, Bool-cases, inl, inr, all,
}
use talyvor_docs.Postgres.Run.{Reply, ok, refused, failed, select, statement}
use talyvor_docs.Page.{PageRow, Tables, PageError}
use talyvor_docs.Page.Stale.{
  day, is_stale, verified_before, insert_by_update, order_by_update, get_stale_pages,
}
use talyvor_docs.Freshness.{
  FreshnessReport, days_between, effective, classify, build_report, build_reports, insert_report,
  sort_reports, stale_report_all, until_next_9am, stale, with_closed, closed_issues, status_rank,
}

-- The digest is never due at once, and at most a day away.
pub until_next_9am_bounds : (now : ℕ) → (0 < until_next_9am now) × (until_next_9am now ≤ day)
unfolding until_next_9am
until_next_9am_bounds now = elim (Bool-cases (ltb now (now / day * day + 9 * 3600000000000))) [
  | inl before ↦ rw before (ground (arith, before), omega arith)
  | inr after ↦ rw after (omega arith, ground (arith, after))
]

days-stale :
    (updated ttl now later : ℕ)
    → ltb (updated + day * ttl) now ≡ true
    → ttl ≤ (now + later - updated) / day
days-stale updated ttl now later old =
    let past : updated + day * ttl < now = ground (arith, old) in omega (arith, past)

abbrev pub is_stale_report : FreshnessReport → Bool
is_stale_report r = eqb (status_rank r.status) 3

status-with_closed : (closed : ℕ) (r : FreshnessReport) → (with_closed closed r).status ≡ r.status
status-with_closed closed r = elim (Bool-cases (ltb 0 closed)) [
  | inl some_closed ↦ rw some_closed refl
  | inr nothing ↦ rw nothing refl
]

classify-stale :
    (days ttl : ℕ) → ltb 0 ttl ≡ true → leb ttl days ≡ true → (classify days ttl).0 ≡ stale
classify-stale days ttl set over =
    let positive : eqb ttl 0 ≡ false = ground (arith, set) in rw (positive, over) refl

days_between-stale :
    (from ttl now later : ℕ)
    → ltb 0 from ≡ true
    → ltb (from + day * ttl) now ≡ true
    → leb ttl (days_between from (now + later)) ≡ true
unfolding days_between
days_between-stale from ttl now later dated old =
    let known : (eqb from 0 || eqb (now + later) 0) ≡ false = ground (arith, dated, old) in
    rw known (ground (arith, days-stale from ttl now later old))

effective-stale :
    (updated ttl now : ℕ) (verified : Option ℕ)
    → ltb 0 updated ≡ true
    → ltb (updated + day * ttl) now ≡ true
    → verified_before now ttl verified ≡ true
    → (ltb 0 (effective updated verified) ≡ true)
      × (ltb (effective updated verified + day * ttl) now ≡ true)
effective-stale updated ttl now none dated old before = (dated, old)
effective-stale updated ttl now (some verified) dated old before =
    elim (Bool-cases (ltb updated verified)) [
      | inl fresher ↦ rw fresher (ground (arith, dated, fresher), before)
      | inr older ↦ rw older (dated, old)
    ]

build_report-stale :
    (track : Bool) (links : String → Option (List String)) (issue : String → String → Option String)
    (now later : ℕ) (workspace : String) (p : PageRow)
    → is_stale workspace now p ≡ true
    → ltb 0 p.updated_at ≡ true
    → is_stale_report (build_report track links issue (now + later) p) ≡ true
unfolding build_report
build_report-stale track links issue now later workspace p old dated =
    let (known, past) =
      effective-stale p.updated_at p.stale_after_days now p.last_verified_at dated
        (ground (arith, old)) (ground (arith, old)) in
    rw (status-with_closed (closed_issues track links issue p (links p.id)) _) (
      rw
        (classify-stale (days_between (effective p.updated_at p.last_verified_at) (now + later))
          p.stale_after_days (ground (arith, old))
          (days_between-stale (effective p.updated_at p.last_verified_at) p.stale_after_days now
            later known past))
        refl)

-- What holds for all rows holds for them in another order.
all-insert_by_update :
    (p : PageRow → Bool) (r : PageRow) (rows : List PageRow)
    → all p (insert_by_update r rows) ≡ (p r && all p rows)
unfolding insert_by_update all
all-insert_by_update p r [] = refl
all-insert_by_update p r (s ∷ rows) = ground (arith, all-insert_by_update p r rows)

all-order_by_update :
    (p : PageRow → Bool) (rows : List PageRow) → all p (order_by_update rows) ≡ all p rows
unfolding order_by_update all
all-order_by_update p [] = refl
all-order_by_update p (r ∷ rows) =
    ground (arith, all-order_by_update p rows, all-insert_by_update p r (order_by_update rows))

all-insert_report :
    (p : FreshnessReport → Bool) (r : FreshnessReport) (rs : List FreshnessReport)
    → all p (insert_report r rs) ≡ (p r && all p rs)
unfolding insert_report all
all-insert_report p r [] = refl
all-insert_report p r (s ∷ rs) = ground (arith, all-insert_report p r rs)

all-sort_reports :
    (p : FreshnessReport → Bool) (rs : List FreshnessReport) → all p (sort_reports rs) ≡ all p rs
unfolding sort_reports all
all-sort_reports p [] = refl
all-sort_reports p (r ∷ rs) =
    ground (arith, all-sort_reports p rs, all-insert_report p r (sort_reports rs))

all-filter :
    (p kept : FreshnessReport → Bool) (rs : List FreshnessReport)
    → all p rs ≡ true
    → all p (filter kept rs) ≡ true
unfolding filter all
all-filter p kept [] h = refl
all-filter p kept (r ∷ rs) h = ground (arith, h, all-filter p kept rs)

abbrev pub is_dated : PageRow → Bool
is_dated r = ltb 0 r.updated_at

all-stale :
    (workspace : String) (now : ℕ) (rows : List PageRow)
    → all is_dated rows ≡ true
    → all (λ r. is_stale workspace now r && is_dated r) (filter (is_stale workspace now) rows)
      ≡ true
unfolding filter all
all-stale workspace now [] dated = refl
all-stale workspace now (r ∷ rows) dated = ground (arith, dated, all-stale workspace now rows)

module _ (track : Bool) (links : String → Option (List String))
    (issue : String → String → Option String) where
  all-build_reports :
      (now later : ℕ) (workspace : String) (rows : List PageRow)
      → all (λ r. is_stale workspace now r && is_dated r) rows ≡ true
      → all is_stale_report (build_reports track links issue (now + later) rows) ≡ true
  unfolding build_reports all
  all-build_reports now later workspace [] h = refl
  all-build_reports now later workspace (r ∷ rows) h =
      let old : is_stale workspace now r ≡ true = ground (arith, h) in
      let dated : is_dated r ≡ true = ground (arith, h) in
      rw (build_report-stale track links issue now later workspace r old dated)
        (all-build_reports now later workspace rows (ground (arith, h)))

  abbrev pub only_stale : Reply PageError (List FreshnessReport) → Bool
  only_stale (ok rs) = all is_stale_report rs
  only_stale (refused e) = true
  only_stale failed = true

  rows-stale :
      (later : ℕ) (workspace : String) (t : Tables)
      → all is_dated t.pages ≡ true
      → all is_stale_report (
          sort_reports (
            build_reports track links issue
              (t.clock + later)
              (order_by_update (filter (is_stale workspace t.clock) t.pages))))
        ≡ true
  rows-stale later workspace t dated =
      let rows : List PageRow = filter (is_stale workspace t.clock) t.pages in
      all-sort_reports is_stale_report
        (build_reports track links issue (t.clock + later) (order_by_update rows))
      ∙ all-build_reports t.clock later workspace (order_by_update rows) (
          all-order_by_update (λ r. is_stale workspace t.clock r && is_dated r) rows
          ∙ all-stale workspace t.clock t.pages dated)

  -- Every page in the stale report is `stale`: no page that is only near its limit is there, and none whose issues
  -- alone are closed. The report is made at the query's time or later, no page has the zero time, and the
  -- statement may fail.
  pub stale_report_all-stale :
      (later : ℕ) (workspace : String) (t : Tables) (down : List Bool)
      → all is_dated t.pages ≡ true
      → only_stale (stale_report_all track links issue (t.clock + later) workspace t down).0 ≡ true
  unfolding stale_report_all get_stale_pages select statement
  stale_report_all-stale later workspace t [] dated = rows-stale later workspace t dated
  stale_report_all-stale later workspace t (true ∷ down) dated = refl
  stale_report_all-stale later workspace t (false ∷ down) dated = rows-stale later workspace t dated
