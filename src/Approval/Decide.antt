-- ===== src/Approval/Decide.antt =====
-- What a decision changes.
use talyvor_docs.Prelude.{
  String, ◌≡◌, refl, sym, Bool, true, false, not, Option, none, some, List, [], ◌∷◌, arith,
  if◌then◌else◌,
}
use talyvor_docs.Postgres.Rows.{Db, PageRow, ReviewDecision, ApprovalStatus, DocStatus}
use talyvor_docs.Postgres.Sql.{
  err, not_found, not_reviewer, invalid_decision, Result, After, select, ensure_bind, ensure_guard,
  ensure_statement,
}
use talyvor_docs.Postgres.Tables.{find_page, find_page-update_page}
use talyvor_docs.Approval.{
  decide, update_decision, is_reviewer, set_decision, set_doc, is_approved, aggregate, finish,
  is_valid, request_in,
}
use talyvor_docs.Approval.Aggregate.{quorum, count-quorum}

-- The refusals of `Decide`.
abbrev pub refuses : Result (Unit {0}) → Bool
refuses (err (invalid_decision d)) = true
refuses (err not_found) = true
refuses (err not_reviewer) = true
refuses _ = false

-- An update of a decision that is not there.
set_decision-none :
    (request reviewer decision comment : String) (ds : List ReviewDecision)
    → is_reviewer request reviewer ds ≡ false
    → set_decision request reviewer decision comment ds ≡ ds
unfolding is_reviewer set_decision
set_decision-none request reviewer decision comment [] none_is = refl
set_decision-none request reviewer decision comment (d ∷ ds) none_is =
    ground (arith, set_decision-none request reviewer decision comment ds)

-- A `Decide` that answers that the decision is invalid, that the request is not found, or that the
-- caller is no reviewer leaves the pages, the requests and the decisions as they were.
decide-refused :
    (request page reviewer decision comment : String) (ws : List String) (db : Db)
    → refuses (decide request page reviewer decision comment ws db).0 ≡ true
    → ((decide request page reviewer decision comment ws db).1.pages ≡ db.pages)
      × ((decide request page reviewer decision comment ws db).1.requests ≡ db.requests)
      × ((decide request page reviewer decision comment ws db).1.decisions ≡ db.decisions)
unfolding decide
decide-refused request page reviewer decision comment ws db refused =
    ground (arith, set_decision-none request reviewer decision comment db.decisions)

abbrev is_approved_row : Option PageRow → Bool
is_approved_row none = false
is_approved_row (some r) = is_approved r.doc_status

-- The page's status is `approved`.
unfoldable pub page_approved : String → Db → Bool
page_approved page db = is_approved_row (find_page page db.pages)

page_approved-outages :
    (page : String) (db : Db) (rest : List Bool)
    → page_approved page db ≡ false
    → page_approved page (record db { outages = rest }) ≡ false
unfolding page_approved
page_approved-outages page db rest p = p

module _ (request page : String) where
  abbrev IsOpen : Db → Type 0
  IsOpen db = page_approved page db ≡ false

  abbrev pub IsBacked : Db → Type 0
  IsBacked db =
      (if page_approved page db then quorum request db.decisions else ApprovalStatus.approved)
      ≡ ApprovalStatus.approved

  abbrev Aggregated : ApprovalStatus → Db → Type 0
  Aggregated agg db = IsOpen db × (quorum request db.decisions ≡ agg)

  finish-IsBacked :
      (agg : ApprovalStatus) (db : Db) → Aggregated agg db → IsBacked (finish request page agg db).1
  unfolding finish page_approved
  finish-IsBacked agg db (is_open, total) = ground (
    arith,
    find_page-update_page (set_doc DocStatus.approved) (λ _. refl) page page db.pages,
    find_page-update_page (set_doc DocStatus.rejected) (λ _. refl) page page db.pages,
  )

  aggregate-Aggregated :
      (db : Db)
      → IsOpen db
      → After Aggregated IsBacked (aggregate request db).0 (aggregate request db).1
  unfolding aggregate page_approved
  aggregate-Aggregated =
      ensure_statement IsOpen IsBacked Aggregated _ (λ db rest p. p)
        (λ db p. (p, sym (count-quorum request db.decisions))) (λ db p. ground arith)

  open-IsBacked : (db : Db) → IsOpen db → IsBacked db
  open-IsBacked db is_open = ground arith

  gate-IsOpen :
      (ws : List String) (db : Db)
      → IsOpen db
      → After
          (λ there. IsOpen)
          IsBacked
          (select (λ db'. request_in request page ws db'.requests) db).0
          (select (λ db'. request_in request page ws db'.requests) db).1
  unfolding select
  gate-IsOpen ws =
      ensure_statement IsOpen IsBacked (λ there. IsOpen)
        (λ db. (request_in request page ws db.requests, db))
        (λ db rest p. page_approved-outages page db rest p) (λ db p. p) open-IsBacked

  update_decision-IsOpen :
      (reviewer decision comment : String) (db : Db)
      → IsOpen db
      → After
          (λ wrote. IsOpen)
          IsBacked
          (update_decision request reviewer decision comment db).0
          (update_decision request reviewer decision comment db).1
  unfolding update_decision page_approved
  update_decision-IsOpen reviewer decision comment =
      ensure_statement IsOpen IsBacked (λ wrote. IsOpen) _ (λ db rest p. p) (λ db p. p)
        open-IsBacked

  decide-open :
      (reviewer decision comment : String) (ws : List String) (db : Db)
      → IsOpen db
      → IsBacked (decide request page reviewer decision comment ws db).1
  unfolding decide
  decide-open reviewer decision comment ws =
      ensure_guard IsOpen IsBacked (not (is_valid decision)) (invalid_decision decision) _
        open-IsBacked
        (ensure_bind IsOpen IsBacked (λ there. IsOpen) _ _ (gate-IsOpen ws)
          λ there. ensure_guard IsOpen IsBacked (not there) not_found _ open-IsBacked (
            ensure_bind IsOpen IsBacked (λ wrote. IsOpen) _ _
              (update_decision-IsOpen reviewer decision comment)
              λ wrote. ensure_guard IsOpen IsBacked (not wrote) not_reviewer _ open-IsBacked (
                ensure_bind IsOpen IsBacked Aggregated (aggregate request) (finish request page)
                  aggregate-Aggregated finish-IsBacked)))

-- A page is approved on a full quorum only, whatever statements fail. When a page is not approved before a
-- `Decide` on it and is approved after it, the request has decisions, and all of them approve.
pub decide-IsBacked :
    (request page reviewer decision comment : String) (ws : List String) (db : Db)
    → page_approved page db ≡ false
    → IsBacked request page (decide request page reviewer decision comment ws db).1
decide-IsBacked request page reviewer decision comment ws db is_open =
    decide-open request page reviewer decision comment ws db is_open
