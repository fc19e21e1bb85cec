-- ===== src/Approval/Inbox.antt =====
-- The reviewer's inbox, and the publication of a page.
use talyvor_docs.Prelude.{
  String, ◌≡◌, refl, ap, ◌∙◌, Bool, true, false, ◌&&◌, Option, none, some, List, [], ◌∷◌, ◌++◌,
  arith, ◌==◌, eq_iff, any, Option-cases, inl, inr,
}
use talyvor_docs.Postgres.Rows.{Db, PageRow, ReviewDecision, ApprovalRequest, DocStatus}
use talyvor_docs.Postgres.Sql.{ok}
use talyvor_docs.Postgres.Tables.{find_page, find_page-update_page}
use talyvor_docs.Approval.{
  PendingItem, decide, is_of, is_valid, set_decision, items_of, pending_items, list_pending,
  publish_approved, set_doc_in,
}

-- A decision of the reviewer on the request which is still to come.
abbrev pub is_waiting : String → String → ReviewDecision → Bool
is_waiting request reviewer d = is_of request reviewer d && d.decision == "pending"

valid-pending : (decision : String) → is_valid decision ≡ true → (decision == "pending") ≡ false
unfolding is_valid
valid-pending decision valid = ground (
  arith,
  λ (e : decision ≡ "approved"). ap (λ t. t == "pending") e,
  λ (e : decision ≡ "rejected"). ap (λ t. t == "pending") e,
  eq_iff decision "approved",
  eq_iff decision "rejected",
)

set_decision-waiting :
    (request reviewer decision comment : String) (ds : List ReviewDecision)
    → is_valid decision ≡ true
    → any (is_waiting request reviewer) (set_decision request reviewer decision comment ds) ≡ false
unfolding any set_decision
set_decision-waiting request reviewer decision comment [] valid = refl
set_decision-waiting request reviewer decision comment (d ∷ ds) valid = ground (
  arith,
  valid-pending decision valid,
  set_decision-waiting request reviewer decision comment ds valid,
)

abbrev pub is_item : String → PendingItem → Bool
is_item request it = it.request.id == request

items_of-none :
    (request reviewer : String) (r : ApprovalRequest) (p : Option PageRow)
    (ds : List ReviewDecision)
    → any (is_waiting request reviewer) ds ≡ false
    → any (is_item request) (items_of r p reviewer ds) ≡ false
unfolding any items_of
items_of-none request reviewer r none ds clear = refl
items_of-none request reviewer r (some p) [] clear = refl
items_of-none request reviewer r (some p) (d ∷ ds) clear = ground (
  arith,
  items_of-none request reviewer r (some p) ds,
  eq_iff r.id request,
  eq_iff d.request_id r.id,
  eq_iff d.request_id request,
)

any-append :
    (p : PendingItem → Bool) (xs ys : List PendingItem)
    → any p xs ≡ false
    → any p ys ≡ false
    → any p (xs ++ ys) ≡ false
unfolding any
any-append p [] ys none_xs none_ys = none_ys
any-append p (x ∷ xs) ys none_xs none_ys = ground (arith, any-append p xs ys)

pub pending_items-none :
    (request reviewer : String) (ws : List String) (pages : List PageRow) (ds : List ReviewDecision)
    (rows : List ApprovalRequest)
    → any (is_waiting request reviewer) ds ≡ false
    → any (is_item request) (pending_items reviewer ws pages ds rows) ≡ false
unfolding any pending_items
pending_items-none request reviewer ws pages ds [] clear = refl
pending_items-none request reviewer ws pages ds (r ∷ rows) clear = ground (
  arith,
  any-append (is_item request) (items_of r (find_page r.page_id pages) reviewer ds)
      (pending_items reviewer ws pages ds rows)
      (items_of-none request reviewer r (find_page r.page_id pages) ds clear),
  pending_items-none request reviewer ws pages ds rows clear,
)

-- Publishing an approved page changes no page: each id leads to the row it led to before.
publish_approved-find_page :
    (page other : String) (ws : List String) (db : Db)
    → find_page other (publish_approved page ws db).1.pages ≡ find_page other db.pages
unfolding publish_approved
publish_approved-find_page page other ws db = elim (Option-cases (find_page page db.pages)) [
  | inl q ↦ ground arith
  | inr (r, q) ↦ ground (
    arith,
    find_page-update_page (set_doc_in ws DocStatus.approved) (λ _. refl) page other db.pages,
    eq_iff page other,
  )
]

decide-decisions :
    (request page reviewer decision comment : String) (ws : List String) (db : Db)
    → db.outages ≡ []
    → (decide request page reviewer decision comment ws db).0 ≡ ok tt
    → ((decide request page reviewer decision comment ws db).1.decisions
        ≡ set_decision request reviewer decision comment db.decisions)
      × (is_valid decision ≡ true)
      × ((decide request page reviewer decision comment ws db).1.outages ≡ [])
unfolding decide
decide-decisions request page reviewer decision comment ws db calm done = ground arith

list_pending-items :
    (reviewer : String) (ws : List String) (db : Db)
    → db.outages ≡ []
    → (list_pending reviewer ws db).0
      ≡ ok (pending_items reviewer ws db.pages db.decisions db.requests)
unfolding list_pending
list_pending-items reviewer ws db calm = ground arith

-- Once a reviewer has decided on a request, it is no longer in the reviewer's inbox: after a
-- `Decide` that succeeds, with no statement failing, the inbox can be listed, and holds no item of that request.
decide-list_pending :
    (request page reviewer decision comment : String) (ws inbox_ws : List String) (db : Db)
    → db.outages ≡ []
    → (decide request page reviewer decision comment ws db).0 ≡ ok tt
    → let after : Db = (decide request page reviewer decision comment ws db).1 in
      ((list_pending reviewer inbox_ws after).0
        ≡ ok (pending_items reviewer inbox_ws after.pages after.decisions after.requests))
      × (any
            (is_item request)
            (pending_items reviewer inbox_ws after.pages after.decisions after.requests)
          ≡ false)
decide-list_pending request page reviewer decision comment ws inbox_ws db calm done =
    let after : Db = (decide request page reviewer decision comment ws db).1 in
    let (rows, valid, calm') =
      decide-decisions request page reviewer decision comment ws db calm done in
    let clear =
      ap (any (is_waiting request reviewer)) rows
      ∙ set_decision-waiting request reviewer decision comment db.decisions valid in
    (
      list_pending-items reviewer inbox_ws after calm',
      pending_items-none request reviewer inbox_ws after.pages after.decisions after.requests clear,
    )
