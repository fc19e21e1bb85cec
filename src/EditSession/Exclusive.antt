-- ===== src/EditSession/Exclusive.antt =====
-- What a claim means for the writes of the page, and the guards together.
use mathlib.Core.Path.{subst}
use Prim.Native.String.{◌++◌ as concat}
use talyvor_docs.Prelude.{
  ℕ, ◌<◌, String, ◌≡◌, sym, ap, Bool, true, false, some, List, [], ◌∷◌, arith, ◌==◌, eq_refl,
  if◌then◌else◌, Option-cases, inl, inr,
}
use talyvor_docs.Postgres.Rows.{Db, PageRow}
use talyvor_docs.Postgres.Sql.{ok}
use talyvor_docs.Postgres.Tables.{find_page, find_session, find_session-set_session}
use talyvor_docs.Pagelock as Lock
use talyvor_docs.EditSession.{
  Session, claim, may_write, claimed_row, decide, observed, can_edit as session_can_edit, taken,
}
use talyvor_docs.EditSession.Composite.{compose, can_edit}
use talyvor_docs.EditSession.Slot.{claimed_row-page}

-- What a member hears of a page whose writer slot `holder` has just taken.
abbrev pub told : String → String → Bool × String
told holder member = if holder == member then (true, "") else (false, concat holder " is editing")

abbrev calmed : Db → Db
calmed db = record db { outages = [] }

-- The theorem below, on a database without outages.
calmed-may_write :
    (ttl : ℕ) (page by member : String) (ws : List String) (db : Db) (s : Session)
    → 0 < ttl
    → (claim ttl page ws by (calmed db)).0 ≡ ok (taken s)
    → (may_write ttl page ws member (claim ttl page ws by (calmed db)).1).0 ≡ ok (told by member)
unfolding claim may_write decide
calmed-may_write ttl page by member ws db s positive got =
    elim (Option-cases (find_page page db.pages)) [
      | inl q ↦ ground arith
      | inr (r, q) ↦ ground (
        arith,
        find_session-set_session page page
            (claimed_row page r.workspace_id by db.clock (find_session page db.sessions))
            db.sessions,
        claimed_row-page page r.workspace_id by db.clock db.sessions,
        eq_refl page,
      )
    ]

-- After a claim that succeeds, `MayWrite` lets the claimant write and tells everybody else that
-- he is editing. It is asked with the same workspaces, before the clock has moved, while
-- no statement fails and the window is not empty.
claim-may_write :
    (ttl : ℕ) (page by member : String) (ws : List String) (db : Db) (s : Session)
    → db.outages ≡ []
    → 0 < ttl
    → (claim ttl page ws by db).0 ≡ ok (taken s)
    → (may_write ttl page ws member (claim ttl page ws by db).1).0 ≡ ok (told by member)
claim-may_write ttl page by member ws db s calm positive got =
    let same : calmed db ≡ db = ap (λ o. record db { outages = o }) (sym calm) in
    let got' = subst (λ d. (claim ttl page ws by d).0 ≡ ok (taken s)) (sym same) got in
    subst (λ d. (may_write ttl page ws member (claim ttl page ws by d).1).0 ≡ ok (told by member))
      same (calmed-may_write ttl page by member ws db s positive got')

-- The composed guard of the save path, the manual lock before the session: on a page that is there, while no statement fails, the
-- answer is the lock's where the lock denies. Else it is the session rule's for a member, and a
-- yes for an admin.
can_edit-compose :
    (ttl : ℕ) (page member : String) (admin : Bool) (db : Db) (r : PageRow)
    → db.outages ≡ []
    → find_page page db.pages ≡ some r
    → (can_edit
        (compose (some Lock.can_edit ∷ some (session_can_edit ttl) ∷ []))
        page
        member
        admin
        db).0
      ≡ ok (
          if (Lock.verdict r member admin).0
          then (if admin
              then (true, "")
              else decide (observed ttl db.clock (find_session page db.sessions)) member)
          else (false, (Lock.verdict r member admin).1))
unfolding can_edit compose Lock.can_edit session_can_edit decide
can_edit-compose ttl page member admin db r calm found = ground arith
