-- ===== src/Authz/Closed.antt =====
-- The authorizers refuse where they cannot tell.
use talyvor_docs.Prelude.{String, ◌≡◌, refl, ap, true, false, Option, none, some, List, arith, ◌==◌}
use talyvor_docs.Postgres.Rows.{Db, AccessLevel}
use talyvor_docs.Postgres.Sql.{Sql, Result, ok, err}
use talyvor_docs.Permission.{at_least}
use talyvor_docs.Authz.{
  Context, AuthContext, Membership, memberships, with_memberships, member_id_for_workspace,
  find_membership, email,
}
use talyvor_docs.Authz.Space.{PageMeta, page_level, authorize_page_read, read_found, can_view}
use talyvor_docs.Authz.Session.{Roster, resolve_session, session_found, tier}

edit-view :
    (level : AccessLevel)
    → at_least level AccessLevel.edit ≡ true
    → at_least level AccessLevel.view ≡ true
unfolding at_least
edit-view AccessLevel.nothing h = ground arith
edit-view AccessLevel.view h = refl
edit-view AccessLevel.comment h = refl
edit-view AccessLevel.edit h = refl
edit-view AccessLevel.admin h = refl

tier-can_view :
    (level : Option (String × Result AccessLevel)) → (tier level).1 ≡ true → can_view level ≡ true
tier-can_view none h = ground arith
tier-can_view (some (actor, ok level)) h = edit-view level h
tier-can_view (some (actor, err e)) h = ground arith

session-read :
    (ctx : Context) (page : String) (md : Result PageMeta) (db : Db)
    → (session_found ctx page md db).0.2 ≡ true
    → (read_found ctx page md db).0 ≡ (true, true)
session-read ctx page (ok md) db h =
    ap (λ b. (true, b)) (tier-can_view (page_level ctx page md db).0 h)
session-read ctx page (err e) db h = ground arith

-- Whoever may edit through the web socket may read the page: where the roster answers with the
-- memberships that the caller has now, and the session then has the edit tier, the page
-- authorizer finds the page for those memberships and lets it be viewed.
pub resolve_session-authorize_page_read :
    (roster : Roster) (page_meta : Context → String → Sql PageMeta) (ac : AuthContext)
    (ms : List Membership) (page : String) (db : Db)
    → (page == "") ≡ false
    → (roster ac.email db).0 ≡ ok ms
    → (resolve_session (some roster) page_meta (some ac) page db).0.2 ≡ true
    → (authorize_page_read page_meta (with_memberships ac.email ms) page (roster ac.email db).1).0
      ≡ (true, true)
unfolding resolve_session authorize_page_read email
resolve_session-authorize_page_read roster page_meta ac ms page db named answered edits =
    let found = page_meta (with_memberships ac.email ms) page (roster ac.email db).1 in
    ground (arith, session-read (with_memberships ac.email ms) page found.0 found.1)

-- A caller who is no member of the page's workspace may not view the page, whatever grants there
-- are on it: the page is found, and refused.
authorize_page_read-outsider :
    (page_meta : Context → String → Sql PageMeta) (address : String) (ms : List Membership)
    (page : String) (md : PageMeta) (db : Db)
    → (page == "") ≡ false
    → (page_meta (with_memberships address ms) page db).0 ≡ ok md
    → find_membership md.workspace_id ms ≡ none
    → (authorize_page_read page_meta (with_memberships address ms) page db).0 ≡ (true, false)
unfolding authorize_page_read member_id_for_workspace memberships with_memberships
authorize_page_read-outsider page_meta address ms page md db named found outside = ground arith
