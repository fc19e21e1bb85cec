-- ===== src/Page/Delete.antt =====
-- internal/page/store.go: `Delete` and `Verify`.
use talyvor_docs.Prelude.{
  ℕ, String, Bool, false, not, Option, none, some, List, [], ◌∷◌, ◌==◌, if◌then◌else◌,
  select as filter,
}
use talyvor_docs.Postgres.Run.{pure, ◌>>=◌, ◌>>◌, select, write}
use talyvor_docs.Postgres.Tables.{among}
use talyvor_docs.Page.{PageRow, find, update_all, remove, Pages}
use talyvor_docs.Page.Update.{rebase_subtree_depth, row_or, at_page}

-- UPDATE pages SET parent_id = $1 WHERE parent_id = $2 RETURNING id
abbrev pub is_child : String → PageRow → Bool
is_child page r = elim r.parent_id [ none ↦ false | some up ↦ up == page ]

abbrev pub reparent : String → Option String → PageRow → PageRow
reparent page up r = if is_child page r then record r { parent_id = up } else r

unfoldable pub child_ids : String → List PageRow → List String
child_ids page [] = []
child_ids page (r ∷ rows) =
    let rest = child_ids page rows in if is_child page r then r.id ∷ rest else rest

unfoldable pub reparent_children : String → Option String → Pages (List String)
unfolding write child_ids update_all
reparent_children page up =
    write λ t. (child_ids page t.pages, record t { pages = update_all (reparent page up) t.pages })

abbrev pub rebase_moved : List String → ℕ → Pages (Unit {0})
rebase_moved [] depth = pure tt
rebase_moved (x ∷ moved) depth = rebase_subtree_depth (among (x ∷ moved)) depth

-- DELETE FROM pages WHERE id = $1, on which the versions of the page go as well
unfoldable pub remove_page : String → Pages (Unit {0})
unfolding write remove
remove_page page = write λ t. (
  tt,
  record t {
    pages = remove page t.pages;
    versions = filter (λ v. not (v.page_id == page)) t.versions;
  },
)

unfoldable pub delete : String → Pages (Unit {0})
unfolding select reparent_children rebase_subtree_depth remove_page
delete page = do
  row ← select (λ t. find page t.pages)
  r ← row_or row
  moved ← reparent_children page r.parent_id
  rebase_moved moved r.depth
  remove_page page

unfoldable pub verify : String → String → Pages (Unit {0})
unfolding write update_all
verify page verifier = write λ t. (
  tt,
  record t {
    pages =
        update_all
          (at_page page
            (λ r. record r { last_verified_at = some t.clock; verified_by = some verifier }))
          t.pages;
  },
)
