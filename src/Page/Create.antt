-- ===== src/Page/Create.antt =====
-- internal/page/store.go: `Create` and `appendVersion`. `extract` is `extractContentText`, which decodes
-- JSON, and `slugify` the slug of a title. The calls of the linker and the indexer come after the writes,
-- and their errors are dropped there.
use Prim.Native.String.{◌++◌ as concat}
use talyvor_docs.Prelude.{
  ℕ, zero, suc, ◌+◌, String, Bool, true, false, not, ◌&&◌, ◌||◌, Option, none, some, List, [], ◌∷◌,
  ◌==◌, if◌then◌else◌, eqb, ltb,
}
use talyvor_docs.Postgres.Run.{
  Reply, ok, refused, pure, refuse, ◌>>=◌, ◌>>◌, statement, select, write,
}
use talyvor_docs.Page.{
  PageRow, VersionRow, PageError, ids_required, parent_not_found, max_depth, slug_taken,
  unknown_type, max_depth_limit, empty_doc, find, Pages,
}

-- `validatePageType`: the type to store, if the text is one
unfoldable pub valid_type : String → Option String
valid_type v =
    if v == ""
    then some "document"
    else if v == "document" || v == "changelog"
    then some v
    else none

-- INSERT INTO page_versions … SELECT COALESCE(MAX(version), 0) + 1 …
unfoldable pub latest : String → List VersionRow → ℕ
latest page [] = 0
latest page (v ∷ rows) =
    let rest = latest page rows in
    if v.page_id == page then (if ltb v.version rest then rest else v.version) else rest

abbrev pub version_row : String → String → String → String → String → ℕ → VersionRow
version_row page workspace title content by n = record {
  page_id = page;
  workspace_id = workspace;
  version = n;
  title = title;
  content = content;
  created_by = by;
}

-- One try of `appendVersion`; the newest row stands first.
unfoldable pub insert_version : String → String → String → String → String → Pages (Unit {0})
unfolding write latest
insert_version page workspace title content by = write λ t. (
  tt,
  record t {
    versions =
        version_row page workspace title content by (suc (latest page t.versions)) ∷ t.versions;
  },
)

-- `appendVersion`, whose error is logged and dropped. Another try is made only where the number was
-- contested, which one statement at a time never is.
unfoldable pub append_version : String → String → String → String → String → Pages (Unit {0})
unfolding insert_version
append_version page workspace title content by t down =
    let (r, t', down') = insert_version page workspace title content by t down in (ok tt, t', down')

unfoldable pub slug_used : String → String → List PageRow → Bool
slug_used space slug [] = false
slug_used space slug (r ∷ rows) =
    if r.space_id == space && r.slug == slug then true else slug_used space slug rows

-- INSERT INTO pages … RETURNING …, with the constraint on (space_id, slug)
unfoldable pub insert_page : PageRow → Pages PageRow
unfolding statement slug_used
insert_page r = statement λ t.
    if slug_used r.space_id r.slug t.pages
    then (refused slug_taken, t)
    else (ok r, record t { pages = r ∷ t.pages })

-- "%d" of the numbers that the retries reach
abbrev pub digit : ℕ → String
digit n = if eqb n 2 then "2" else if eqb n 3 then "3" else if eqb n 4 then "4" else "5"

abbrev pub is_slug_taken : Reply PageError PageRow → Bool
is_slug_taken (refused slug_taken) = true
is_slug_taken _ = false

-- The loop of `Create`; `left` counts the tries after this one, the attempt is 5 - left.
unfoldable pub insert_loop : ℕ → ℕ → String → PageRow → Pages PageRow
unfolding insert_page
insert_loop zero attempt base r t down = insert_page r t down
insert_loop (suc left) attempt base r t down =
    let (out, t', down') = insert_page r t down in
    let again =
      insert_loop left (suc attempt) base
        (record r { slug = concat base (concat "-" (digit (suc attempt))) }) t' down' in
    if is_slug_taken out then again else (out, t', down')

abbrev pub depth_below : PageRow → Option PageRow → Pages PageRow
depth_below p none = refuse parent_not_found
depth_below p (some up) =
    if not (up.workspace_id == p.workspace_id)
    then refuse parent_not_found
    else if ltb max_depth_limit (up.depth + 1)
    then refuse max_depth
    else pure (record p { depth = up.depth + 1 })

-- The parent's lookup in `Create`.
unfoldable pub place_below : PageRow → Option String → Pages PageRow
unfolding select
place_below p none = pure p
place_below p (some parent) = do up ← select (λ t. find parent t.pages); depth_below p up

abbrev pub place : PageRow → Pages PageRow
place p = place_below p p.parent_id

module _ (extract slugify : String → String) where
  -- The defaults of `Create`.
  unfoldable pub with_defaults : String → PageRow → PageRow
  with_defaults page_type p =
      let title = if p.title == "" then "Untitled" else p.title in
      let content = if p.content == "" then empty_doc else p.content in
      record p {
        title = title;
        slug = if p.slug == "" then slugify title else p.slug;
        content = content;
        content_text = if p.content_text == "" then extract content else p.content_text;
        page_type = page_type;
        updated_by = p.created_by;
      }

  -- `Create` once its type is checked.
  unfoldable pub typed_create : PageRow → Option String → Pages PageRow
  unfolding with_defaults place_below insert_loop append_version
  typed_create p none = refuse (unknown_type p.page_type)
  typed_create p (some page_type) = do
    placed ← place (with_defaults page_type p)
    out ← insert_loop 4 1 placed.slug placed
    append_version out.id out.workspace_id out.title out.content p.created_by
    pure out

  unfoldable pub create : PageRow → Pages PageRow
  unfolding valid_type typed_create
  create p =
      if p.space_id == "" || p.workspace_id == ""
      then refuse ids_required
      else typed_create p (valid_type p.page_type)
