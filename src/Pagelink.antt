-- ===== src/Pagelink.antt =====
-- internal/pagelink/store.go: the links of pages to issues. A store has a pool here. The id of a row is the
-- database's, and no method reads it. The order in which Go visits the keys of a map is a parameter.
pub mod Sync
pub mod Tests
use talyvor_docs.Prelude.{
  ℕ, String, Bool, true, false, not, ◌&&◌, ◌||◌, Option, none, some, List, [], ◌∷◌, ◌++◌, ◌==◌,
  if◌then◌else◌, map, any, ltb, select as filter,
}
use talyvor_docs.Prelude.Sort.{sort_by}
use talyvor_docs.Postgres.Tables.{among, distinct}
use talyvor_docs.Postgres.Run.{Run, pure, refuse, ◌>>=◌, ◌>>◌, select, write}
use talyvor_docs.Doc.{Value, Items, Fields, get, as_text, as_fields, has_type}

-- PageLink and the row of page_links, unique on (page_id, issue_id, link_type)
pub record PageLink : Type 0 where
  pub page_id : String
  pub workspace_id : String
  pub issue_id : String
  pub link_type : String
  pub created_by : String
  pub created_at : ℕ

pub record Tables : Type 0 where
  pub links : List PageLink
  pub clock : ℕ

pub data LinkError : Type 0 where
  ids_required : LinkError

abbrev pub Links : Type 0 → Type 0
Links A = Run Tables LinkError A

abbrev pub is_link : String → String → String → PageLink → Bool
is_link page issue type l = l.page_id == page && l.issue_id == issue && l.link_type == type

-- INSERT … ON CONFLICT (page_id, issue_id, link_type) DO NOTHING
abbrev pub insert_link : PageLink → Tables → Tables
insert_link l t =
    if any (is_link l.page_id l.issue_id l.link_type) t.links
    then t
    else record t { links = record l { created_at = t.clock } ∷ t.links }

abbrev pub with_type : PageLink → PageLink
with_type l = if l.link_type == "" then record l { link_type = "embed" } else l

-- `Upsert`
unfoldable pub upsert : PageLink → Links (Unit {0})
unfolding write
upsert l =
    if l.page_id == "" || l.issue_id == ""
    then refuse ids_required
    else write (λ t. (tt, insert_link (with_type l) t))

-- `Delete`
unfoldable pub delete : String → String → Links (Unit {0})
unfolding write
delete page issue = write λ t.
    (tt, record t { links = filter (λ l. not (l.page_id == page && l.issue_id == issue)) t.links })

-- `deleteTyped`
unfoldable pub delete_typed : String → String → String → Links (Unit {0})
unfolding write
delete_typed page issue type =
    write λ t. (tt, record t { links = filter (λ l. not (is_link page issue type l)) t.links })

abbrev pub is_older : PageLink → PageLink → Bool
is_older a b = ltb a.created_at b.created_at

-- `ListByPage`
unfoldable pub list_by_page : String → Links (List PageLink)
unfolding select
list_by_page page = select λ t. sort_by is_older (filter (λ l. l.page_id == page) t.links)

-- `ListByIssue`
unfoldable pub list_by_issue : String → Links (List PageLink)
unfolding select
list_by_issue issue = select λ t. sort_by is_older (filter (λ l. l.issue_id == issue) t.links)

abbrev pub is_embed : String → PageLink → Bool
is_embed page l = l.page_id == page && l.link_type == "embed"

unfoldable pub embed_ids : String → List PageLink → List String
embed_ids page [] = []
embed_ids page (l ∷ links) =
    let rest = embed_ids page links in if is_embed page l then l.issue_id ∷ rest else rest

-- `IssueIDsForPage`
unfoldable pub issue_ids_for_page : String → Links (List String)
unfolding select embed_ids
issue_ids_for_page page = select λ t. embed_ids page t.links

-- The visit of `ParseEmbeds` at one node.
abbrev pub own_embed : Fields → List String
own_embed fs =
    let id = as_text (get "issue_id" (as_fields (get "attrs" fs))) in
    if has_type "issue_embed" fs && not (id == "") then id ∷ [] else []

-- `walk`, with the ids that the visits find, in their order
unfoldable mutual
  unfolding get

  pub walk : Value → List String
  walk Value.null = []
  walk (Value.flag b) = []
  walk (Value.number n) = []
  walk (Value.text s) = []
  walk (Value.list xs) = walk_items xs
  walk (Value.object fs) = own_embed fs ++ walk_content fs

  pub walk_items : Items → List String
  walk_items Items.nil = []
  walk_items (Items.cons x xs) = walk x ++ walk_items xs

  pub walk_content : Fields → List String
  walk_content Fields.end = []
  walk_content (Fields.field k v fs) =
      let here = walk v in let rest = walk_content fs in if k == "content" then here else rest

abbrev pub embed_link : String → String → String → String → PageLink
embed_link page workspace by issue = record {
  page_id = page;
  workspace_id = workspace;
  issue_id = issue;
  link_type = "embed";
  created_by = by;
  created_at = 0;
}

-- The loop over `current`.
unfoldable pub add_each : String → String → String → List String → List String → Links (Unit {0})
unfolding upsert
add_each page workspace by existing [] = pure tt
add_each page workspace by existing (x ∷ current) =
    let rest = add_each page workspace by existing current in
    if among existing x then rest else (upsert (embed_link page workspace by x) >> rest)

-- The loop over `existing`.
unfoldable pub remove_each : String → List String → List String → Links (Unit {0})
unfolding delete_typed
remove_each page current [] = pure tt
remove_each page current (x ∷ existing) =
    let rest = remove_each page current existing in
    if among current x then rest else (delete_typed page x "embed" >> rest)

module _ (decode : String → Option Value) where
  abbrev pub embeds_of : Option Value → List String
  embeds_of none = []
  embeds_of (some doc) = distinct [] (walk doc)

  -- `ParseEmbeds`
  unfoldable pub parse_embeds : String → List String
  unfolding walk distinct
  parse_embeds content = if content == "" || content == "{}" then [] else embeds_of (decode content)

  -- `SyncLinks`
  unfoldable pub sync_links :
      (List String → List String) → String → String → String → String → Links (Unit {0})
  unfolding select embed_ids parse_embeds add_each remove_each
  sync_links arrange page workspace content by = do
    rows ← select (λ t. embed_ids page t.links)
    let existing = distinct [] rows
    let current = parse_embeds content
    add_each page workspace by existing (arrange current)
    remove_each page current (arrange existing)
