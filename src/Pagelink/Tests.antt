-- ===== src/Pagelink/Tests.antt =====
-- The links of one page.
use talyvor_docs.Prelude.{
  String, ◌≡◌, refl, true, false, not, Option, none, some, [], ◌∷◌, ◌==◌, if◌then◌else◌, any,
  select as filter,
}
use talyvor_docs.Postgres.Tables.{among}
use talyvor_docs.Postgres.Run.{ok}
use talyvor_docs.Doc.{Value, Items, Fields}
use talyvor_docs.Pagelink.{PageLink, Tables, is_embed, parse_embeds, sync_links}
use talyvor_docs.Pagelink.Sync.{has_embed, sync_links_embeds, sync_links_others}

abbrev link : String → String → String → PageLink
link page issue type = record {
  page_id = page;
  workspace_id = "w";
  issue_id = issue;
  link_type = type;
  created_by = "ada";
  created_at = 1;
}

-- The page p has an embed of i1 and a mention of it.
abbrev linked : Tables
linked = record {
  links = link "p" "i1" "embed" ∷ link "p" "i1" "mention" ∷ link "q" "i1" "embed" ∷ [];
  clock = 7;
}

abbrev embed : String → Value
embed issue = Value.object (
    Fields.field "type" (Value.text "issue_embed") (
      Fields.field "attrs" (Value.object (Fields.field "issue_id" (Value.text issue) Fields.end))
        Fields.end))

abbrev paragraph : Value → Value
paragraph child = Value.object (
    Fields.field "type" (Value.text "paragraph")
      (Fields.field "content" (Value.list (Items.cons child Items.nil)) Fields.end))

-- Two embeds of i2 and one without an id.
abbrev document : Value
document = Value.object (
    Fields.field "content"
      (Value.list (
        Items.cons (paragraph (embed "i2"))
          (Items.cons (embed "i2") (Items.cons (embed "") Items.nil))))
      Fields.end)

abbrev decode : String → Option Value
decode content = if content == "doc" then some document else none

document_embeds : parse_embeds decode "doc" ≡ "i2" ∷ []
unfolding parse_embeds among
document_embeds = refl

-- The embed of i1 goes, the one of i2 comes, and the mention stays.
linked_sync :
    (sync_links decode (λ xs. xs) "p" "w" "doc" "bob" linked []).1.links
    ≡ record (link "p" "i2" "embed") { created_by = "bob"; created_at = 7 }
      ∷ link "p" "i1" "mention"
      ∷ link "q" "i1" "embed"
      ∷ []
unfolding sync_links among any filter
linked_sync = refl

sync_links_embeds_example :
    (let out = sync_links decode (λ xs. xs) "p" "w" "doc" "bob" linked [] in
      (out.0 ≡ ok tt)
      × ((issue : String)
          → has_embed "p" issue out.1.links ≡ among (parse_embeds decode "doc") issue))
sync_links_embeds_example =
    sync_links_embeds decode (λ xs. xs) "p" "w" "bob" "doc" linked (λ xs x. refl) refl

sync_links_others_example :
    filter
      (λ l. not (is_embed "p" l))
      (sync_links decode (λ xs. xs) "p" "w" "doc" "bob" linked (false ∷ false ∷ true ∷ [])).1.links
    ≡ link "p" "i1" "mention" ∷ link "q" "i1" "embed" ∷ []
unfolding filter
sync_links_others_example =
    sync_links_others decode (λ xs. xs) "p" "w" "bob" "doc" linked (false ∷ false ∷ true ∷ [])
