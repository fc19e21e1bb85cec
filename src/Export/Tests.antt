-- ===== src/Export/Tests.antt =====
-- A page with one child, and small documents.
use talyvor_docs.Prelude.{
  ℕ, String, ◌≡◌, refl, ap, Bool, true, false, Option, none, some, [], ◌∷◌, ◌==◌, if◌then◌else◌,
  arith, ◌<◌, ◌*◌, length, select as filter,
}
use talyvor_docs.Prelude.Int.{ℤ}
use talyvor_docs.Prelude.Sort.{sort_by}
use talyvor_docs.Postgres.Tables.{among}
use talyvor_docs.Postgres.Run.{ok, After}
use talyvor_docs.Doc.{Value, Items, Fields}
use talyvor_docs.Page.{PageRow, Tables, find}
use talyvor_docs.Page.Listing.{listed}
use talyvor_docs.Export.Document.{ExportOptions, html_body, render_html_body}
use talyvor_docs.Export.Markup.{Markup, html_body-Markup}
use talyvor_docs.Export.Children.{
  gather_pages, gather_pages_all, gather_pages-Visible, once, children, Visible, child_batch,
}

abbrev page_row : String → Option String → PageRow
page_row id up = record {
  id = id;
  space_id = "s";
  workspace_id = "w";
  parent_id = up;
  title = id;
  slug = id;
  content = "doc";
  content_text = "";
  icon = "";
  cover_url = "";
  position = 0;
  depth = 0;
  is_template = false;
  created_by = "ada";
  updated_by = "ada";
  linked_issues = [];
  stale_after_days = 0;
  page_type = "doc";
  last_verified_at = none;
  verified_by = none;
  updated_at = 1;
}

abbrev family : Tables
family = record {
  pages = page_row "b" (some "a") ∷ page_row "c" (some "a") ∷ page_row "a" none ∷ [];
  versions = [];
  clock = 9;
}

abbrev words : String → Value
words s = Value.object (Fields.field "text" (Value.text s) Fields.end)

abbrev block : String → Value → Value
block type child = Value.object (
    Fields.field "type" (Value.text type)
      (Fields.field "content" (Value.list (Items.cons child Items.nil)) Fields.end))

-- A quoted paragraph, and a list of one paragraph.
abbrev document : Value
document = Value.object (
    Fields.field "content"
      (Value.list (
        Items.cons (block "blockquote" (block "paragraph" (words "<b>"))) (
          Items.cons (block "bullet_list" (block "list_item" (block "paragraph" (words "x"))))
            Items.nil)))
      Fields.end)

abbrev decode : String → Option Value
decode content = if content == "doc" then some document else none

abbrev escape : String → String
escape s = if s == "<b>" then "&lt;b&gt;" else s

abbrev decimal : ℤ → String
decimal n = "1"

abbrev date : ℕ → String
date at = "May 1, 2026"

document_html :
    render_html_body escape decimal date decode "doc"
    ≡ "<blockquote><p>&lt;b&gt;</p>\n</blockquote>\n<ul><li>x</li></ul>\n"
unfolding render_html_body
document_html = refl

abbrev options : ExportOptions
options = record { include_toc = true; page_breaks = true; watermark = "draft" }

html_body-Markup_example : Markup escape decimal date decode (
    html_body escape decimal date decode options (page_row "a" none) (page_row "c" (some "a") ∷ []))
html_body-Markup_example =
    html_body-Markup escape decimal date decode options (page_row "a" none)
      (page_row "c" (some "a") ∷ [])

-- Only c may be viewed.
abbrev can_view : String → Bool
can_view page = page == "c"

family_fits : length (children (page_row "a" none) family) < 1 * child_batch
unfolding listed filter child_batch sort_by
family_fits = omega arith

family_children :
    (gather_pages can_view 1 "a" ("w" ∷ []) true family []).0
    ≡ ok (some (page_row "a" none ∷ page_row "c" (some "a") ∷ []))
unfolding sort_by listed filter once among find
family_children =
    ap (λ out. out.0)
      (gather_pages_all can_view 1 "a" ("w" ∷ []) (page_row "a" none) family refl refl family_fits)

gather_pages-Visible_example :
    After
      (λ rows _. Visible can_view ("w" ∷ []) rows)
      (λ _. Unit)
      (gather_pages can_view 1 "a" ("w" ∷ []) true family (false ∷ [])).0
      (gather_pages can_view 1 "a" ("w" ∷ []) true family (false ∷ [])).1
gather_pages-Visible_example =
    gather_pages-Visible can_view ("w" ∷ []) 1 "a" true family (false ∷ [])
