-- ===== src/Export/Document.antt =====
-- internal/export/exporter.go: the HTML document around the pages, and its table of contents.
use Prim.Native.String.{◌++◌}
use talyvor_docs.Prelude.{
  ℕ, zero, suc, String, Bool, true, false, Option, none, some, List, [], ◌∷◌, ◌==◌, if◌then◌else◌,
}
use talyvor_docs.Prelude.{◌++◌ as append}
use talyvor_docs.Prelude.Int.{ℤ, pos, negsuc}
use talyvor_docs.Doc.{Value, Items, Fields, get, as_fields, has_type, level_of}
use talyvor_docs.Page.{PageRow}
use talyvor_docs.Export.{element, plain_text, content_of, render_blocks_in}

-- ExportOptions, as far as `ToHTML` reads them
pub record ExportOptions : Type 0 where
  pub include_toc : Bool
  pub page_breaks : Bool
  pub watermark : String

abbrev pub one_less : ℤ → ℤ
one_less (pos zero) = negsuc 0
one_less (pos (suc n)) = pos n
one_less (negsuc n) = negsuc (suc n)

-- `walkHeadings`, with the headings that it visits, in their order
unfoldable mutual
  unfolding get plain_text

  pub walk_headings : Value → List (ℤ × String)
  walk_headings (Value.object fs) = elim (has_type "heading" fs) [
    | true ↦ (level_of fs, plain_text (content_of fs)) ∷ []
    | false ↦ headings_in fs
  ]
  walk_headings (Value.list xs) = headings_of xs
  walk_headings Value.null = []
  walk_headings (Value.flag b) = []
  walk_headings (Value.number n) = []
  walk_headings (Value.text s) = []

  pub headings_of : Items → List (ℤ × String)
  headings_of Items.nil = []
  headings_of (Items.cons x xs) = append (walk_headings x) (headings_of xs)

  pub headings_in : Fields → List (ℤ × String)
  headings_in Fields.end = []
  headings_in (Fields.field k v fs) = elim (k == "content") [
    | true ↦ walk_headings v
    | false ↦ headings_in fs
  ]

-- json.Unmarshal into a map; a text that holds no object leaves it empty.
abbrev pub object_of : Option Value → Value
object_of none = Value.object Fields.end
object_of (some v) = Value.object (as_fields v)

module _ (escape : String → String) (decimal : ℤ → String) (date : ℕ → String)
    (decode : String → Option Value) where
  abbrev pub toc_open : ℤ → String
  toc_open level = "<li style=\"margin-left:" ++ (decimal (one_less level) ++ "em\">")

  unfoldable pub toc_entries : List (ℤ × String) → String
  toc_entries [] = ""
  toc_entries ((level, words) ∷ rest) =
      element (toc_open level) "</li>" (escape words) ++ toc_entries rest

  unfoldable pub toc_pages : List PageRow → String
  unfolding walk_headings toc_entries
  toc_pages [] = ""
  toc_pages (p ∷ pages) =
      toc_entries (walk_headings (object_of (decode p.content))) ++ toc_pages pages

  -- `buildTOC`
  unfoldable pub build_toc : List PageRow → String
  unfolding toc_pages
  build_toc pages =
      element "<nav class=\"toc\"><h2>Table of Contents</h2><ul>" "</ul></nav>\n" (toc_pages pages)

  -- `renderHTMLBody`
  unfoldable pub render_html_body : String → String
  unfolding render_blocks_in
  render_html_body content =
      render_blocks_in escape decimal (as_fields (object_of (decode content)))

  abbrev pub page_break : Bool → String
  page_break breaks = if breaks then "<div style=\"page-break-before:always\"></div>\n" else ""

  -- The loop over the pages after the root.
  unfoldable pub sections : Bool → List PageRow → String
  unfolding render_html_body
  sections breaks [] = ""
  sections breaks (p ∷ pages) =
      "<hr>\n"
      ++ (page_break breaks
          ++ (element "<h1>" "</h1>\n" (escape p.title)
              ++ (render_html_body p.content ++ sections breaks pages)))

  abbrev pub watermark_of : String → String
  watermark_of mark =
      if mark == "" then "" else element "<div class=\"watermark\">" "</div>" (escape mark)

  abbrev pub toc_of : Bool → List PageRow → String
  toc_of include_toc pages = if include_toc then build_toc pages else ""

  -- What stands between the body's tags.
  unfoldable pub html_body : ExportOptions → PageRow → List PageRow → String
  unfolding build_toc render_html_body sections
  html_body opts root rest =
      watermark_of opts.watermark
      ++ (element "<h1>" "</h1>\n" (escape root.title)
          ++ (element "<div class=\"meta\">Updated " "</div>" (date root.updated_at)
              ++ (toc_of opts.include_toc (root ∷ rest)
                  ++ (render_html_body root.content
                      ++ (sections opts.page_breaks rest
                          ++ "<footer>Exported from Talyvor Docs</footer>\n")))))

  -- `ToHTML`, of the pages that `gatherPages` gives
  unfoldable pub to_html : String → ExportOptions → PageRow → List PageRow → String
  unfolding html_body
  to_html styles opts root rest =
      "<!DOCTYPE html>\n<html lang=\"en\">\n<head>\n<meta charset=\"utf-8\">\n"
      ++ (element "<title>" "</title>\n" (escape root.title)
          ++ (element "<style>" "</style>\n" styles
              ++ element "</head>\n<body>\n" "</body>\n</html>\n" (html_body opts root rest)))
