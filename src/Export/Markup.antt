-- ===== src/Export/Markup.antt =====
-- internal/export/exporter.go: the HTML of a page as markup.
use Prim.Native.String.{◌++◌}
use talyvor_docs.Prelude.{ℕ, Option, List, [], ◌∷◌, String, Bool, Bool-rule, ◌==◌, if-rule}
use talyvor_docs.Prelude.Int.{ℤ}
use talyvor_docs.Doc.{
  Value, Items, Fields, kind_of, kind-rule, level_of, has_type, as_items, as_fields, as_text, get,
}
use talyvor_docs.Page.{PageRow}
use talyvor_docs.Export.Document.{
  ExportOptions, toc_open, toc_entries, toc_pages, build_toc, walk_headings, object_of,
  render_html_body, sections, html_body,
}
use talyvor_docs.Export.{
  element, has_code, href_of, link_open, wrap_mark, wrap_each, wrap_marks, inline_node,
  render_inline, heading_open, heading_close, is_paragraph, content_of, plain_text, render_block,
  render_blocks, render_content, render_blocks_in, render_body, render_body_in, render_item,
  render_items, render_list, render_items_in,
}

module _ (escape : String → String) (decimal : ℤ → String) (date : ℕ → String)
    (decode : String → Option Value) where
  -- The tags that are opened and closed in pairs.
  pub data Tag : String → String → Type 0 where
    strong : Tag "<strong>" "</strong>"
    em : Tag "<em>" "</em>"
    code : Tag "<code>" "</code>"
    link : (href : String) → Tag (link_open escape decimal href) "</a>"
    heading : (n : ℤ) → Tag (heading_open escape decimal n) (heading_close escape decimal n)
    paragraph : Tag "<p>" "</p>\n"
    code_block : Tag "<pre><code>" "</code></pre>\n"
    blockquote : Tag "<blockquote>" "</blockquote>\n"
    bullet_list : Tag "<ul>" "</ul>\n"
    ordered_list : Tag "<ol>" "</ol>\n"
    item : Tag "<li>" "</li>"
    title : Tag "<h1>" "</h1>\n"
    meta : Tag "<div class=\"meta\">Updated " "</div>"
    watermark : Tag "<div class=\"watermark\">" "</div>"
    toc : Tag "<nav class=\"toc\"><h2>Table of Contents</h2><ul>" "</ul></nav>\n"
    toc_item : (level : ℤ) → Tag (toc_open escape decimal date decode level) "</li>"

  -- Escaped text, elements around markup, and the rule, one beside the other.
  pub data Markup : String → Type 0 where
    nothing : Markup ""
    words : (s : String) → Markup (escape s)
    stamp : (at : ℕ) → Markup (date at)
    rule : Markup "<hr>\n"
    breaks : Markup "<div style=\"page-break-before:always\"></div>\n"
    footer : Markup "<footer>Exported from Talyvor Docs</footer>\n"
    beside : {s t : String} → Markup s → Markup t → Markup (s ++ t)
    inside : {o c s : String} → Tag o c → Markup s → Markup (element o c s)

  wrap_mark-Markup :
      (mark : Fields) (body : String) → Markup body → Markup (wrap_mark escape decimal mark body)
  wrap_mark-Markup mark body m =
      if-rule Markup (has_type "strong" mark) _ _ (λ _. inside strong m)
        λ _.
          if-rule Markup (has_type "em" mark) _ _ (λ _. inside em m)
            λ _.
              if-rule Markup (has_type "link" mark) _ _
                (λ _. inside (link (href_of escape decimal mark)) m) (λ _. m)

  wrap_each-Markup :
      (marks : Items) (body : String) → Markup body → Markup (wrap_each escape decimal marks body)
  unfolding wrap_each
  wrap_each-Markup Items.nil body m = m
  wrap_each-Markup (Items.cons x marks) body m =
      wrap_each-Markup marks (wrap_mark escape decimal (as_fields x) body)
        (wrap_mark-Markup (as_fields x) body m)

  inline_node-Markup : (node : Fields) → Markup (inline_node escape decimal node)
  unfolding wrap_marks
  inline_node-Markup node =
      if-rule Markup (as_text (get "text" node) == "") _ _ (λ _. nothing)
        λ _.
          if-rule Markup (has_code (as_items (get "marks" node))) _ _
            (λ _. inside code (words (as_text (get "text" node))))
            (λ _.
              wrap_each-Markup (as_items (get "marks" node)) (escape (as_text (get "text" node)))
                (words (as_text (get "text" node))))

  render_inline-Markup : (nodes : Items) → Markup (render_inline escape decimal nodes)
  unfolding render_inline
  render_inline-Markup Items.nil = nothing
  render_inline-Markup (Items.cons x xs) =
      beside (inline_node-Markup (as_fields x)) (render_inline-Markup xs)

  mutual
    unfolding render_block

    block-Markup : (v : Value) → Markup (render_block escape decimal v)
    block-Markup (Value.object fs) =
        kind-rule Markup (kind_of fs) _ _ _ _ _ _ _ _
          (inside (heading (level_of fs)) (render_inline-Markup (content_of fs)))
          (inside paragraph (render_inline-Markup (content_of fs)))
          (inside code_block (words (plain_text (content_of fs))))
          (inside blockquote (blocks_in-Markup fs)) (inside bullet_list (items_in-Markup fs))
          (inside ordered_list (items_in-Markup fs)) rule nothing
    block-Markup Value.null = nothing
    block-Markup (Value.flag b) = nothing
    block-Markup (Value.number n) = nothing
    block-Markup (Value.text s) = nothing
    block-Markup (Value.list xs) = nothing

    blocks-Markup : (xs : Items) → Markup (render_blocks escape decimal xs)
    blocks-Markup Items.nil = nothing
    blocks-Markup (Items.cons x xs) = beside (block-Markup x) (blocks-Markup xs)

    content-Markup : (v : Value) → Markup (render_content escape decimal v)
    content-Markup (Value.list xs) = blocks-Markup xs
    content-Markup (Value.object fs) = nothing
    content-Markup Value.null = nothing
    content-Markup (Value.flag b) = nothing
    content-Markup (Value.number n) = nothing
    content-Markup (Value.text s) = nothing

    blocks_in-Markup : (fs : Fields) → Markup (render_blocks_in escape decimal fs)
    blocks_in-Markup Fields.end = nothing
    blocks_in-Markup (Fields.field k v fs) =
        Bool-rule Markup (k == "content") _ _ (content-Markup v) (blocks_in-Markup fs)

    body-Markup : (v : Value) → Markup (render_body escape decimal v)
    body-Markup (Value.list (Items.cons x Items.nil)) =
        Bool-rule Markup (is_paragraph escape decimal x) _ _
          (render_inline-Markup (content_of (as_fields x))) (block-Markup x)
    body-Markup (Value.list (Items.cons x (Items.cons y xs))) =
        beside (block-Markup x) (beside (block-Markup y) (blocks-Markup xs))
    body-Markup (Value.list Items.nil) = nothing
    body-Markup (Value.object fs) = nothing
    body-Markup Value.null = nothing
    body-Markup (Value.flag b) = nothing
    body-Markup (Value.number n) = nothing
    body-Markup (Value.text s) = nothing

    body_in-Markup : (fs : Fields) → Markup (render_body_in escape decimal fs)
    body_in-Markup Fields.end = nothing
    body_in-Markup (Fields.field k v fs) =
        Bool-rule Markup (k == "content") _ _ (body-Markup v) (body_in-Markup fs)

    item-Markup : (v : Value) → Markup (render_item escape decimal v)
    item-Markup (Value.object fs) = inside item (body_in-Markup fs)
    item-Markup Value.null = inside item nothing
    item-Markup (Value.flag b) = inside item nothing
    item-Markup (Value.number n) = inside item nothing
    item-Markup (Value.text s) = inside item nothing
    item-Markup (Value.list xs) = inside item nothing

    items-Markup : (xs : Items) → Markup (render_items escape decimal xs)
    items-Markup Items.nil = nothing
    items-Markup (Items.cons x xs) = beside (item-Markup x) (items-Markup xs)

    list-Markup : (v : Value) → Markup (render_list escape decimal v)
    list-Markup (Value.list xs) = items-Markup xs
    list-Markup (Value.object fs) = nothing
    list-Markup Value.null = nothing
    list-Markup (Value.flag b) = nothing
    list-Markup (Value.number n) = nothing
    list-Markup (Value.text s) = nothing

    items_in-Markup : (fs : Fields) → Markup (render_items_in escape decimal fs)
    items_in-Markup Fields.end = nothing
    items_in-Markup (Fields.field k v fs) =
        Bool-rule Markup (k == "content") _ _ (list-Markup v) (items_in-Markup fs)

  toc_entries-Markup :
      (entries : List (ℤ × String)) → Markup (toc_entries escape decimal date decode entries)
  unfolding toc_entries
  toc_entries-Markup [] = nothing
  toc_entries-Markup ((level, s) ∷ rest) =
      beside (inside (toc_item level) (words s)) (toc_entries-Markup rest)

  toc_pages-Markup : (pages : List PageRow) → Markup (toc_pages escape decimal date decode pages)
  unfolding toc_pages
  toc_pages-Markup [] = nothing
  toc_pages-Markup (p ∷ pages) =
      beside (toc_entries-Markup (walk_headings (object_of (decode p.content))))
        (toc_pages-Markup pages)

  page-Markup : (content : String) → Markup (render_html_body escape decimal date decode content)
  unfolding render_html_body
  page-Markup content = blocks_in-Markup (as_fields (object_of (decode content)))

  sections-Markup :
      (break : Bool) (pages : List PageRow)
      → Markup (sections escape decimal date decode break pages)
  unfolding sections
  sections-Markup break [] = nothing
  sections-Markup break (p ∷ pages) = beside rule (
      beside (if-rule Markup break _ _ (λ _. breaks) (λ _. nothing)) (
        beside (inside title (words p.title))
          (beside (page-Markup p.content) (sections-Markup break pages))))

  -- Whatever the pages hold, the body of their HTML is well-nested: text of the documents stands between tags only as
  -- html.EscapeString gives it, an address only inside the quotes of a link and escaped too, and each tag that is
  -- opened is closed in its order.
  pub html_body-Markup :
      (opts : ExportOptions) (root : PageRow) (rest : List PageRow)
      → Markup (html_body escape decimal date decode opts root rest)
  unfolding html_body build_toc
  html_body-Markup opts root rest =
      beside
        (if-rule Markup (opts.watermark == "") _ _ (λ _. nothing)
          (λ _. inside watermark (words opts.watermark)))
        (beside (inside title (words root.title)) (
          beside (inside meta (stamp root.updated_at)) (
            beside
              (if-rule Markup opts.include_toc _ _
                (λ _. inside toc (toc_pages-Markup (root ∷ rest))) (λ _. nothing))
              (beside (page-Markup root.content)
                (beside (sections-Markup opts.page_breaks rest) footer)))))
