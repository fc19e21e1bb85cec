-- ===== src/Export.antt =====
-- internal/export/exporter.go: pages as HTML. Decoding a page's content, html.EscapeString, the decimal text of
-- a number, the style sheet and the text of a date are parameters.
pub mod Children
pub mod Document
pub mod Markup
pub mod Tests
use Prim.Native.String.{◌++◌}
use talyvor_docs.Prelude.{String, Bool, true, false, none, some, List, [], ◌∷◌, ◌==◌, if◌then◌else◌}
use talyvor_docs.Prelude.Int.{ℤ, pos, negsuc}
use talyvor_docs.Doc.{
  Value, Items, Fields, get, as_text, as_items, as_fields, has_type, Kind, kind_of, level_of,
}

-- `plainTextOf`
unfoldable pub plain_text : Items → String
unfolding get
plain_text Items.nil = ""
plain_text (Items.cons x xs) = as_text (get "text" (as_fields x)) ++ plain_text xs

abbrev pub content_of : Fields → Items
content_of fs = as_items (get "content" fs)

abbrev pub element : String → String → String → String
element open_tag close_tag body = open_tag ++ (body ++ close_tag)

-- Whether a mark is "code", which `wrapMarks` and the markdown writer look for first.
unfoldable pub has_code : Items → Bool
unfolding get
has_code Items.nil = false
has_code (Items.cons m marks) = if has_type "code" (as_fields m) then true else has_code marks

module _ (escape : String → String) (decimal : ℤ → String) where
  abbrev pub href_of : Fields → String
  href_of mark = as_text (get "href" (as_fields (get "attrs" mark)))

  abbrev pub link_open : String → String
  link_open href = "<a href=\"" ++ (escape href ++ "\" rel=\"noopener noreferrer\">")

  abbrev pub wrap_mark : Fields → String → String
  wrap_mark mark body =
      if has_type "strong" mark
      then element "<strong>" "</strong>" body
      else if has_type "em" mark
      then element "<em>" "</em>" body
      else if has_type "link" mark
      then element (link_open (href_of mark)) "</a>" body
      else body

  unfoldable pub wrap_each : Items → String → String
  unfolding get
  wrap_each Items.nil body = body
  wrap_each (Items.cons m marks) body = wrap_each marks (wrap_mark (as_fields m) body)

  -- `wrapMarks`
  unfoldable pub wrap_marks : Items → String → String
  unfolding has_code wrap_each
  wrap_marks marks body =
      if has_code marks then element "<code>" "</code>" body else wrap_each marks body

  abbrev pub inline_node : Fields → String
  inline_node node =
      let s = as_text (get "text" node) in
      if s == "" then "" else wrap_marks (as_items (get "marks" node)) (escape s)

  -- `renderHTMLInline`
  unfoldable pub render_inline : Items → String
  unfolding get wrap_marks
  render_inline Items.nil = ""
  render_inline (Items.cons x xs) = inline_node (as_fields x) ++ render_inline xs

  abbrev pub is_paragraph : Value → Bool
  is_paragraph x = has_type "paragraph" (as_fields x)

  abbrev pub heading_open : ℤ → String
  heading_open n = "<h" ++ (decimal n ++ ">")

  abbrev pub heading_close : ℤ → String
  heading_close n = "</h" ++ (decimal n ++ ">\n")

  -- `renderHTMLBlock`, `renderHTMLBlocks` and `renderHTMLListItems`. The functions on fields look for the content.
  unfoldable mutual
    unfolding get kind_of plain_text render_inline

    pub render_block : Value → String
    render_block (Value.object fs) = elim (kind_of fs) [
      | Kind.heading ↦
          element (heading_open (level_of fs)) (heading_close (level_of fs))
            (render_inline (content_of fs))
      | Kind.paragraph ↦ element "<p>" "</p>\n" (render_inline (content_of fs))
      | Kind.code_block ↦
          element "<pre><code>" "</code></pre>\n" (escape (plain_text (content_of fs)))
      | Kind.blockquote ↦ element "<blockquote>" "</blockquote>\n" (render_blocks_in fs)
      | Kind.bullet_list ↦ element "<ul>" "</ul>\n" (render_items_in fs)
      | Kind.ordered_list ↦ element "<ol>" "</ol>\n" (render_items_in fs)
      | Kind.horizontal_rule ↦ "<hr>\n"
      | Kind.other ↦ ""
    ]
    render_block Value.null = ""
    render_block (Value.flag b) = ""
    render_block (Value.number n) = ""
    render_block (Value.text s) = ""
    render_block (Value.list xs) = ""

    pub render_blocks : Items → String
    render_blocks Items.nil = ""
    render_blocks (Items.cons x xs) = render_block x ++ render_blocks xs

    pub render_content : Value → String
    render_content (Value.list xs) = render_blocks xs
    render_content (Value.object fs) = ""
    render_content Value.null = ""
    render_content (Value.flag b) = ""
    render_content (Value.number n) = ""
    render_content (Value.text s) = ""

    pub render_blocks_in : Fields → String
    render_blocks_in Fields.end = ""
    render_blocks_in (Fields.field k v fs) = elim (k == "content") [
      | true ↦ render_content v
      | false ↦ render_blocks_in fs
    ]

    -- The body of a list item: one paragraph alone loses its wrapping.
    pub render_body : Value → String
    render_body (Value.list (Items.cons x Items.nil)) = elim (is_paragraph x) [
      | true ↦ render_inline (content_of (as_fields x))
      | false ↦ render_block x
    ]
    render_body (Value.list (Items.cons x (Items.cons y xs))) =
        render_block x ++ (render_block y ++ render_blocks xs)
    render_body (Value.list Items.nil) = ""
    render_body (Value.object fs) = ""
    render_body Value.null = ""
    render_body (Value.flag b) = ""
    render_body (Value.number n) = ""
    render_body (Value.text s) = ""

    pub render_body_in : Fields → String
    render_body_in Fields.end = ""
    render_body_in (Fields.field k v fs) = elim (k == "content") [
      | true ↦ render_body v
      | false ↦ render_body_in fs
    ]

    pub render_item : Value → String
    render_item (Value.object fs) = element "<li>" "</li>" (render_body_in fs)
    render_item Value.null = element "<li>" "</li>" ""
    render_item (Value.flag b) = element "<li>" "</li>" ""
    render_item (Value.number n) = element "<li>" "</li>" ""
    render_item (Value.text s) = element "<li>" "</li>" ""
    render_item (Value.list xs) = element "<li>" "</li>" ""

    pub render_items : Items → String
    render_items Items.nil = ""
    render_items (Items.cons x xs) = render_item x ++ render_items xs

    pub render_list : Value → String
    render_list (Value.list xs) = render_items xs
    render_list (Value.object fs) = ""
    render_list Value.null = ""
    render_list (Value.flag b) = ""
    render_list (Value.number n) = ""
    render_list (Value.text s) = ""

    pub render_items_in : Fields → String
    render_items_in Fields.end = ""
    render_items_in (Fields.field k v fs) = elim (k == "content") [
      | true ↦ render_list v
      | false ↦ render_items_in fs
    ]
