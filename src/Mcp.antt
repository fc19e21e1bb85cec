-- ===== src/Mcp.antt =====
-- internal/mcp/markdown.go: ProseMirror documents as markdown. A `none` is a panic: strings.Repeat panics at a
-- negative count. Decoding a text, and whether it is blank, are parameters.
pub mod Panics
pub mod Tests
use Prim.Native.Char.{Char}
use Prim.Native.String.{◌++◌}
use talyvor_docs.Prelude.{
  ℕ, zero, suc, ◌+◌, String, Bool, true, false, ◌&&◌, Option, none, some, List, [], ◌∷◌, ◌==◌,
  if◌then◌else◌,
}
use talyvor_docs.Prelude.Int.{ℤ, pos, negsuc}
use talyvor_docs.Doc.{
  Value, Items, Fields, get, as_text, as_items, as_fields, has_type, text_of, Kind, kind_of,
  level_of,
}
use talyvor_docs.Export.{has_code, content_of}

-- Two parts written one after the other.
abbrev pub both : Option String → Option String → Option String
both none b = none
both (some s) none = none
both (some s) (some t) = some (s ++ t)

abbrev pub mapped : (String → String) → Option String → Option String
mapped f none = none
mapped f (some s) = some (f s)

-- strings.Repeat
unfoldable pub copies : String → ℕ → String
copies s zero = ""
copies s (suc n) = s ++ copies s n

abbrev pub repeat : String → ℤ → Option String
repeat s (pos n) = some (copies s n)
repeat s (negsuc n) = none

abbrev pub is_newline : Char → Bool
is_newline c = String.◌∷◌ c String.[] == "\n"

-- strings.TrimRight(s, "\n")
unfoldable pub trim_newlines : String → String
trim_newlines String.[] = ""
trim_newlines (String.◌∷◌ c s) =
    let rest = trim_newlines s in if is_newline c && rest == "" then "" else String.◌∷◌ c rest

abbrev pub onto_first : Char → List String → List String
onto_first c [] = String.◌∷◌ c String.[] ∷ []
onto_first c (line ∷ lines) = String.◌∷◌ c line ∷ lines

-- strings.Split(s, "\n")
unfoldable pub split_lines : String → List String
split_lines String.[] = "" ∷ []
split_lines (String.◌∷◌ c s) =
    let rest = split_lines s in if is_newline c then "" ∷ rest else onto_first c rest

unfoldable pub quoted : List String → String
quoted [] = ""
quoted (line ∷ lines) = "> " ++ (line ++ ("\n" ++ quoted lines))

-- The lines of a quotation.
unfoldable pub quote : String → String
unfolding trim_newlines split_lines quoted
quote inner = quoted (split_lines (trim_newlines inner))

abbrev pub linked : String → Option String → String
linked body none = body
linked body (some href) = "[" ++ (body ++ ("](" ++ (href ++ ")")))

abbrev pub apply_mark : Fields → String → String
apply_mark mark body =
    if has_type "strong" mark
    then "**" ++ (body ++ "**")
    else if has_type "em" mark
    then "*" ++ (body ++ "*")
    else if has_type "link" mark
    then linked body (text_of (get "href" (as_fields (get "attrs" mark))))
    else body

unfoldable pub apply_each : Items → String → String
unfolding get
apply_each Items.nil body = body
apply_each (Items.cons m marks) body = apply_each marks (apply_mark (as_fields m) body)

-- `applyMarks`
unfoldable pub apply_marks : Items → String → String
unfolding has_code apply_each
apply_marks marks body = if has_code marks then "`" ++ (body ++ "`") else apply_each marks body

abbrev pub inline_node : Fields → String
inline_node node =
    let s = as_text (get "text" node) in
    if s == "" then "" else apply_marks (as_items (get "marks" node)) s

-- `renderInline`
unfoldable pub render_inline : Items → String
unfolding get apply_marks
render_inline Items.nil = ""
render_inline (Items.cons x xs) = inline_node (as_fields x) ++ render_inline xs

abbrev pub language_of : Fields → String
language_of fs = as_text (get "language" (as_fields (get "attrs" fs)))

-- The newline between two blocks.
abbrev pub separator : Items → String
separator Items.nil = ""
separator (Items.cons x xs) = "\n"

abbrev pub is_object : Value → Bool
is_object (Value.object fs) = true
is_object Value.null = false
is_object (Value.flag b) = false
is_object (Value.number n) = false
is_object (Value.text s) = false
is_object (Value.list xs) = false

abbrev pub heading_line : Fields → Option String
heading_line fs =
    both (repeat "#" (level_of fs)) (some (" " ++ (render_inline (content_of fs) ++ "\n")))

abbrev pub fenced : Fields → String
fenced fs = "```" ++ (language_of fs ++ ("\n" ++ (render_inline (content_of fs) ++ "\n```\n")))

abbrev pub item_line : ℕ → String → Fields → Option String
item_line indent lead fs =
    some (copies "  " indent ++ (lead ++ (render_inline (content_of fs) ++ "\n")))

-- `renderBlock`, `renderBlocks` and `renderList`. The functions on fields look for the content.
unfoldable mutual
  unfolding get kind_of render_inline copies quote

  pub render_block : Value → ℕ → Option String
  render_block (Value.object fs) indent = elim (kind_of fs) [
    | Kind.heading ↦ heading_line fs
    | Kind.paragraph ↦ some (render_inline (content_of fs) ++ "\n")
    | Kind.code_block ↦ some (fenced fs)
    | Kind.blockquote ↦ mapped quote (render_blocks_in fs)
    | Kind.bullet_list ↦ render_list_in fs indent "- "
    | Kind.ordered_list ↦ render_list_in fs indent "1. "
    | Kind.horizontal_rule ↦ some "---\n"
    | Kind.other ↦ some ""
  ]
  render_block Value.null indent = some ""
  render_block (Value.flag b) indent = some ""
  render_block (Value.number n) indent = some ""
  render_block (Value.text s) indent = some ""
  render_block (Value.list xs) indent = some ""

  -- A block and the newline after it; what is no object is skipped.
  pub render_blocks : Items → Option String
  render_blocks Items.nil = some ""
  render_blocks (Items.cons x xs) = elim (is_object x) [
    | true ↦ both (render_block x 0) (both (some (separator xs)) (render_blocks xs))
    | false ↦ render_blocks xs
  ]

  pub render_content : Value → Option String
  render_content (Value.list xs) = render_blocks xs
  render_content (Value.object fs) = some ""
  render_content Value.null = some ""
  render_content (Value.flag b) = some ""
  render_content (Value.number n) = some ""
  render_content (Value.text s) = some ""

  pub render_blocks_in : Fields → Option String
  render_blocks_in Fields.end = some ""
  render_blocks_in (Fields.field k v fs) = elim (k == "content") [
    | true ↦ render_content v
    | false ↦ render_blocks_in fs
  ]

  -- The children of a list item; a first paragraph stands after the marker.
  pub render_children : Items → ℕ → String → Option String
  render_children Items.nil indent lead = some ""
  render_children (Items.cons x xs) indent lead =
      both
        (elim (has_type "paragraph" (as_fields x)) [
          | true ↦ item_line indent lead (as_fields x)
          | false ↦ render_block x (indent + 1)
        ])
        (render_children xs indent "  ")

  pub render_body : Value → ℕ → String → Option String
  render_body (Value.list xs) indent marker = render_children xs indent marker
  render_body (Value.object fs) indent marker = some ""
  render_body Value.null indent marker = some ""
  render_body (Value.flag b) indent marker = some ""
  render_body (Value.number n) indent marker = some ""
  render_body (Value.text s) indent marker = some ""

  pub render_body_in : Fields → ℕ → String → Option String
  render_body_in Fields.end indent marker = some ""
  render_body_in (Fields.field k v fs) indent marker = elim (k == "content") [
    | true ↦ render_body v indent marker
    | false ↦ render_body_in fs indent marker
  ]

  pub render_item : Value → ℕ → String → Option String
  render_item (Value.object fs) indent marker = render_body_in fs indent marker
  render_item Value.null indent marker = some ""
  render_item (Value.flag b) indent marker = some ""
  render_item (Value.number n) indent marker = some ""
  render_item (Value.text s) indent marker = some ""
  render_item (Value.list xs) indent marker = some ""

  pub render_items : Items → ℕ → String → Option String
  render_items Items.nil indent marker = some ""
  render_items (Items.cons x xs) indent marker =
      both (render_item x indent marker) (render_items xs indent marker)

  pub render_list : Value → ℕ → String → Option String
  render_list (Value.list xs) indent marker = render_items xs indent marker
  render_list (Value.object fs) indent marker = some ""
  render_list Value.null indent marker = some ""
  render_list (Value.flag b) indent marker = some ""
  render_list (Value.number n) indent marker = some ""
  render_list (Value.text s) indent marker = some ""

  pub render_list_in : Fields → ℕ → String → Option String
  render_list_in Fields.end indent marker = some ""
  render_list_in (Fields.field k v fs) indent marker = elim (k == "content") [
    | true ↦ render_list v indent marker
    | false ↦ render_list_in fs indent marker
  ]

module _ (is_blank : String → Bool) (decode : String → Option Value) where
  abbrev pub rendered : Option Value → Option String
  rendered none = some ""
  rendered (some doc) = mapped trim_newlines (render_blocks_in (as_fields doc))

  -- `ProseMirrorToMarkdown`
  unfoldable pub prose_mirror_to_markdown : String → Option String
  unfolding render_blocks_in trim_newlines
  prose_mirror_to_markdown pm = if is_blank pm then some "" else rendered (decode pm)
