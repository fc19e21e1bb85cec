-- ===== src/Mcp/Panics.antt =====
-- internal/mcp/markdown.go: which documents the markdown writer panics at.
use Prim.Native.String.{◌++◌}
use talyvor_docs.Prelude.{
  ℕ, ◌+◌, String, ◌≡◌, refl, Bool, false, Option, none, some, ◌==◌, Bool-rule,
}
use talyvor_docs.Prelude.Int.{ℤ, pos, negsuc}
use talyvor_docs.Doc.{Value, Items, Fields, as_fields, has_type, kind_of, kind-rule, level_of}
use talyvor_docs.Export.{content_of}
use talyvor_docs.Mcp.{
  both, mapped, repeat, copies, quote, render_inline, separator, is_object, heading_line, fenced,
  render_block, render_blocks, render_content, render_blocks_in, render_children, render_body,
  render_body_in, render_item, render_items, render_list, render_list_in, prose_mirror_to_markdown,
}

abbrev pub IsNatural : ℤ → Type 0
IsNatural (pos n) = Unit
IsNatural (negsuc n) = ⊥

-- No heading of the document has a negative level.
mutual
  pub data Levelled : Value → Type 0 where
    null : Levelled Value.null
    flag : (b : Bool) → Levelled (Value.flag b)
    number : (n : ℤ) → Levelled (Value.number n)
    text : (s : String) → Levelled (Value.text s)
    list : {xs : Items} → LevelledItems xs → Levelled (Value.list xs)
    object :
        {fs : Fields} → IsNatural (level_of fs) → LevelledFields fs → Levelled (Value.object fs)

  pub data LevelledItems : Items → Type 0 where
    nil : LevelledItems Items.nil
    cons :
        {x : Value} {xs : Items} → Levelled x → LevelledItems xs → LevelledItems (Items.cons x xs)

  pub data LevelledFields : Fields → Type 0 where
    end : LevelledFields Fields.end
    field :
        {k : String} {v : Value} {fs : Fields}
        → Levelled v
        → LevelledFields fs
        → LevelledFields (Fields.field k v fs)

-- The writer returns.
abbrev pub Returns : Option String → Type 0
Returns r = (s : String) × (r ≡ some s)

both-Returns : (a b : Option String) → Returns a → Returns b → Returns (both a b)
both-Returns a b (s, p) (t, q) = (s ++ t, rw (p, q) refl)

mapped-Returns : (f : String → String) (a : Option String) → Returns a → Returns (mapped f a)
mapped-Returns f a (s, p) = (f s, rw p refl)

heading-Returns : (fs : Fields) → IsNatural (level_of fs) → Returns (heading_line fs)
heading-Returns fs = by_level (level_of fs)
  where
    by_level :
        (n : ℤ)
        → IsNatural n
        → Returns (both (repeat "#" n) (some (" " ++ (render_inline (content_of fs) ++ "\n"))))
    by_level (pos n) h = (copies "#" n ++ (" " ++ (render_inline (content_of fs) ++ "\n")), refl)
    by_level (negsuc n) h = absurd h

mutual
  unfolding render_block

  block-Returns : (v : Value) (n : ℕ) → Levelled v → Returns (render_block v n)
  block-Returns (Value.object fs) n (Levelled.object level fields) =
      kind-rule Returns (kind_of fs) _ _ _ _ _ _ _ _ (heading-Returns fs level)
        (render_inline (content_of fs) ++ "\n", refl) (fenced fs, refl)
        (mapped-Returns quote _ (blocks_in-Returns fs fields)) (list_in-Returns fs n "- " fields)
        (list_in-Returns fs n "1. " fields) ("---\n", refl) ("", refl)
  block-Returns Value.null n h = ("", refl)
  block-Returns (Value.flag b) n h = ("", refl)
  block-Returns (Value.number k) n h = ("", refl)
  block-Returns (Value.text s) n h = ("", refl)
  block-Returns (Value.list xs) n h = ("", refl)

  blocks-Returns : (xs : Items) → LevelledItems xs → Returns (render_blocks xs)
  blocks-Returns Items.nil h = ("", refl)
  blocks-Returns (Items.cons x xs) (LevelledItems.cons hx hxs) =
      Bool-rule Returns (is_object x) _ _
        (both-Returns _ _ (block-Returns x 0 hx)
          (both-Returns _ _ (separator xs, refl) (blocks-Returns xs hxs)))
        (blocks-Returns xs hxs)

  content-Returns : (v : Value) → Levelled v → Returns (render_content v)
  content-Returns (Value.list xs) (Levelled.list hxs) = blocks-Returns xs hxs
  content-Returns (Value.object fs) h = ("", refl)
  content-Returns Value.null h = ("", refl)
  content-Returns (Value.flag b) h = ("", refl)
  content-Returns (Value.number k) h = ("", refl)
  content-Returns (Value.text s) h = ("", refl)

  blocks_in-Returns : (fs : Fields) → LevelledFields fs → Returns (render_blocks_in fs)
  blocks_in-Returns Fields.end h = ("", refl)
  blocks_in-Returns (Fields.field k v fs) (LevelledFields.field hv hfs) =
      Bool-rule Returns (k == "content") _ _ (content-Returns v hv) (blocks_in-Returns fs hfs)

  children-Returns :
      (xs : Items) (n : ℕ) (lead : String) → LevelledItems xs → Returns (render_children xs n lead)
  children-Returns Items.nil n lead h = ("", refl)
  children-Returns (Items.cons x xs) n lead (LevelledItems.cons hx hxs) =
      both-Returns _ _
        (Bool-rule Returns (has_type "paragraph" (as_fields x)) _ _
          (copies "  " n ++ (lead ++ (render_inline (content_of (as_fields x)) ++ "\n")), refl)
          (block-Returns x (n + 1) hx))
        (children-Returns xs n "  " hxs)

  body-Returns :
      (v : Value) (n : ℕ) (marker : String) → Levelled v → Returns (render_body v n marker)
  body-Returns (Value.list xs) n marker (Levelled.list hxs) = children-Returns xs n marker hxs
  body-Returns (Value.object fs) n marker h = ("", refl)
  body-Returns Value.null n marker h = ("", refl)
  body-Returns (Value.flag b) n marker h = ("", refl)
  body-Returns (Value.number k) n marker h = ("", refl)
  body-Returns (Value.text s) n marker h = ("", refl)

  body_in-Returns :
      (fs : Fields) (n : ℕ) (marker : String)
      → LevelledFields fs
      → Returns (render_body_in fs n marker)
  body_in-Returns Fields.end n marker h = ("", refl)
  body_in-Returns (Fields.field k v fs) n marker (LevelledFields.field hv hfs) =
      Bool-rule Returns (k == "content") _ _ (body-Returns v n marker hv)
        (body_in-Returns fs n marker hfs)

  item-Returns :
      (v : Value) (n : ℕ) (marker : String) → Levelled v → Returns (render_item v n marker)
  item-Returns (Value.object fs) n marker (Levelled.object level hfs) =
      body_in-Returns fs n marker hfs
  item-Returns Value.null n marker h = ("", refl)
  item-Returns (Value.flag b) n marker h = ("", refl)
  item-Returns (Value.number k) n marker h = ("", refl)
  item-Returns (Value.text s) n marker h = ("", refl)
  item-Returns (Value.list xs) n marker h = ("", refl)

  items-Returns :
      (xs : Items) (n : ℕ) (marker : String) → LevelledItems xs → Returns (render_items xs n marker)
  items-Returns Items.nil n marker h = ("", refl)
  items-Returns (Items.cons x xs) n marker (LevelledItems.cons hx hxs) =
      both-Returns _ _ (item-Returns x n marker hx) (items-Returns xs n marker hxs)

  list-Returns :
      (v : Value) (n : ℕ) (marker : String) → Levelled v → Returns (render_list v n marker)
  list-Returns (Value.list xs) n marker (Levelled.list hxs) = items-Returns xs n marker hxs
  list-Returns (Value.object fs) n marker h = ("", refl)
  list-Returns Value.null n marker h = ("", refl)
  list-Returns (Value.flag b) n marker h = ("", refl)
  list-Returns (Value.number k) n marker h = ("", refl)
  list-Returns (Value.text s) n marker h = ("", refl)

  list_in-Returns :
      (fs : Fields) (n : ℕ) (marker : String)
      → LevelledFields fs
      → Returns (render_list_in fs n marker)
  list_in-Returns Fields.end n marker h = ("", refl)
  list_in-Returns (Fields.field k v fs) n marker (LevelledFields.field hv hfs) =
      Bool-rule Returns (k == "content") _ _ (list-Returns v n marker hv)
        (list_in-Returns fs n marker hfs)

-- A document whose blocks start with a heading of a negative level.
abbrev pub negative_heading : ℕ → Items → Value
negative_heading n rest = Value.object (
    Fields.field "content"
      (Value.list (
        Items.cons
          (Value.object (
            Fields.field "type" (Value.text "heading") (
              Fields.field "attrs"
                (Value.object (Fields.field "level" (Value.number (negsuc n)) Fields.end))
                Fields.end)))
          rest))
      Fields.end)

module _ (is_blank : String → Bool) (decode : String → Option Value) where
  -- The markdown writer panics at every document whose first block is a heading of a negative level.
  prose_mirror_to_markdown-none :
      (pm : String) (n : ℕ) (rest : Items)
      → is_blank pm ≡ false
      → decode pm ≡ some (negative_heading n rest)
      → prose_mirror_to_markdown is_blank decode pm ≡ none
  unfolding prose_mirror_to_markdown render_blocks_in
  prose_mirror_to_markdown-none pm n rest words bad = rw (words, bad) refl
