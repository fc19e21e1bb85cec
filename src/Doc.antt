-- ===== src/Doc.antt =====
-- The ProseMirror documents that internal/pagelink, internal/mcp and internal/export decode: the values of
-- encoding/json. Decoding a text is a parameter of the code that does it. The decoder keeps one value for a
-- key; a number is its integer part, which is all of it that these packages read.
use talyvor_docs.Prelude.{String, Bool, Option, none, some, ◌==◌, if◌then◌else◌}
use talyvor_docs.Prelude.Int.{ℤ, pos}

mutual
  pub data Value : Type 0 where
    null : Value
    flag : Bool → Value
    number : ℤ → Value
    text : String → Value
    list : Items → Value
    object : Fields → Value

  pub data Items : Type 0 where
    nil : Items
    cons : Value → Items → Items

  pub data Fields : Type 0 where
    end : Fields
    field : String → Value → Fields → Fields

-- m[key]; the value of a key that is not there is null.
unfoldable pub get : String → Fields → Value
get key end = null
get key (field k v fs) = if k == key then v else get key fs

-- v.(string), with "" for any other value
abbrev pub as_text : Value → String
as_text (text s) = s
as_text null = ""
as_text (flag b) = ""
as_text (number n) = ""
as_text (list xs) = ""
as_text (object fs) = ""

-- v.([]any), with nil for any other value
abbrev pub as_items : Value → Items
as_items (list xs) = xs
as_items null = nil
as_items (flag b) = nil
as_items (number n) = nil
as_items (text s) = nil
as_items (object fs) = nil

-- v.(map[string]any), with nil for any other value
abbrev pub as_fields : Value → Fields
as_fields (object fs) = fs
as_fields null = end
as_fields (flag b) = end
as_fields (number n) = end
as_fields (text s) = end
as_fields (list xs) = end

-- v.(float64), converted to an int
abbrev pub as_number : Value → Option ℤ
as_number (number n) = some n
as_number null = none
as_number (flag b) = none
as_number (text s) = none
as_number (list xs) = none
as_number (object fs) = none

-- A test of m["type"] against a name.
abbrev pub has_type : String → Fields → Bool
has_type name fs = as_text (get "type" fs) == name

-- The block types that the writers of internal/mcp and internal/export know.
pub data Kind : Type 0 where
  heading paragraph code_block blockquote bullet_list ordered_list horizontal_rule other : Kind

unfoldable pub kind_of : Fields → Kind
unfolding get
kind_of fs =
    if has_type "heading" fs
    then Kind.heading
    else if has_type "paragraph" fs
    then Kind.paragraph
    else if has_type "code_block" fs
    then Kind.code_block
    else if has_type "blockquote" fs
    then Kind.blockquote
    else if has_type "bullet_list" fs
    then Kind.bullet_list
    else if has_type "ordered_list" fs
    then Kind.ordered_list
    else if has_type "horizontal_rule" fs
    then Kind.horizontal_rule
    else Kind.other

abbrev pub or_one : Option ℤ → ℤ
or_one none = pos 1
or_one (some n) = n

-- The level of a heading, 1 where it has none.
abbrev pub level_of : Fields → ℤ
level_of fs = or_one (as_number (get "level" (as_fields (get "attrs" fs))))

-- To prove a property of the cases on a kind.
pub kind-rule {ℓ κ} :
    {A : Type ℓ} (P : A → Type κ) (k : Kind) (h p c q b o r x : A)
    → P h
    → P p
    → P c
    → P q
    → P b
    → P o
    → P r
    → P x
    → P (elim k as (λ _. A) [
      | Kind.heading ↦ h
      | Kind.paragraph ↦ p
      | Kind.code_block ↦ c
      | Kind.blockquote ↦ q
      | Kind.bullet_list ↦ b
      | Kind.ordered_list ↦ o
      | Kind.horizontal_rule ↦ r
      | Kind.other ↦ x
    ])
kind-rule P Kind.heading h p c q b o r x ph pp pc pq pb po pr px = ph
kind-rule P Kind.paragraph h p c q b o r x ph pp pc pq pb po pr px = pp
kind-rule P Kind.code_block h p c q b o r x ph pp pc pq pb po pr px = pc
kind-rule P Kind.blockquote h p c q b o r x ph pp pc pq pb po pr px = pq
kind-rule P Kind.bullet_list h p c q b o r x ph pp pc pq pb po pr px = pb
kind-rule P Kind.ordered_list h p c q b o r x ph pp pc pq pb po pr px = po
kind-rule P Kind.horizontal_rule h p c q b o r x ph pp pc pq pb po pr px = pr
kind-rule P Kind.other h p c q b o r x ph pp pc pq pb po pr px = px

-- v.(string), where it is one
abbrev pub text_of : Value → Option String
text_of (text s) = some s
text_of null = none
text_of (flag b) = none
text_of (number n) = none
text_of (list xs) = none
text_of (object fs) = none
