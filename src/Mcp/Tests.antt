-- ===== src/Mcp/Tests.antt =====
-- Small documents as markdown.
use talyvor_docs.Prelude.{String, ◌≡◌, refl, Bool, Option, none, some, ◌==◌, if◌then◌else◌}
use talyvor_docs.Prelude.Int.{pos}
use talyvor_docs.Doc.{Value, Items, Fields}
use talyvor_docs.Mcp.{prose_mirror_to_markdown}
use talyvor_docs.Mcp.Panics.{negative_heading}

-- "## Hi"
abbrev titled : Value
titled = Value.object (
    Fields.field "content"
      (Value.list (
        Items.cons
          (Value.object (
            Fields.field "type" (Value.text "heading") (
              Fields.field "attrs"
                (Value.object (Fields.field "level" (Value.number (pos 2)) Fields.end))
                (Fields.field "content"
                  (Value.list (
                    Items.cons (Value.object (Fields.field "text" (Value.text "Hi") Fields.end))
                      Items.nil))
                  Fields.end))))
          Items.nil))
      Fields.end)

abbrev decode : String → Option Value
decode pm =
    if pm == "titled"
    then some titled
    else if pm == "bad"
    then some (negative_heading 0 Items.nil)
    else none

abbrev is_blank : String → Bool
is_blank pm = pm == ""

titled_markdown : prose_mirror_to_markdown is_blank decode "titled" ≡ some "## Hi"
unfolding prose_mirror_to_markdown
titled_markdown = refl
