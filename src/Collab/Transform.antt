-- ===== src/Collab/Transform.antt =====
-- internal/collab/ot.go: `transform`, the shift of one change against another.
pub mod Track
pub mod Converge
mod Tests
use mathlib.Core.List.{foldl}
use Prim.Native.String.{len}
use talyvor_docs.Prelude.{List, map, if◌then◌else◌}
use talyvor_docs.Prelude.Int.{pos, ltb_ℤ, leb_ℤ, add_int, sub_int}
use talyvor_docs.Collab.Types.{Op, OpType, Change}

-- The inner loop's body: `shifted` against one concurrent operation.
unfoldable pub shift : Op → Op → Op
shift shifted c = elim c.type [
  | OpType.delete ↦
      if ltb_ℤ c.pos shifted.pos
      then (let moved = sub_int shifted.pos c.length in
          record shifted { pos = if ltb_ℤ moved c.pos then c.pos else moved })
      else shifted
  | OpType.insert ↦
      if leb_ℤ c.pos shifted.pos
      then record shifted { pos = add_int shifted.pos (pos (len c.content)) }
      else shifted
  | _ ↦ shifted
]

-- The inner loop, over the operations of the concurrent change in order.
unfoldable pub transform_op : List Op → Op → Op
unfolding shift
transform_op concurrent o = foldl shift o concurrent

unfoldable pub transform : Change → Change → Change
unfolding transform_op
transform op concurrent = record op { ops = map (transform_op concurrent.ops) op.ops }
