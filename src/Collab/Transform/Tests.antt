-- ===== src/Collab/Transform/Tests.antt =====
-- Runs of `transform` at fixed inputs: those of internal/collab/ot_test.go.
use talyvor_docs.Prelude.{◌≡◌, refl, [], ◌∷◌}
use talyvor_docs.Prelude.Int.{pos, add_int, sub_int}
use talyvor_docs.Collab.Types.{Op, OpType}
use talyvor_docs.Collab.Transform.{transform_op}

abbrev ins : Op
ins = record { type = OpType.insert; pos = pos 10; content = "x"; length = pos 0 }

abbrev del : Op
del = record { type = OpType.delete; pos = pos 5; content = ""; length = pos 3 }

abbrev hello : Op
hello = record { type = OpType.insert; pos = pos 3; content = "hello"; length = pos 0 }

shifts_after_delete : (transform_op (del ∷ []) ins).pos ≡ pos 7
unfolding transform_op add_int sub_int
shifts_after_delete = refl

shifts_after_insert : (transform_op (hello ∷ []) ins).pos ≡ pos 15
unfolding transform_op add_int sub_int
shifts_after_insert = refl

tie_goes_to_the_committed : (transform_op (ins ∷ []) ins).pos ≡ pos 11
unfolding transform_op add_int sub_int
tie_goes_to_the_committed = refl
