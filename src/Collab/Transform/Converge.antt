-- ===== src/Collab/Transform/Converge.antt =====
-- Two concurrent inserts, transformed in either order.
use talyvor_docs.Prelude.{ℕ, ◌+◌, List, length, leb, if◌then◌else◌}

module _ {A : Type 0} where
  -- The new place of an insert at `q` that is transformed against one at `p`.
  abbrev pub moved : ℕ → ℕ → List A → ℕ
  moved q p v = if leb p q then q + length v else q
