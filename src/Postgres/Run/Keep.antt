-- ===== src/Postgres/Run/Keep.antt =====
-- Methods that keep a property of the tables, whatever statements fail.
use talyvor_docs.Prelude.{Bool, true, false, List, [], ◌∷◌, if◌then◌else◌}
use talyvor_docs.Postgres.Run.{
  Reply, Run, pure, refuse, ◌>>=◌, statement, select, write, After, Ensures, ensure_bind,
}
use talyvor_docs.Postgres.Run.Calm.{after_same}

-- `P` before a method is `P` after it.
abbrev pub Keeps : {T E A : Type 0} → (T → Type 0) → Run T E A → Type 0
Keeps P m = Ensures P m (λ _. P) P

After-all : {T E A : Type 0} (P : T → Type 0) (r : Reply E A) (t : T) → P t → After (λ _. P) P r t
After-all P (Reply.ok a) t p = p
After-all P (Reply.refused e) t p = p
After-all P Reply.failed t p = p

-- What the run leaves.
pub kept :
    {T E A : Type 0} (P : T → Type 0) (m : Run T E A)
    → Keeps P m
    → (t : T) (down : List Bool) → P t
    → P (m t down).1
kept P m keeps t down p = after_same P (m t down).0 (m t down).1 (keeps t down p)

module _ {T : Type 0} (E : Type 0) (P : T → Type 0) where
  pub keep_pure : {A : Type 0} (a : A) → Keeps P (pure {E = E} a)
  keep_pure a t down p = p

  pub keep_refuse : (A : Type 0) (e : E) → Keeps P (refuse {A = A} e)
  keep_refuse A e t down p = p

  pub keep_bind :
      {A B : Type 0} (m : Run T E A) (f : A → Run T E B)
      → Keeps P m
      → ((a : A) → Keeps P (f a))
      → Keeps P (m >>= f)
  keep_bind m f first next = ensure_bind P P (λ _. P) (λ _. P) m f first next

  pub keep_statement :
      {A : Type 0} (run : T → Reply E A × T)
      → ((t : T) → P t → P (run t).1)
      → Keeps P (statement run)
  unfolding statement
  keep_statement run gives t [] p = After-all P (run t).0 (run t).1 (gives t p)
  keep_statement run gives t (true ∷ down) p = p
  keep_statement run gives t (false ∷ down) p = After-all P (run t).0 (run t).1 (gives t p)

  pub keep_select : {A : Type 0} (read : T → A) → Keeps P (select {E = E} read)
  unfolding select
  keep_select read = keep_statement (λ t. (Reply.ok (read t), t)) (λ t p. p)

  pub keep_write :
      {A : Type 0} (run : T → A × T) → ((t : T) → P t → P (run t).1) → Keeps P (write {E = E} run)
  unfolding write
  keep_write run gives = keep_statement (λ t. (Reply.ok (run t).0, (run t).1)) gives

  pub keep_if :
      {A : Type 0} (test : Bool) (m n : Run T E A)
      → Keeps P m
      → Keeps P n
      → Keeps P (if test then m else n)
  keep_if true m n hm hn = hm
  keep_if false m n hm hn = hn
