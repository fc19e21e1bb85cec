-- ===== src/Postgres/Run.antt =====
-- Store methods over tables of their own: a statement runs to its end on the tables, or the database
-- fails it. The list tells which of the coming statements fail; past its end none does.
pub mod Calm
pub mod Keep
use talyvor_docs.Prelude.{Bool, true, false, List, [], ◌∷◌, if◌then◌else◌}

-- What a method returns: a value, an error of its own, or an error of the database.
pub data Reply (E A : Type 0) : Type 0 where
  ok : A → Reply E A
  refused : E → Reply E A
  failed : Reply E A

abbrev pub Run : Type 0 → Type 0 → Type 0 → Type 0
Run T E A = T → List Bool → Reply E A × T × List Bool

module _ {T E A : Type 0} where
  abbrev pub pure : A → Run T E A
  pure a t down = (ok a, t, down)

  abbrev pub refuse : E → Run T E A
  refuse e t down = (refused e, t, down)

  abbrev pub bind_reply :
      {B : Type 0} → Reply E A → T → List Bool → (A → Run T E B) → Reply E B × T × List Bool
  bind_reply (ok a) t down f = f a t down
  bind_reply (refused e) t down f = (refused e, t, down)
  bind_reply failed t down f = (failed, t, down)

  -- One statement, with an answer or an error of its own.
  unfoldable pub statement : (T → Reply E A × T) → Run T E A
  statement run t [] = ((run t).0, (run t).1, [])
  statement run t (true ∷ down) = (failed, t, down)
  statement run t (false ∷ down) = ((run t).0, (run t).1, down)

  unfoldable pub select : (T → A) → Run T E A
  unfolding statement
  select read = statement (λ t. (ok (read t), t))

  unfoldable pub write : (T → A × T) → Run T E A
  unfolding statement
  write run = statement (λ t. (ok (run t).0, (run t).1))

infixl 5 ◌>>=◌ ◌>>◌
abbrev pub ◌>>=◌ : {T E A B : Type 0} → Run T E A → (A → Run T E B) → Run T E B
◌>>=◌ m f t down = let (r, t', down') = m t down in bind_reply r t' down' f

abbrev pub ◌>>◌ : {T E B : Type 0} → Run T E (Unit {0}) → Run T E B → Run T E B
m >> k = m >>= λ _. k

-- What a method leaves: `Q` beside a value, and `R` beside an error.
module _ {T E A : Type 0} (Q : A → T → Type 0) (R : T → Type 0) where
  abbrev pub After : Reply E A → T → Type 0
  After (ok a) t = Q a t
  After (refused e) t = R t
  After failed t = R t

module _ {T E A : Type 0} (P : T → Type 0) (m : Run T E A) (Q : A → T → Type 0)
    (R : T → Type 0) where
  -- Run on tables where `P` holds, under whatever failures.
  abbrev pub Ensures : Type 0
  Ensures = (t : T) (down : List Bool) → P t → After Q R (m t down).0 (m t down).1

module _ {T E : Type 0} (R : T → Type 0) where
  pub ensure_reply :
      {A B : Type 0} (Q : A → T → Type 0) (S : B → T → Type 0) (r : Reply E A) (t : T)
      (down : List Bool) (f : A → Run T E B)
      → After Q R r t
      → ((a : A) → Ensures (Q a) (f a) S R)
      → After S R (bind_reply r t down f).0 (bind_reply r t down f).1
  ensure_reply Q S (ok a) t down f q next = next a t down q
  ensure_reply Q S (refused e) t down f q next = q
  ensure_reply Q S failed t down f q next = q

  pub ensure_bind :
      {A B : Type 0} (P : T → Type 0) (Q : A → T → Type 0) (S : B → T → Type 0) (m : Run T E A)
      (f : A → Run T E B)
      → Ensures P m Q R
      → ((a : A) → Ensures (Q a) (f a) S R)
      → Ensures P (m >>= f) S R
  ensure_bind P Q S m f first next t down p =
      ensure_reply Q S (m t down).0 (m t down).1 (m t down).2 f (first t down p) next

  pub ensure_statement :
      {A : Type 0} (P : T → Type 0) (Q : A → T → Type 0) (run : T → Reply E A × T)
      → ((t : T) → P t → After Q R (run t).0 (run t).1)
      → ((t : T) → P t → R t)
      → Ensures P (statement run) Q R
  unfolding statement
  ensure_statement P Q run gives fails t [] p = gives t p
  ensure_statement P Q run gives fails t (true ∷ down) p = fails t p
  ensure_statement P Q run gives fails t (false ∷ down) p = gives t p

  pub ensure_guard :
      {A : Type 0} (P : T → Type 0) (S : A → T → Type 0) (stop : Bool) (e : E) (m : Run T E A)
      → ((t : T) → P t → R t)
      → Ensures P m S R
      → Ensures P (if stop then refuse e else m) S R
  ensure_guard P S true e m fails passes t down p = fails t p
  ensure_guard P S false e m fails passes t down p = passes t down p
