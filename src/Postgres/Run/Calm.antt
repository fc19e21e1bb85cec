-- ===== src/Postgres/Run/Calm.antt =====
-- Methods none of whose statements fails.
use talyvor_docs.Prelude.{◌≡◌, refl, Bool, true, false, List, [], if◌then◌else◌}
use talyvor_docs.Postgres.Run.{
  Reply, Run, ok, refused, failed, refuse, ◌>>=◌, bind_reply, statement, After,
}

module _ {T E A : Type 0} (P : T → Type 0) (m : Run T E A) (Q : A → T → Type 0)
    (R : T → Type 0) where
  -- The run leaves `Q` beside its value or `R` beside its error, and no failure to come.
  abbrev pub Ensures : Type 0
  Ensures = (t : T) → P t → After Q R (m t []).0 (m t []).1 × ((m t []).2 ≡ [])

module _ {T E : Type 0} (R : T → Type 0) where
  calm_reply :
      {A B : Type 0} (Q : A → T → Type 0) (S : B → T → Type 0) (r : Reply E A) (t : T)
      (down : List Bool) (f : A → Run T E B)
      → After Q R r t
      → down ≡ []
      → ((a : A) → Ensures (Q a) (f a) S R)
      → After S R (bind_reply r t down f).0 (bind_reply r t down f).1
        × ((bind_reply r t down f).2 ≡ [])
  calm_reply Q S (ok a) t down f q calm next = rw calm (next a t q)
  calm_reply Q S (refused e) t down f q calm next = (q, calm)
  calm_reply Q S failed t down f q calm next = (q, calm)

  pub calm_bind :
      {A B : Type 0} (P : T → Type 0) (Q : A → T → Type 0) (S : B → T → Type 0) (m : Run T E A)
      (f : A → Run T E B)
      → Ensures P m Q R
      → ((a : A) → Ensures (Q a) (f a) S R)
      → Ensures P (m >>= f) S R
  calm_bind P Q S m f first next t p =
      let (q, calm) = first t p in calm_reply Q S (m t []).0 (m t []).1 (m t []).2 f q calm next

  pub calm_statement :
      {A : Type 0} (P : T → Type 0) (Q : A → T → Type 0) (run : T → Reply E A × T)
      → ((t : T) → P t → After Q R (run t).0 (run t).1)
      → Ensures P (statement run) Q R
  unfolding statement
  calm_statement P Q run gives t p = (gives t p, refl)

  pub calm_guard :
      {A : Type 0} (P : T → Type 0) (S : A → T → Type 0) (stop : Bool) (e : E) (m : Run T E A)
      → ((t : T) → P t → R t)
      → (stop ≡ false → Ensures P m S R)
      → Ensures P (if stop then refuse e else m) S R
  calm_guard P S true e m fails passes t p = (fails t p, refl)
  calm_guard P S false e m fails passes t p = passes refl t p

-- Whatever the reply, the same holds.
pub after_same :
    {T E A : Type 0} (R : T → Type 0) (r : Reply E A) (t : T) → After (λ _. R) R r t → R t
after_same R (ok a) t p = p
after_same R (refused e) t p = p
after_same R failed t p = p
