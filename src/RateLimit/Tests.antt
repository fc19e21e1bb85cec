-- ===== src/RateLimit/Tests.antt =====
-- The sweeps of the limiter with a bucket of one token, which is back 5 after the last call.
use talyvor_docs.Prelude.{
  ℕ, ◌-◌, String, ◌≡◌, refl, Bool, true, false, Option, none, some, List, [], ◌∷◌, ltb,
}
use talyvor_docs.RateLimit.{Limiter, new_limiter, with_ttl}
use talyvor_docs.RateLimit.Sweep.{answers}

abbrev one_token : ℕ → Option ℕ → Bool × Option ℕ
one_token now none = (true, some now)
one_token now (some last) = (ltb 5 (now - last), some now)

abbrev limiter : Limiter (Option ℕ) none one_token
limiter = with_ttl (Option ℕ) none one_token 10 (new_limiter (Option ℕ) none one_token true 0)

abbrev calls : List (ℕ × String)
calls = (1, "a") ∷ (2, "a") ∷ (20, "b") ∷ (1, "a") ∷ []

calls_admitted : answers (Option ℕ) none one_token 0 calls limiter ≡ true ∷ false ∷ true ∷ true ∷ []
unfolding answers new_limiter
calls_admitted = refl
