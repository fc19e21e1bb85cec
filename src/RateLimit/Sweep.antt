-- ===== src/RateLimit/Sweep.antt =====
-- Sweeps cost no enforcement: a limiter that sweeps answers as one that never does.
use talyvor_docs.Prelude.Map.{Map, lookup}
use talyvor_docs.Prelude.{
  ℕ, ◌+◌, String, ◌≡◌, Bool, true, Option, none, some, List, [], ◌∷◌, if◌then◌else◌,
}
use talyvor_docs.RateLimit.{Bucket, Limiter, allow, take_token, is_idle}

module _ (TokenBucket : Type 0) (full : TokenBucket)
    (spend : ℕ → TokenBucket → Bool × TokenBucket) where
  abbrev pub Row : Type 0
  Row = Bucket TokenBucket full spend

  -- Calls: how long after the one before, and for which key.
  abbrev pub Calls : Type 0
  Calls = List (ℕ × String)

  -- The answers of a limiter, and those of one that does not sweep.
  unfoldable pub answers : ℕ → Calls → Limiter TokenBucket full spend → List Bool
  unfolding allow
  answers now [] l = []
  answers now ((later, key) ∷ calls) l =
      let (may, l') = allow TokenBucket full spend (now + later) key l in
      may ∷ answers (now + later) calls l'

  unfoldable pub answers_unswept : ℕ → Calls → Limiter TokenBucket full spend → List Bool
  unfolding take_token
  answers_unswept now [] l = []
  answers_unswept now ((later, key) ∷ calls) l =
      let (may, l') = take_token TokenBucket full spend (now + later) key l in
      may ∷ answers_unswept (now + later) calls l'

  abbrev alive : ℕ → ℕ → Option Row → Option Row
  alive now ttl none = none
  alive now ttl (some b) = if is_idle TokenBucket full spend now ttl b then none else some b

  -- The bucket was last used when it was last seen.
  abbrev Used : Row → Type 0
  Used b = (before : TokenBucket) × (b.lim ≡ (spend b.seen before).1)

  -- Of a key: the same bucket in both, or an idle one that the sweeping limiter has dropped.
  abbrev Agree : ℕ → ℕ → Option Row → Option Row → Type 0
  Agree now ttl none none = Unit
  Agree now ttl none (some b) = (is_idle TokenBucket full spend now ttl b ≡ true) × Used b
  Agree now ttl (some a) none = ⊥
  Agree now ttl (some a) (some b) = (a ≡ b) × Used b

  abbrev Agrees : ℕ → ℕ → Map Row → Map Row → Type 0
  Agrees now ttl swept kept = (key : String) → Agree now ttl (lookup key swept) (lookup key kept)
