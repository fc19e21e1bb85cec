-- ===== src/RateLimit.antt =====
-- internal/ratelimit: a token bucket for each workspace. A bucket of golang.org/x/time/rate is a parameter: what
-- `Allow` answers at a time, and the bucket that it leaves. Times are nanoseconds, and `now` never goes back.
pub mod Sweep
pub mod Tests
use talyvor_docs.Prelude.Map.{Map, lookup, insert, erase}
use talyvor_docs.Prelude.{
  ℕ, ◌+◌, ◌-◌, String, Bool, true, false, not, ◌&&◌, Option, none, some, List, [], ◌∷◌, ◌==◌,
  if◌then◌else◌, eqb, ltb, leb, length,
}
use talyvor_docs.Authz.{Context, Membership, authorize_workspace}

abbrev pub sweep_every : ℕ
sweep_every = 60000000000

abbrev pub default_ttl : ℕ
default_ttl = 600000000000

-- What a request comes to in `WorkspaceLimit`.
pub data Outcome : Type 0 where
  forbidden too_many_requests next : Outcome

module _ (TokenBucket : Type 0) (full : TokenBucket)
    (spend : ℕ → TokenBucket → Bool × TokenBucket) where
  -- bucket
  pub record Bucket : Type 0 where
    pub lim : TokenBucket
    pub seen : ℕ

  -- Limiter; whether its rate and its burst are positive is `enabled`.
  pub record Limiter : Type 0 where
    pub buckets : Map Bucket
    pub enabled : Bool
    pub ttl : ℕ
    pub last_sweep : ℕ

  -- `New`
  unfoldable pub new_limiter : Bool → ℕ → Limiter
  new_limiter enabled now = record {
    buckets = [];
    enabled = enabled;
    ttl = default_ttl;
    last_sweep = now;
  }

  -- `WithTTL`
  abbrev pub with_ttl : ℕ → Limiter → Limiter
  with_ttl d l = record l { ttl = d }

  abbrev pub is_idle : ℕ → ℕ → Bucket → Bool
  is_idle now ttl b = ltb ttl (now - b.seen)

  unfoldable pub evict : ℕ → ℕ → Map Bucket → Map Bucket
  unfolding erase
  evict now ttl [] = []
  evict now ttl ((key, b) ∷ buckets) =
      let rest = evict now ttl buckets in
      if is_idle now ttl b then erase key rest else (key, b) ∷ rest

  -- `sweepLocked`
  unfoldable pub sweep_locked : ℕ → Limiter → Limiter
  unfolding evict
  sweep_locked now l =
      if ltb (now - l.last_sweep) sweep_every && ltb 0 (length l.buckets) && leb sweep_every l.ttl
      then l
      else record l { last_sweep = now; buckets = evict now l.ttl l.buckets }

  abbrev pub bucket_or_new : ℕ → Option Bucket → TokenBucket
  bucket_or_new now none = full
  bucket_or_new now (some b) = b.lim

  -- The call of a key on buckets that are swept.
  unfoldable pub take_token : ℕ → String → Limiter → Bool × Limiter
  unfolding lookup insert
  take_token now key l =
      let (may, lim) = spend now (bucket_or_new now (lookup key l.buckets)) in
      (may, record l { buckets = insert key (record { lim = lim; seen = now }) l.buckets })

  -- `Allow`
  unfoldable pub allow : ℕ → String → Limiter → Bool × Limiter
  unfolding sweep_locked take_token
  allow now key l = if not l.enabled then (false, l) else take_token now key (sweep_locked now l)

  abbrev pub limited : Bool × Limiter → Outcome × Limiter
  limited (may, l) = (if may then next else too_many_requests, l)

  abbrev pub limit_member : ℕ → Limiter → Option Membership → Outcome × Limiter
  limit_member now l none = (forbidden, l)
  limit_member now l (some m) = limited (allow now m.workspace_id l)

  -- `WorkspaceLimit`
  unfoldable pub workspace_limit : Context → String → ℕ → Limiter → Outcome × Limiter
  unfolding allow authorize_workspace
  workspace_limit ctx param now l = limit_member now l (authorize_workspace ctx param)

  -- `Buckets`
  abbrev pub buckets_count : Limiter → ℕ
  buckets_count l = length l.buckets
