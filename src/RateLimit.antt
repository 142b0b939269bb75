-- ===== src/RateLimit.antt =====
-- The token buckets of packages/vuoro-service/src/vuoro_service/rate_limit.py. Python's floats are a
-- parameter: a type with the operations that the limiter uses, of which nothing is assumed.
pub mod Isolated
use vuoro.Prelude.{ℕ, Bool, String, Option, none, some, [], ltb, ◌||◌, if◌then◌else◌}
use vuoro.Prelude.Eq.{◌==◌, string_keys}
use vuoro.Prelude.Result.{Result, ok, err}
use vuoro.Dict.{Dict, get, put}

-- `float` of an int, the arithmetic, `<` and `<=`
pub record Floats (F : Type 0) : Type 0 where
  pub float : ℕ → F
  pub add : F → F → F
  pub sub : F → F → F
  pub mul : F → F → F
  pub div : F → F → F
  pub less : F → F → Bool
  pub at_most : F → F → Bool

pub record Bucket (F : Type 0) : Type 0 where
  pub tokens : F
  pub last_refill_at : F

pub record RateLimiter (F : Type 0) : Type 0 where
  pub capacity : F
  pub refill_per_second : F
  pub buckets : Dict String (Bucket F)

-- RateLimitExceededError
pub record Exceeded (F : Type 0) : Type 0 where
  pub key : String
  pub retry_after_seconds : F

module _ {F : Type 0} (f : Floats F) where
  -- Python's `max` and `min`, which keep the first of two equal values
  abbrev max_of : F → F → F
  max_of a b = if f.less a b then b else a

  abbrev min_of : F → F → F
  min_of a b = if f.less b a then b else a

  -- `__init__` refuses a capacity or a rate that is not positive
  unfoldable pub new_limiter : ℕ → F → Option (RateLimiter F)
  new_limiter capacity refill =
      if ltb capacity 1 || f.at_most refill (f.float 0)
      then none
      else some (record { capacity = f.float capacity; refill_per_second = refill; buckets = [] })

  -- the bucket of a key as `_bucket` finds it or makes it
  unfoldable pub refilled : RateLimiter F → Option (Bucket F) → F → Bucket F
  refilled l none now = record { tokens = l.capacity; last_refill_at = now }
  refilled l (some b) now = record {
    tokens = min_of l.capacity (
        f.add b.tokens
          (f.mul (max_of (f.float 0) (f.sub now b.last_refill_at)) l.refill_per_second));
    last_refill_at = now;
  }

  -- _bucket
  unfoldable pub bucket : RateLimiter F → String → F → Bucket F
  unfolding refilled
  bucket l key now = refilled l (get l.buckets key) now

  -- `check`; the buckets are mutable objects, so the one of the key is put back
  unfoldable pub check : RateLimiter F → String → F → Result (Exceeded F) (Unit {0}) × RateLimiter F
  check l key now =
      let b = bucket l key now in
      if f.less b.tokens (f.float 1)
      then (
        err (record {
          key = key;
          retry_after_seconds = f.div (f.sub (f.float 1) b.tokens) l.refill_per_second;
        }),
        record l { buckets = put l.buckets key b },
      )
      else (
        ok tt,
        record l { buckets = put l.buckets key (record b { tokens = f.sub b.tokens (f.float 1) }) },
      )
