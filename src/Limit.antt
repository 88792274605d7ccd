-- ===== src/Limit.antt =====
-- The token buckets of coordinator/internal/server/ratelimit.go.
-- A bucket's float64 tokens are counted here in units of 1e-10 of a token, so that the rate of 10 tokens
-- a second is 100 units a nanosecond and every amount is a whole number: the model has no rounding, which the
-- source has in the last bits. `rate` is the number of units that a nanosecond adds, `burst` is in tokens;
-- a rate of 0 stands for `rps <= 0`. Times are nanoseconds of a monotonic clock.
pub mod Bound
mod Tests
use idlegrid.Prelude.{
  ℕ, ◌+◌, ◌-◌, ◌*◌, Bool, true, false, Option, none, some, List, [], ◌∷◌, String, ltb, ◌==◌,
  if◌then◌else◌, lookup, insert, string_discrete,
}

-- One token.
abbrev pub token : ℕ
token = 10_000_000_000

pub record Bucket : Type 0 where
  pub tokens : ℕ
  pub last : ℕ

pub record Limiter : Type 0 where
  pub buckets : List (String × Bucket)
  pub rate : ℕ
  pub burst : ℕ

-- `newRateLimiter`.
unfoldable pub new_rate_limiter : ℕ → ℕ → Limiter
new_rate_limiter rate burst = record { buckets = []; rate = rate; burst = burst }

-- The bucket of the key, a full one if there is none.
abbrev pub bucket_or_full : ℕ → Limiter → Option Bucket → Bucket
bucket_or_full now l none = record { tokens = l.burst * token; last = now }
bucket_or_full now l (some b) = b

abbrev pub bucket_of : ℕ → String → Limiter → Bucket
bucket_of now key l = bucket_or_full now l (lookup string_discrete key l.buckets)

abbrev pub capped : ℕ → ℕ → ℕ
capped burst tokens = if ltb (burst * token) tokens then burst * token else tokens

-- The refill since the last call; `now` is never before it.
unfoldable pub refill : ℕ → Limiter → Bucket → ℕ
refill now l b = capped l.burst (b.tokens + (now - b.last) * l.rate)

unfoldable pub put_bucket : String → ℕ → ℕ → Limiter → Limiter
put_bucket key tokens now l = record l {
  buckets = insert string_discrete key (record { tokens = tokens; last = now }) l.buckets;
}

-- `Allow`.
unfoldable pub allow : ℕ → String → Limiter → Bool × Limiter
unfolding refill put_bucket
allow now key l =
    if l.rate == 0
    then (true, l)
    else (let tokens = refill now l (bucket_of now key l) in
        if ltb tokens token
        then (false, put_bucket key tokens now l)
        else (true, put_bucket key (tokens - token) now l))

-- The caller of a request: an environment key, a user's key, or none.
pub data Caller : Type 0 where
  admin : Caller
  user : ℕ → Caller
  nobody : Caller

-- The key of `limitInference`; `print` is the decimal print of a user's id, and texts are joined by
-- `join`.
unfoldable pub limit_key : (String → String → String) → (ℕ → String) → String → Caller → String
limit_key join print remote_addr admin = "admin"
limit_key join print remote_addr (user id) = join "user-" (print id)
limit_key join print remote_addr nobody = remote_addr

-- `limitInference`: whether the next handler runs (else the answer is 429), and the limiter after it.
unfoldable pub limit_inference :
    (String → String → String) → (ℕ → String) → ℕ → String → Caller → Limiter → Bool × Limiter
unfolding limit_key allow
limit_inference join print now remote_addr caller l =
    allow now (limit_key join print remote_addr caller) l
