-- ===== src/Limit/Tests.antt =====
-- Runs of the limiter at its configured rate and burst.
use idlegrid.Prelude.{◌+◌, ◌-◌, ◌*◌, ◌≤◌, refl, arith, ◌∷◌, []}
use idlegrid.Limit.{token, Limiter}
use idlegrid.Limit.Bound.{count, count-le}

abbrev limiter : Limiter
limiter = record { buckets = []; rate = 100; burst = 20 }

count-le_example :
    count "user-2" (5 ∷ 7 ∷ 1_000_000_005 ∷ []) limiter * token
    ≤ limiter.burst * token + (2_000_000_000 - 0) * limiter.rate
count-le_example =
    count-le "user-2" 0 2_000_000_000 (5 ∷ 7 ∷ 1_000_000_005 ∷ []) limiter refl
      (omega arith, (omega arith, (omega arith, omega arith)))
