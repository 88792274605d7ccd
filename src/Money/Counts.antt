-- ===== src/Money/Counts.antt =====
-- The tolerance test `CountsMatch` and `EstimateTokens` (coordinator/store/billing.go).
use idlegrid.Prelude.{
  ℕ, ◌/◌, ◌<◌, ◌≡◌, List, arith, ltb, if◌then◌else◌, replicate, length-replicate,
}
use idlegrid.Money.{estimate_tokens}

-- The estimate of the text that the gateway builds from a number of characters: a quarter, rounded
-- down, and never 0.
pub estimate_tokens-replicate :
    (n c : ℕ) → estimate_tokens (replicate n c) ≡ (if ltb (n / 4) 1 then 1 else n / 4)
unfolding estimate_tokens
estimate_tokens-replicate n c = rw length-replicate

pub estimate_tokens_pos : (text : List ℕ) → 0 < estimate_tokens text
unfolding estimate_tokens
estimate_tokens_pos text = ground arith
