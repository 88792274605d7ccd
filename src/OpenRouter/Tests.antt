-- ===== src/OpenRouter/Tests.antt =====
-- Prices as OpenRouter reads them.
use idlegrid.Prelude.{ℕ, ◌^◌, ◌*◌, ◌+◌, ◌≡◌, refl, arith, length, pos}
use idlegrid.OpenRouter.Cost.{
  micro_per_1m_to_cost_usd, cost_digits, digits_text, padded, without_zeros, more_digits, number,
  cost_digits-number,
}

-- The example of the source's comment.
fifty_thousand : micro_per_1m_to_cost_usd (pos 50_000) ≡ "0.00000005"
unfolding micro_per_1m_to_cost_usd cost_digits digits_text padded without_zeros more_digits
fifty_thousand = refl

-- A dollar a token loses its unit.
dollar : micro_per_1m_to_cost_usd (pos 1_000_000_000_000) ≡ "0.1"
unfolding micro_per_1m_to_cost_usd cost_digits digits_text padded without_zeros more_digits
dollar = refl

cost_digits-number_example :
    (n : ℕ) × (50_000 ≡ 10 ^ n * number (cost_digits 50_000))
    × (12 ≡ n + length (cost_digits 50_000))
cost_digits-number_example = cost_digits-number 50_000 (omega arith)
