-- ===== src/Money/Split.antt =====
-- The fee split of `SplitProviderFee` (coordinator/store/billing.go).
use idlegrid.Prelude.{
  ℕ, ◌-◌, ◌*◌, ◌/◌, ◌≤◌, ◌<◌, ◌^◌, ◌≡◌, arith, ltb, if◌then◌else◌, ℤ, pos, negsuc, ◌≤ℤ◌, ◌+ℤ◌,
  quot_ℤ, *ℤ-pos, -ℤ-pos, wrap64-pos,
}
use idlegrid.Money.{clamp_percent, split_provider_fee}

-- The percentage that is applied: the configured one up to 100, and 0 for a negative one.
unfoldable pub applied_percent : ℤ → ℕ
applied_percent (pos n) = if ltb 100 n then 100 else n
applied_percent (negsuc n) = 0

pub applied_percent-le : (p : ℤ) → applied_percent p ≤ 100
unfolding applied_percent
applied_percent-le (pos n) = ground arith
applied_percent-le (negsuc n) = omega arith

clamp_percent-applied : (p : ℤ) → clamp_percent p ≡ pos (applied_percent p)
unfolding applied_percent clamp_percent
clamp_percent-applied (pos n) = ground arith
clamp_percent-applied (negsuc n) = ground arith

fee_le : (gross k : ℕ) → k ≤ 100 → gross * k / 100 ≤ gross
fee_le gross k h = grind arith

product_fits : (gross k : ℕ) → k ≤ 100 → gross * 100 < 2 ^ 63 → gross * k < 2 ^ 63
product_fits gross k h b = grind arith

pub split_provider_fee_lem :
    (gross : ℕ) (p : ℤ)
    → gross * 100 < 2 ^ 63
    → split_provider_fee (pos gross) p
      ≡ (pos (gross - gross * applied_percent p / 100), pos (gross * applied_percent p / 100))
unfolding split_provider_fee quot_ℤ
split_provider_fee_lem gross p h =
    let k = applied_percent p in
    let k_le = applied_percent-le p in
    let fee_le_gross = fee_le gross k k_le in
    rw (
      clamp_percent-applied p,
      *ℤ-pos gross k,
      wrap64-pos (gross * k) (product_fits gross k k_le h),
      -ℤ-pos gross (gross * k / 100) fee_le_gross,
      wrap64-pos (gross - gross * k / 100) (omega arith),
    )

-- For every configured percentage, in or out of 0..100, and a non-negative gross whose product with
-- 100 fits an int64: the two shares are non-negative, they add up to the gross exactly, and the fee
-- is the gross times the configured percentage, 0 for a negative one and 100 for one above it, over 100,
-- rounded down.
pub split_exact :
    (gross : ℕ) (p : ℤ)
    → gross * 100 < 2 ^ 63
    → let (credit, fee) = split_provider_fee (pos gross) p in
      (pos 0 ≤ℤ credit)
      × (pos 0 ≤ℤ fee)
      × (credit +ℤ fee ≡ pos gross)
      × (fee ≡ pos (gross * applied_percent p / 100))
unfolding ◌+ℤ◌
split_exact gross p h =
    let fee_le_gross = fee_le gross (applied_percent p) (applied_percent-le p) in
    rw (split_provider_fee_lem gross p h) (ground arith)
