-- ===== src/Money/Tests.antt =====
-- Runs of the pricing functions on concrete inputs (coordinator/store/billing_test.go among them).
use idlegrid.Prelude.{
  ℕ, ◌+◌, ◌*◌, ◌^◌, ◌/◌, ◌≤◌, ◌<◌, ◌≡◌, ◌⊎◌, refl, arith, true, false, pos, ◌≤ℤ◌, ◌+ℤ◌, ◌-ℤ◌, ◌*ℤ◌,
  wrap64, quot_ℤ, float64,
}
use idlegrid.Money.{gross_micro, split_provider_fee, counts_match}
use idlegrid.Money.Gross.{gross_micro_bounds}
use idlegrid.Money.Split.{split_exact, applied_percent}

gross_of_thousand : gross_micro (pos 1000) (pos 4000) (pos 50_000) (pos 200_000) ≡ pos 850
unfolding gross_micro ◌*ℤ◌ ◌+ℤ◌ ◌-ℤ◌ wrap64 quot_ℤ
gross_of_thousand = refl

counts_over : counts_match (pos 130) (pos 100) ≡ false
unfolding counts_match ◌*ℤ◌ ◌-ℤ◌ wrap64 float64
counts_over = refl

-- Beyond 2^53 a count is rounded first: this one is accepted although it is below 4/5 of the estimate.
counts_rounded : counts_match (pos (2 ^ 55 + 2 ^ 53 + 1)) (pos (2 ^ 55)) ≡ true
unfolding counts_match ◌*ℤ◌ ◌-ℤ◌ wrap64 float64
counts_rounded = refl

counts_flagged : counts_match (pos 5) (pos 0) ≡ false
unfolding counts_match
counts_flagged = refl

split_exact_example :
    let (credit, fee) = split_provider_fee (pos 850) (pos 10) in
    (pos 0 ≤ℤ credit)
    × (pos 0 ≤ℤ fee)
    × (credit +ℤ fee ≡ pos 850)
    × (fee ≡ pos (850 * applied_percent (pos 10) / 100))
split_exact_example = split_exact 850 (pos 10) (omega arith)

gross_micro_bounds_example :
    (g : ℕ) × (gross_micro (pos 1000) (pos 4000) (pos 50_000) (pos 200_000) ≡ pos g)
    × (100 ≤ g)
    × (1000 * 50_000 + 4000 * 200_000 ≤ 1_000_000 * g)
    × ((g ≡ 100) ⊎ (1_000_000 * g < 1000 * 50_000 + 4000 * 200_000 + 2_000_000))
gross_micro_bounds_example = gross_micro_bounds 1000 4000 50_000 200_000 (omega arith) (omega arith)
