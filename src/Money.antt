-- ===== src/Money.antt =====
-- Pricing and token counting: coordinator/store/billing.go, from `PriceFor` to `CountsMatch`.
-- An int or int64 is an integer, with the wrap-around of each operation written out (`wrap64`).
pub mod Gross
pub mod Split
pub mod Counts
mod Tests
use idlegrid.Prelude.{
  ℕ, suc, ◌+◌, ◌*◌, ◌/◌, ◌≤◌, Bool, ◌&&◌, ◌||◌, Option, none, some, List, length, if◌then◌else◌,
  ltb, leb, ℤ, pos, negsuc, ltb_ℤ, leb_ℤ, ◌+ℤ◌, ◌-ℤ◌, ◌*ℤ◌, wrap64, quot_ℤ, float64,
}

-- Micro-USD per 1M tokens.
abbrev pub default_input_micro_per_1m : ℤ
default_input_micro_per_1m = pos 50_000

abbrev pub default_output_micro_per_1m : ℤ
default_output_micro_per_1m = pos 200_000

abbrev pub min_charge_micro : ℤ
min_charge_micro = pos 100

-- `PriceFor`, on the answer of `GetModelPrice` (`none` for an error); a nil store is `none` too.
unfoldable pub price_for : Option (ℤ × ℤ) → ℤ × ℤ
price_for none = (default_input_micro_per_1m, default_output_micro_per_1m)
price_for (some (in_rate, out_rate)) =
    if leb_ℤ in_rate (pos 0) || leb_ℤ out_rate (pos 0)
    then (default_input_micro_per_1m, default_output_micro_per_1m)
    else (in_rate, out_rate)

-- `ceilDiv`. The divisor is a positive constant of the program.
unfoldable pub ceil_div : ℤ → ℕ → ℤ
ceil_div a b = if leb_ℤ a (pos 0) then pos 0 else quot_ℤ (wrap64 (wrap64 (a +ℤ pos b) -ℤ pos 1)) b

unfoldable pub gross_micro : ℤ → ℤ → ℤ → ℤ → ℤ
unfolding ceil_div
gross_micro in_tokens out_tokens in_rate out_rate =
    if leb_ℤ in_tokens (pos 0) && leb_ℤ out_tokens (pos 0)
    then pos 0
    else let gross = wrap64 (
        ceil_div (wrap64 (in_tokens *ℤ in_rate)) 1_000_000
        +ℤ ceil_div (wrap64 (out_tokens *ℤ out_rate)) 1_000_000) in
      if ltb_ℤ gross min_charge_micro then min_charge_micro else gross

-- The clamp of `feePercent` to 0..100.
unfoldable pub clamp_percent : ℤ → ℤ
clamp_percent p = if ltb_ℤ p (pos 0) then pos 0 else if ltb_ℤ (pos 100) p then pos 100 else p

-- `SplitProviderFee`: the provider's credit and the platform's fee.
unfoldable pub split_provider_fee : ℤ → ℤ → ℤ × ℤ
unfolding clamp_percent
split_provider_fee gross fee_percent =
    let fee = quot_ℤ (wrap64 (gross *ℤ clamp_percent fee_percent)) 100 in
    (wrap64 (gross -ℤ fee), fee)

-- `EstimateTokens`; a text is the list of its bytes.
unfoldable pub estimate_tokens : List ℕ → ℕ
estimate_tokens text = let n = length text / 4 in if ltb n 1 then 1 else n

-- The absolute difference of `CountsMatch`.
unfoldable pub difference : ℤ → ℤ → ℤ
difference est provider =
    let d = wrap64 (est -ℤ provider) in if ltb_ℤ d (pos 0) then wrap64 (pos 0 -ℤ d) else d

-- `CountsMatch`: float64(d) <= 0.25*float64(provider), both conversions rounded; the quarter of a float64 is one.
unfoldable pub counts_match : ℤ → ℤ → Bool
unfolding difference
counts_match est provider =
    if leb_ℤ provider (pos 0)
    then leb_ℤ est (pos 2)
    else leb_ℤ (pos 4 *ℤ float64 (difference est provider)) (float64 provider)
