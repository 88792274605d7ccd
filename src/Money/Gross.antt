-- ===== src/Money/Gross.antt =====
-- The charge of a request, `GrossMicro` (coordinator/store/billing.go).
use idlegrid.Prelude.{
  ℕ, zero, suc, ◌≤ℤ◌, ◌⊎◌, ◌+◌, ◌-◌, ◌*◌, ◌/◌, ◌≤◌, ◌<◌, ◌^◌, ◌≡◌, refl, arith, pos, ltb,
  if◌then◌else◌, quot_ℤ, *ℤ-pos, +ℤ-pos, -ℤ-pos, wrap64-pos,
}
use idlegrid.Money.{ceil_div, gross_micro}

-- The ceiling of a quotient by a million, on numbers.
abbrev pub ceil_million : ℕ → ℕ
ceil_million n = (n + 999_999) / 1_000_000

ceil_div_suc :
    (n : ℕ) → 0 < n → n + 1_000_000 < 2 ^ 63 → ceil_div (pos n) 1_000_000 ≡ pos (ceil_million n)
unfolding ceil_div quot_ℤ
ceil_div_suc n p h =
    rw
      (
        +ℤ-pos n 1_000_000,
        wrap64-pos (n + 1_000_000) h,
        -ℤ-pos (n + 1_000_000) 1 (omega arith),
        wrap64-pos (n + 1_000_000 - 1) (omega arith),
      )
      (ground arith)

ceil_div_lem : (n : ℕ) → n + 1_000_000 < 2 ^ 63 → ceil_div (pos n) 1_000_000 ≡ pos (ceil_million n)
unfolding ceil_div
ceil_div_lem zero h = refl
ceil_div_lem (suc n) h = ceil_div_suc (suc n) (omega arith) h

-- The products of tokens and rates that the computation forms, and its sums, fit an int64.
abbrev pub InRange : ℕ → ℕ → ℕ → ℕ → Type 0
InRange i o ri ro = (i * ri + 1_000_000 < 2 ^ 62) × (o * ro + 1_000_000 < 2 ^ 62)

-- The two rounded components.
abbrev pub components : ℕ → ℕ → ℕ → ℕ → ℕ
components i o ri ro = ceil_million (i * ri) + ceil_million (o * ro)

pub gross_micro_lem :
    (i o ri ro : ℕ)
    → InRange i o ri ro
    → 0 < i + o
    → gross_micro (pos i) (pos o) (pos ri) (pos ro)
      ≡ pos (if ltb (components i o ri ro) 100 then 100 else components i o ri ro)
unfolding gross_micro
gross_micro_lem i o ri ro h p =
    rw
      (
        *ℤ-pos i ri,
        *ℤ-pos o ro,
        wrap64-pos (i * ri) (omega arith),
        wrap64-pos (o * ro) (omega arith),
        ceil_div_lem (i * ri) (omega arith),
        ceil_div_lem (o * ro) (omega arith),
        +ℤ-pos (ceil_million (i * ri)) (ceil_million (o * ro)),
        wrap64-pos (components i o ri ro) (omega arith),
      )
      (ground arith)

-- For counts and rates that are not negative, not both counts 0, and whose products with a million added are below 2^62: a
-- charge is at least the minimum charge, covers the cost of both token counts, and exceeds that
-- cost by less than two micro-USD unless it is the minimum charge.
pub gross_micro_bounds :
    (i o ri ro : ℕ)
    → InRange i o ri ro
    → 0 < i + o
    → (g : ℕ) × (gross_micro (pos i) (pos o) (pos ri) (pos ro) ≡ pos g)
      × (100 ≤ g)
      × (i * ri + o * ro ≤ 1_000_000 * g)
      × ((g ≡ 100) ⊎ (1_000_000 * g < i * ri + o * ro + 2_000_000))
gross_micro_bounds i o ri ro h p = (
  if ltb (components i o ri ro) 100 then 100 else components i o ri ro,
  gross_micro_lem i o ri ro h p,
  ground arith,
  ground arith,
  ground arith,
)

-- The charge as a number, the free case included.
abbrev charge : ℕ → ℕ → ℕ → ℕ → ℕ
charge i o ri ro =
    if ltb 0 (i + o)
    then (if ltb (components i o ri ro) 100 then 100 else components i o ri ro)
    else 0

gross_micro-charge :
    (i o ri ro : ℕ)
    → InRange i o ri ro
    → gross_micro (pos i) (pos o) (pos ri) (pos ro) ≡ pos (charge i o ri ro)
unfolding gross_micro
gross_micro-charge zero zero ri ro h = refl
gross_micro-charge (suc i) o ri ro h =
    rw (gross_micro_lem (suc i) o ri ro h (omega arith)) (ground arith)
gross_micro-charge i (suc o) ri ro h =
    rw (gross_micro_lem i (suc o) ri ro h (omega arith)) (ground arith)

times_mono : (m n r : ℕ) → m ≤ n → m * r ≤ n * r
times_mono m n r h = grind arith

components_mono :
    (i o i' o' ri ro : ℕ) → i ≤ i' → o ≤ o' → components i o ri ro ≤ components i' o' ri ro
components_mono i o i' o' ri ro hi ho = omega (arith, times_mono i i' ri hi, times_mono o o' ro ho)

-- More tokens never cost less.
pub gross_micro_mono :
    (i o i' o' ri ro : ℕ)
    → InRange i' o' ri ro
    → i ≤ i'
    → o ≤ o'
    → gross_micro (pos i) (pos o) (pos ri) (pos ro)
      ≤ℤ gross_micro (pos i') (pos o') (pos ri) (pos ro)
gross_micro_mono i o i' o' ri ro h hi ho =
    rw
      (
        gross_micro-charge i o ri ro
            (omega (arith, times_mono i i' ri hi), omega (arith, times_mono o o' ro ho)),
        gross_micro-charge i' o' ri ro h,
      )
      (ground (arith, components_mono i o i' o' ri ro hi ho))
