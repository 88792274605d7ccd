-- ===== src/OpenRouter/Cost.antt =====
-- `microPer1MToCostUSD` of coordinator/internal/server/openrouter.go: a price in micro-USD per 1M tokens as a
-- decimal fraction of a dollar.
use Prim.Native.String.{◌++◌, slice}
use native.Mathlib.Nat.{pow-suc, mul_assoc, mul_left_comm}
use idlegrid.Prelude.{
  ℕ, zero, suc, ◌+◌, ◌*◌, ◌/◌, ◌%◌, ◌^◌, ◌<◌, ◌≡◌, refl, arith, ap, sym, ◌∙◌, Bool, true, false,
  List, [], ◌∷◌, String, ℤ, pos, negsuc, length, if◌then◌else◌, ◌==◌,
}

-- Digits, the last one first. An int64 has 19 at most.
unfoldable pub more_digits : ℕ → ℕ → List ℕ
more_digits zero m = []
more_digits (suc fuel) m =
    let rest = more_digits fuel (m / 10) in if m == 0 then [] else (m % 10) ∷ rest

-- `fmt.Sprintf("%0…d", m)`, of that width: zeros in front fill it, and longer numbers exceed it.
unfoldable pub padded : ℕ → ℕ → List ℕ
unfolding more_digits
padded zero m = more_digits 7 m
padded (suc k) m = (m % 10) ∷ padded k (m / 10)

-- `strings.TrimRight(digits, "0")`.
unfoldable pub without_zeros : List ℕ → List ℕ
without_zeros [] = []
without_zeros (d ∷ ds) = let rest = without_zeros ds in if d == 0 then rest else d ∷ ds

-- The digits after the point, the last one first.
unfoldable pub cost_digits : ℕ → List ℕ
unfolding padded without_zeros
cost_digits m = without_zeros (padded 12 m)

-- As text, the first digit first.
unfoldable pub digits_text : List ℕ → String
digits_text [] = ""
digits_text (d ∷ ds) = digits_text ds ++ slice "0123456789" d (d + 1)

-- `microPer1MToCostUSD`.
unfoldable pub micro_per_1m_to_cost_usd : ℤ → String
unfolding cost_digits digits_text
micro_per_1m_to_cost_usd (negsuc n) = "0"
micro_per_1m_to_cost_usd (pos m) = if m == 0 then "0" else "0." ++ digits_text (cost_digits m)

-- The number that digits stand for.
unfoldable pub number : List ℕ → ℕ
number [] = 0
number (d ∷ ds) = d + 10 * number ds

padded-number : (k m : ℕ) → m < 10 ^ k → (number (padded k m) ≡ m) × (length (padded k m) ≡ k)
unfolding padded number more_digits
padded-number zero m h = let e : m ≡ 0 = omega arith in rw e (refl, refl)
padded-number (suc k) m h =
    let p = pow-suc 10 k in
    let (value, size) = padded-number k (m / 10) (omega arith) in (omega arith, omega arith)

module _ (d : ℕ) (ds : List ℕ) (rest : List ℕ) (n : ℕ) (value : number ds ≡ 10 ^ n * number rest)
    (size : length ds ≡ n + length rest) where
  abbrev Trimmed : List ℕ → List ℕ → Type 0
  Trimmed ds es = (n : ℕ) × (number ds ≡ 10 ^ n * number es) × (length ds ≡ n + length es)

  trim_one : (b : Bool) → (d == 0) ≡ b → Trimmed (d ∷ ds) (if b then rest else d ∷ ds)
  unfolding number
  trim_one true e =
      let r = number rest in
      let p =
        ap (λ (t : ℕ). t * r) (pow-suc 10 n)
        ∙ mul_assoc (10 ^ n) 10 r
        ∙ mul_left_comm (10 ^ n) 10 r in
      let z : d ≡ 0 = ground arith in (suc n, omega arith, omega arith)
  trim_one false e = (0, omega arith, omega arith)

without_zeros-number :
    (ds : List ℕ)
    → (n : ℕ) × (number ds ≡ 10 ^ n * number (without_zeros ds))
      × (length ds ≡ n + length (without_zeros ds))
unfolding without_zeros number
without_zeros-number [] = (0, refl, refl)
without_zeros-number (d ∷ ds) =
    let (n, value, size) = without_zeros-number ds in
    trim_one d ds (without_zeros ds) n value size (d == 0) refl

-- A price below 10^12 micro-USD per 1M tokens is rendered exactly: with n fewer than 12 digits after the point, the
-- digits are the price divided by 10^n, so that they stand for the price over 10^12 dollars.
pub cost_digits-number :
    (m : ℕ)
    → m < 10 ^ 12
    → (n : ℕ) × (m ≡ 10 ^ n * number (cost_digits m)) × (12 ≡ n + length (cost_digits m))
unfolding cost_digits
cost_digits-number m h =
    let (value, size) = padded-number 12 m h in
    let (n, trimmed, short) = without_zeros-number (padded 12 m) in
    (n, sym value ∙ trimmed, sym size ∙ short)
