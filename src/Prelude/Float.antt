-- ===== src/Prelude/Float.antt =====
-- Go's float64 of whole numbers: the conversion from an int64, and the rounding of a result.
use Prim.Native.Nat.{ℕ, zero, suc, ◌+◌, ◌*◌, ◌/◌, ◌%◌, ◌^◌, ◌<◌}
use mathlib.Core.Path.{◌≡◌}
use mathlib.Core.Bool.{◌&&◌, ◌||◌}
use native.Mathlib.Omega.{arith}
use idlegrid.Prelude.Tests.{ltb, ◌==◌, if◌then◌else◌}
use idlegrid.Prelude.Int.{ℤ, pos, negsuc, ◌-ℤ◌}

-- p / 2^s, rounded to the nearest whole number, and to the even one between two.
unfoldable pub round_even : ℕ → ℕ → ℕ
round_even p s =
    let q = p / 2 ^ s in
    let r = 2 * (p % 2 ^ s) in if ltb (2 ^ s) r || (r == 2 ^ s && q % 2 == 1) then q + 1 else q

-- How many of the last bits are rounded away: as few as leave less than 2^53.
unfoldable pub narrowing : ℕ → ℕ → ℕ → ℕ
narrowing zero s p = s
narrowing (suc fuel) s p =
    let rest = narrowing fuel (s + 1) p in if ltb (p / 2 ^ s) (2 ^ 53) then s else rest

-- The nearest float64 of a number below 2^83.
unfoldable pub nearest : ℕ → ℕ
unfolding round_even narrowing
nearest n = let s = narrowing 30 0 n in round_even n s * 2 ^ s

unfoldable pub float64 : ℤ → ℤ
unfolding nearest
float64 (pos n) = pos (nearest n)
float64 (negsuc n) = pos 0 -ℤ pos (nearest (suc n))

narrow : (fuel n : ℕ) → n < 2 ^ 53 → narrowing (suc fuel) 0 n ≡ 0
unfolding narrowing
narrow fuel n h = ground arith

whole : (n : ℕ) → round_even n 0 ≡ n
unfolding round_even
whole n = ground arith

-- A number below 2^53 is a float64.
pub nearest_lem : (n : ℕ) → n < 2 ^ 53 → nearest n ≡ n
unfolding nearest
nearest_lem n h = rw (narrow 29 n h, nearest) (rw (whole n) (omega arith))

pub float64-pos : (n : ℕ) → n < 2 ^ 53 → float64 (pos n) ≡ pos n
unfolding float64
float64-pos n h = rw (nearest_lem n h)
