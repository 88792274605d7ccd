-- ===== src/Registry/Cost.antt =====
-- The cost that `Reserve` compares (coordinator/internal/registry/scheduler.go), as a formula.
use idlegrid.Prelude.{
  ltb, ◌&&◌, if◌then◌else◌, negsuc, ℤ, Bool-cases, subst, ℕ, ◌+◌, ◌*◌, ◌^◌, ◌<◌, pos, float64-pos,
  *ℤ-pos, +ℤ-pos, ◌≤ℤ◌, ◌≡◌, inl, inr, refl, arith, Option, none, some, ◌≤◌,
}
use idlegrid.Registry.{Node, cost}

-- For counters that are not negative and below 2^40 nothing is rounded: 2000 for each queued request and 2 for each
-- pending token.
cost_lem :
    (n : Node) (q p : ℕ)
    → n.queue_depth ≡ pos q
    → n.pending_tokens ≡ pos p
    → q < 2 ^ 40
    → p < 2 ^ 40
    → cost n ≡ pos (q * 2000 + p * 2)
unfolding cost
cost_lem n q p eq ep hq hp = rw (
  cost,
  eq,
  ep,
  float64-pos q (omega arith),
  float64-pos p (omega arith),
  *ℤ-pos q 2000,
  *ℤ-pos p 2,
  float64-pos (q * 2000) (omega arith),
  +ℤ-pos (q * 2000) (p * 2),
  float64-pos (q * 2000 + p * 2) (omega arith),
)

abbrev exact : ℤ → ℤ → Option ℕ
exact (pos q) (pos p) = if ltb q (2 ^ 40) && ltb p (2 ^ 40) then some (q * 2000 + p * 2) else none
exact _ _ = none

-- 2000 for each queued request and 2 for each pending token, where both counters are between 0 and 2^40.
abbrev pub exact_cost : Node → Option ℕ
exact_cost n = exact n.queue_depth n.pending_tokens

abbrev pub NoDearer : Option ℕ → Option ℕ → Type 0
NoDearer (some j) (some k) = j ≤ k
NoDearer _ _ = Unit

exact_lem :
    (n : Node) (a b : ℤ) (k : ℕ)
    → n.queue_depth ≡ a
    → n.pending_tokens ≡ b
    → exact a b ≡ some k
    → cost n ≡ pos k
exact_lem n (pos q) (pos p) k eq ep h = elim (Bool-cases (ltb q (2 ^ 40) && ltb p (2 ^ 40))) [
  | inl small ↦ rw (cost_lem n q p eq ep (ground arith) (ground arith)) (ground arith)
  | inr large ↦ absurd (ground arith)
]
exact_lem n (pos q) (negsuc p) k eq ep h = absurd (cc)
exact_lem n (negsuc q) b k eq ep h = absurd (cc)

pub cost-NoDearer :
    (m n : Node) (j k : Option ℕ)
    → exact_cost m ≡ j
    → exact_cost n ≡ k
    → cost m ≤ℤ cost n
    → NoDearer j k
cost-NoDearer m n none k ej ek h = tt
cost-NoDearer m n (some j) none ej ek h = tt
cost-NoDearer m n (some j) (some k) ej ek h =
    let here = exact_lem m m.queue_depth m.pending_tokens j refl refl ej in
    let there = exact_lem n n.queue_depth n.pending_tokens k refl refl ek in
    of_pos j k (subst (λ (z : ℤ). pos j ≤ℤ z) there (subst (λ (z : ℤ). z ≤ℤ cost n) here h))
  where
    of_pos : (a b : ℕ) → pos a ≤ℤ pos b → a ≤ b
    of_pos a b w = omega arith
