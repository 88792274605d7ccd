-- ===== src/Registry/Dispatch.antt =====
-- `Reserve` picks a cheapest eligible node (coordinator/internal/registry/scheduler.go).
use idlegrid.Registry.Cost.{NoDearer, exact_cost, cost-NoDearer}
use idlegrid.Prelude.{
  ℕ, ◌≤ℤ◌, ◌≡◌, ◌⊎◌, ◌↔◌, inl, inr, refl, sym, arith, true, false, Option, none, some, [], ◌∷◌,
  String, All, Any, insert, string_discrete, Option-cases,
}
use idlegrid.Registry.{Registry, Node, cost, eligible, consider, choose, charged, reserve, better}

abbrev CheaperThan : Node → Option (String × Node) → Type 0
CheaperThan n none = Unit
CheaperThan n (some c) = cost n ≤ℤ cost c.1

module _ (now : ℕ) (model : String) where
  consider_cheapest :
      (n : Node) (best : Option (String × Node)) (e : String × Node)
      → CheaperThan n (consider now model best e)
      → CheaperThan n best × (eligible now model e.1 ≡ true → cost n ≤ℤ cost e.1)
  unfolding consider better
  consider_cheapest n none e h = ground arith
  consider_cheapest n (some b) e h = ground arith

  consider_origin :
      (b : String × Node) (best : Option (String × Node)) (e : String × Node)
      → consider now model best e ≡ some b
      → (best ≡ some b) ⊎ ((e ≡ b) × (eligible now model e.1 ≡ true))
  unfolding consider better
  consider_origin b none e h = ground arith
  consider_origin b (some c) e h = ground arith

  consider-none :
      (best : Option (String × Node)) (e : String × Node)
      → consider now model best e ≡ none
      → (best ≡ none) × (eligible now model e.1 ≡ false)
  unfolding consider better
  consider-none none e h = ground arith
  consider-none (some b) e h = ground arith

  -- The best entry is as cheap as the earlier best and as every eligible entry.
  choose_cheapest :
      (b : String × Node) (best : Option (String × Node)) (r : Registry)
      → choose now model best r ≡ some b
      → CheaperThan b.1 best × All (λ e. eligible now model e.1 ≡ true → cost b.1 ≤ℤ cost e.1) r
  unfolding choose
  choose_cheapest b best [] h = (rw h (omega arith), tt)
  choose_cheapest b best (e ∷ r) h =
      let (first, rest) = choose_cheapest b (consider now model best e) r h in
      let (older, here) = consider_cheapest b.1 best e first in (older, (here, rest))

  cheapest_both :
      (n : Node) (r : Registry)
      → All (λ e. eligible now model e.1 ≡ true → cost n ≤ℤ cost e.1) r
      → All
          (λ e.
            eligible now model e.1 ≡ true
            → (cost n ≤ℤ cost e.1) × NoDearer (exact_cost n) (exact_cost e.1))
          r
  cheapest_both n [] h = tt
  cheapest_both n (e ∷ r) h = (
    λ fits. (h.0 fits, cost-NoDearer n e.1 (exact_cost n) (exact_cost e.1) refl refl (h.0 fits)),
    cheapest_both n r h.1,
  )

  -- The best entry is the earlier best, or an eligible entry of the table.
  pub choose_origin :
      (b : String × Node) (best : Option (String × Node)) (r : Registry)
      → choose now model best r ≡ some b
      → (best ≡ some b) ⊎ (Any (λ e. e ≡ b) r × (eligible now model b.1 ≡ true))
  unfolding choose
  choose_origin b best [] h = inl h
  choose_origin b best (e ∷ r) h = elim (choose_origin b (consider now model best e) r h) [
    | inr (later, fits) ↦ inr (inr later, fits)
    | inl chosen ↦ elim (consider_origin b best e chosen) [
      | inl older ↦ inl older
      | inr (same, fits) ↦ inr (inl same, rw (← same) fits)
    ]
  ]

  choose-none :
      (best : Option (String × Node)) (r : Registry)
      → choose now model best r ≡ none
      → (best ≡ none) × All (λ e. eligible now model e.1 ≡ false) r
  unfolding choose
  choose-none best [] h = (h, tt)
  choose-none best (e ∷ r) h =
      let (first, rest) = choose-none (consider now model best e) r h in
      let (older, here) = consider-none best e first in (older, (here, rest))

  none-choose :
      (r : Registry) → All (λ e. eligible now model e.1 ≡ false) r → choose now model none r ≡ none
  unfolding choose consider
  none-choose [] h = refl
  none-choose (e ∷ r) h = rw h.0 (none-choose r h.1)

  -- A reservation fails, and changes nothing, exactly when the table has no eligible node.
  pub reserve-none_iff :
      (est_tokens : ℕ) (r : Registry)
      → (reserve now model est_tokens r ≡ (none, r)) ↔ All (λ e. eligible now model e.1 ≡ false) r
  unfolding reserve
  reserve-none_iff est_tokens r = (
    λ h. elim (Option-cases (choose now model none r)) [
      | inl e ↦ (choose-none none r e).1
      | inr (b, e) ↦ absurd (ground arith)
    ],
    λ h. rw (none-choose r h, reserve),
  )

  -- What a successful reservation did: it took an eligible entry of the table that no eligible entry
  -- undercuts, in the rounded cost that the code computes, and, among counters from 0 to 2^40, in 2000 for each queued
  -- request and 2 for each pending token; it returned that node with one more request and the estimated tokens charged to it, and
  -- wrote that node, and nothing else, to the table.
  pub reserve_cheapest :
      (est_tokens : ℕ) (r : Registry) (n : Node)
      → (reserve now model est_tokens r).0 ≡ some n
      → (b : String × Node) × Any (λ e. e ≡ b) r
        × (eligible now model b.1 ≡ true)
        × (n ≡ charged est_tokens b.1)
        × All
            (λ e.
              eligible now model e.1 ≡ true
              → (cost b.1 ≤ℤ cost e.1) × NoDearer (exact_cost b.1) (exact_cost e.1))
            r
        × ((reserve now model est_tokens r).1 ≡ insert string_discrete b.0 n r)
  unfolding reserve
  reserve_cheapest est_tokens r n h = elim (Option-cases (choose now model none r)) [
    | inl e ↦ absurd (ground arith)
    | inr (b, e) ↦ elim (choose_origin b none r e) [
      | inl impossible ↦ absurd (cc)
      | inr (entry, fits) ↦
          let same : charged est_tokens b.1 ≡ n = ground arith in
          (
            b,
            entry,
            fits,
            sym same,
            cheapest_both b.1 r (choose_cheapest b none r e).1,
            rw (e, reserve, same),
          )
    ]
  ]
