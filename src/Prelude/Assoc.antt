-- ===== src/Prelude/Assoc.antt =====
-- Go maps and keyed tables as association lists; the order of a list stands for an iteration order.
use mathlib.Core.Path.{◌≡◌, refl}
use mathlib.Core.Logic.{◌≢◌, ite, if_pos, if_neg, inl, inr}
use idlegrid.Prelude.Lists.{All, Any}
use mathlib.Core.List.{List, [], ◌∷◌}
use mathlib.Core.Option.{Option, none, some}
use native.Mathlib.Omega.{arith}

module _ {ℓ} {K V : Type ℓ} (dec : Discrete K) where
  unfoldable pub lookup : K → List (K × V) → Option V
  lookup k [] = none
  lookup k (e ∷ m) = ite (dec e.0 k) (some e.1) (lookup k m)

  -- `m[k] = v`
  unfoldable pub insert : K → V → List (K × V) → List (K × V)
  insert k v [] = (k, v) ∷ []
  insert k v (e ∷ m) = ite (dec e.0 k) ((k, v) ∷ m) (e ∷ insert k v m)

  -- `delete(m, k)`: no entry of the key is left.
  unfoldable pub erase : K → List (K × V) → List (K × V)
  erase k [] = []
  erase k (e ∷ m) = ite (dec e.0 k) (erase k m) (e ∷ erase k m)

  pub lookup-head : (k : K) (v : V) (m : List (K × V)) → lookup k ((k, v) ∷ m) ≡ some v
  unfolding lookup
  lookup-head k v m = if_pos (dec k k) refl _ _

  pub lookup-insert :
      (k j : K) (v : V) (m : List (K × V))
      → lookup j (insert k v m) ≡ ite (dec k j) (some v) (lookup j m)
  unfolding lookup insert
  lookup-insert k j v [] = refl
  lookup-insert k j v (e ∷ m) = ground (arith, lookup-insert k j v m)

  pub lookup-insert_self : (k : K) (v : V) (m : List (K × V)) → lookup k (insert k v m) ≡ some v
  unfolding lookup insert
  lookup-insert_self k v [] = ground arith
  lookup-insert_self k v (e ∷ m) = ground (arith, lookup-insert_self k v m)

  pub lookup-insert_ne :
      (k j : K) (v : V) (m : List (K × V)) → k ≢ j → lookup j (insert k v m) ≡ lookup j m
  unfolding lookup insert
  lookup-insert_ne k j v [] h = ground arith
  lookup-insert_ne k j v (e ∷ m) h = ground (arith, lookup-insert_ne k j v m h)

  pub lookup-erase_self : (k : K) (m : List (K × V)) → lookup k (erase k m) ≡ none
  unfolding lookup erase
  lookup-erase_self k [] = refl
  lookup-erase_self k (e ∷ m) = ground (arith, lookup-erase_self k m)

  pub lookup-erase_ne : (k j : K) (m : List (K × V)) → k ≢ j → lookup j (erase k m) ≡ lookup j m
  unfolding lookup erase
  lookup-erase_ne k j [] h = refl
  lookup-erase_ne k j (e ∷ m) h = ground (arith, lookup-erase_ne k j m h)

  pub lookup-erase :
      (k j : K) (m : List (K × V)) → lookup j (erase k m) ≡ ite (dec k j) none (lookup j m)
  unfolding lookup erase
  lookup-erase k j [] = ground arith
  lookup-erase k j (e ∷ m) = ground (arith, lookup-erase k j m)

  pub insert-insert :
      (k : K) (v w : V) (m : List (K × V)) → insert k v (insert k w m) ≡ insert k v m
  unfolding insert
  insert-insert k v w [] = ground arith
  insert-insert k v w (e ∷ m) = ground (arith, insert-insert k v w m)

  -- No key occurs twice.
  abbrev pub Distinct : List (K × V) → Type ℓ
  Distinct [] = Unit
  Distinct (e ∷ m) = (lookup e.0 m ≡ none) × Distinct m

  pub insert-Distinct : (k : K) (v : V) (m : List (K × V)) → Distinct m → Distinct (insert k v m)
  unfolding lookup insert
  insert-Distinct k v [] h = (refl, tt)
  insert-Distinct k v (e ∷ m) h =
      ground (arith, insert-Distinct k v m h.1, lookup-insert_ne k e.0 v m)

  pub lookup-erase-none :
      (k j : K) (m : List (K × V)) → lookup j m ≡ none → lookup j (erase k m) ≡ none
  unfolding lookup erase
  lookup-erase-none k j [] h = refl
  lookup-erase-none k j (e ∷ m) h = ground (arith, lookup-erase-none k j m)

  pub erase-Distinct : (k : K) (m : List (K × V)) → Distinct m → Distinct (erase k m)
  unfolding erase
  erase-Distinct k [] h = tt
  erase-Distinct k (e ∷ m) h = ground (arith, erase-Distinct k m h.1, lookup-erase-none k e.0 m h.0)

  -- A property of every entry survives a write that has it, and a deletion.
  pub All-insert {ι} :
      (P : K × V → Type ι) (k : K) (v : V) (m : List (K × V))
      → P (k, v)
      → All P m
      → All P (insert k v m)
  unfolding insert
  All-insert P k v [] p h = (p, tt)
  All-insert P k v (e ∷ m) p h = elim (dec e.0 k) [
    | yes q ↦ rw (if_pos _ q) (p, h.1)
    | no q ↦ rw (if_neg _ q) (h.0, All-insert P k v m p h.1)
  ]

  pub All-erase {ι} : (P : K × V → Type ι) (k : K) (m : List (K × V)) → All P m → All P (erase k m)
  unfolding erase
  All-erase P k [] h = tt
  All-erase P k (e ∷ m) h = elim (dec e.0 k) [
    | yes q ↦ rw (if_pos _ q) (All-erase P k m h.1)
    | no q ↦ rw (if_neg _ q) (h.0, All-erase P k m h.1)
  ]

  pub All-lookup {ι} :
      (P : K × V → Type ι) (k : K) (v : V) (m : List (K × V))
      → All P m
      → lookup k m ≡ some v
      → P (k, v)
  unfolding lookup
  All-lookup P k v [] h e = absurd (cc e)
  All-lookup P k v (e ∷ m) h q = elim (dec e.0 k) [
    | yes same ↦ let value : e.1 ≡ v = ground arith in rw (← same, ← value) h.0
    | no other ↦ All-lookup P k v m h.1 (ground arith)
  ]

module _ {K V : Type 0} (dec : Discrete K) where
  -- With distinct keys an entry of the list is what its key finds.
  pub lookup_of_Any :
      (k : K) (v : V) (m : List (K × V))
      → Distinct dec m
      → Any (λ e. e ≡ (k, v)) m
      → lookup dec k m ≡ some v
  unfolding lookup
  lookup_of_Any k v [] d h = absurd h
  lookup_of_Any k v (e ∷ m) d (inl h) = rw h (ground arith)
  lookup_of_Any k v (e ∷ m) d (inr h) = ground (arith, lookup_of_Any k v m d.1 h)
