-- ===== src/Store/Listing/Owned.antt =====
-- What a user's lists hold (coordinator/store): rows of that user, and all of them.
use idlegrid.Prelude.{
  ℕ, zero, suc, ◌≤◌, ◌≡◌, refl, arith, ◌==◌, Bool, true, Bool-cases, inl, inr, Option, some, none,
  List, [], ◌∷◌, ◌++◌, String, ℤ, pos, negsuc, length, All,
}
use idlegrid.Store.Tables.{Db, UsageEntry, Payout}
use idlegrid.Store.Tx.{Runs, Runs-query}
use idlegrid.Store.Listing.{
  UsageRow, PayoutRow, is_selected, reversed, limit, place, order_by, select_usage, usage_limit,
  usage_rows, select_payouts, list_payouts,
}

module _ {ℓ κ} {A : Type ℓ} (P : A → Type κ) where
  All-append : (xs ys : List A) → All P xs → All P ys → All P (xs ++ ys)
  All-append [] ys h k = k
  All-append (x ∷ xs) ys h k = (h.0, All-append xs ys h.1 k)

  All-reversed : (xs : List A) → All P xs → All P (reversed xs)
  unfolding reversed
  All-reversed [] h = tt
  All-reversed (x ∷ xs) h = All-append (reversed xs) (x ∷ []) (All-reversed xs h.1) (h.0, tt)

  All-limit : (n : ℕ) (xs : List A) → All P xs → All P (limit n xs)
  unfolding limit
  All-limit zero xs h = tt
  All-limit (suc n) [] h = tt
  All-limit (suc n) (x ∷ xs) h = (h.0, All-limit n xs h.1)

  module _ (before : A → A → Bool) where
    All-place : (x : A) (xs : List A) → P x → All P xs → All P (place before x xs)
    unfolding place
    All-place x [] p h = (p, tt)
    All-place x (y ∷ ys) p h = elim (Bool-cases (before y x)) [
      | inl e ↦ rw e (h.0, All-place x ys p h.1)
      | inr e ↦ rw e (p, h)
    ]

    All-order_by : (xs : List A) → All P xs → All P (order_by before xs)
    unfolding order_by
    All-order_by [] h = tt
    All-order_by (x ∷ xs) h = All-place x (order_by before xs) h.0 (All-order_by xs h.1)

length-limit {ℓ} : {A : Type ℓ} (n : ℕ) (xs : List A) → length (limit n xs) ≤ n
unfolding limit
length-limit zero xs = omega arith
length-limit (suc n) [] = omega arith
length-limit (suc n) (x ∷ xs) = let h = length-limit n xs in omega arith

selected_owner : (user : ℕ) (o : Option ℕ) → is_selected (some user) o ≡ true → o ≡ some user
selected_owner user none h = absurd (cc)
selected_owner user (some owner) h = ground arith

select_usage-own :
    (user : ℕ) (rows : List (String × UsageEntry))
    → All (λ (r : UsageRow). r.user_id ≡ some user) (select_usage (some user) rows)
unfolding select_usage
select_usage-own user [] = tt
select_usage-own user ((id, u) ∷ rows) =
    elim (Bool-cases (is_selected (some user) u.event.user_id)) [
      | inl e ↦ rw e (selected_owner user u.event.user_id e, select_usage-own user rows)
      | inr e ↦ rw e (select_usage-own user rows)
    ]

select_payouts-own :
    (user : ℕ) (rows : List (ℕ × Payout))
    → All (λ (r : PayoutRow). r.user_id ≡ user) (select_payouts (some user) rows)
unfolding select_payouts
select_payouts-own user [] = tt
select_payouts-own user ((id, q) ∷ rows) = elim (Bool-cases (q.user_id == user)) [
  | inl e ↦ rw e (ground arith, select_payouts-own user rows)
  | inr e ↦ rw e (select_payouts-own user rows)
]

usage_limit-le : (n : ℤ) → usage_limit n ≤ 500
usage_limit-le (pos n) = ground arith
usage_limit-le (negsuc n) = omega arith

-- The usage rows of a user are that user's own, and 500 at most whatever limit is asked for.
pub usage_rows-own :
    (user : ℕ) (n : ℤ) (db : Db)
    → Runs (usage_rows (some user) n) db (λ rows d.
      All (λ (r : UsageRow). r.user_id ≡ some user) rows × (length rows ≤ 500) × (d ≡ db))
unfolding usage_rows
usage_rows-own user n db =
    let rows = reversed (select_usage (some user) db.usage) in
    let Own : UsageRow → Type 0 = λ r. r.user_id ≡ some user in
    let most = length-limit (usage_limit n) rows in
    let cap = usage_limit-le n in
    Runs-query _ (
      All-limit Own (usage_limit n) rows (All-reversed Own _ (select_usage-own user db.usage)),
      omega arith,
      refl,
    )

-- The payouts that are listed for a user are that user's own.
pub list_payouts-own :
    (user : ℕ) (db : Db)
    → Runs
        (list_payouts (some user))
        db
        (λ rows d. All (λ (r : PayoutRow). r.user_id ≡ user) rows × (d ≡ db))
unfolding list_payouts
list_payouts-own user db =
    let Own : PayoutRow → Type 0 = λ r. r.user_id ≡ user in
    Runs-query _
      (All-limit Own 200 _ (All-order_by Own _ _ (select_payouts-own user db.payouts)), refl)
