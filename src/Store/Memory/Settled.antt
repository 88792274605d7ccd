-- ===== src/Store/Memory/Settled.antt =====
-- Idempotence and round trips of `MemoryBilling` (coordinator/store/billing.go).
use idlegrid.Prelude.{
  ℕ, ◌+◌, ◌≡◌, refl, ◌∙◌, true, false, Bool-cases, inl, inr, Option, none, some, ◌∷◌, String, ℤ,
  pos, ltb_ℤ, if_pos, lookup, insert, string_discrete, ℕ_discrete, lookup-insert_self,
}
use idlegrid.Registry.{contains}
use idlegrid.Store.Tx.{ok}
use idlegrid.Store.Tables.{Kind, platform_revenue, provider_earnings}
use idlegrid.Store.Settle.{SettleParams, already}
use idlegrid.Store.Memory.{
  MemoryBilling, MemUser, ApiKeyAuth, add_balance, charge, credit_platform, settle_request,
  ensure_user, create_api_key, resolve_api_key,
}

charge-settled :
    (u : Option ℕ) (gross : ℤ) (m : MemoryBilling) → (charge u gross m).settled ≡ m.settled
unfolding add_balance
charge-settled none gross m = refl
charge-settled (some u) gross m = elim (Bool-cases (ltb_ℤ (pos 0) gross)) [
  | inl e ↦ rw e refl
  | inr e ↦ rw e refl
]

credit_platform-settled :
    (k : Kind) (amount : ℤ) (m : MemoryBilling) → (credit_platform k amount m).settled ≡ m.settled
unfolding add_balance
credit_platform-settled k amount m = elim (Bool-cases (ltb_ℤ (pos 0) amount)) [
  | inl e ↦ rw e refl
  | inr e ↦ rw e refl
]

module _ (prm : SettleParams) (gross credit fee : ℤ) (m : MemoryBilling) where
  settle_request_old :
      contains prm.request_id m.settled ≡ true
      → settle_request prm gross credit fee m ≡ (already, m)
  unfolding settle_request
  settle_request_old h = rw h refl

  after_charge : MemoryBilling
  after_charge = charge prm.user_id gross (record m { settled = prm.request_id ∷ m.settled })

  settled_ids :
      contains prm.request_id m.settled ≡ false
      → (settle_request prm gross credit fee m).1.settled ≡ prm.request_id ∷ m.settled
  unfolding settle_request after_charge
  settled_ids h = rw h (
      credit_platform-settled platform_revenue fee
        (credit_platform provider_earnings credit after_charge)
      ∙ credit_platform-settled provider_earnings credit after_charge
      ∙ charge-settled prm.user_id gross (record m { settled = prm.request_id ∷ m.settled }))

  settled_now : contains prm.request_id (settle_request prm gross credit fee m).1.settled ≡ true
  unfolding contains
  settled_now = elim (Bool-cases (contains prm.request_id m.settled)) [
    | inl e ↦ rw (settle_request_old e) e
    | inr e ↦ rw (settled_ids e) (if_pos (string_discrete prm.request_id prm.request_id) refl _ _)
  ]

-- In the memory store too, settling a request a second time, with any amounts, changes nothing and reports
-- that it was settled.
memory_settle_twice :
    (prm : SettleParams) (gross credit fee gross' credit' fee' : ℤ) (m : MemoryBilling)
    → settle_request prm gross' credit' fee' (settle_request prm gross credit fee m).1
      ≡ (already, (settle_request prm gross credit fee m).1)
memory_settle_twice prm gross credit fee gross' credit' fee' m =
    settle_request_old prm gross' credit' fee' (settle_request prm gross credit fee m).1
      (settled_now prm gross credit fee m)

-- A key that is created for a new user resolves to that user, with the user's email and role.
memory_key_resolves :
    (email role key_hash : String) (m : MemoryBilling)
    → lookup string_discrete email m.by_email ≡ none
    → (m1 : MemoryBilling) × (m2 : MemoryBilling) × (ensure_user email role m ≡ (m.next_id, m1))
      × (create_api_key m.next_id key_hash m1 ≡ ok m2)
      × (resolve_api_key key_hash m2
          ≡ some (record { user_id = m.next_id; email = email; role = role }))
unfolding ensure_user create_api_key resolve_api_key
memory_key_resolves email role key_hash m absent =
    let u : MemUser = record { email = email; role = role } in
    let auth : ApiKeyAuth = record { user_id = m.next_id; email = email; role = role } in
    let m1 = record m {
      next_id = m.next_id + 1;
      users = insert ℕ_discrete m.next_id u m.users;
      by_email = insert string_discrete email m.next_id m.by_email;
    } in
    (
      m1,
      record m1 { keys = insert string_discrete key_hash auth m.keys },
      rw (absent, ensure_user) refl,
      rw (lookup-insert_self ℕ_discrete m.next_id u m.users, create_api_key) refl,
      lookup-insert_self string_discrete key_hash auth m.keys,
    )
