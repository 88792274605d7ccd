-- ===== src/Gateway/Metering.antt =====
-- What `finishUsage` of coordinator/internal/server/gateway.go does to the store.
use idlegrid.Prelude.{
  ℕ, ◌≡◌, refl, ap, ◌∙◌, arith, Bool, true, false, Option, none, some, List, inl, inr, Option-cases,
  ℕ_discrete, ℤ, pos, negsuc, ltb_ℤ, leb_ℤ, replicate, ◌+ℤ◌, ◌*ℤ◌, wrap64, if◌then◌else◌, lookup,
  insert, string_discrete, lookup-insert_self,
}
use idlegrid.Money.{estimate_tokens, ceil_div, gross_micro, price_for, split_provider_fee}
use idlegrid.Store.Tables.{Db, User, EntryType, request}
use idlegrid.Store.Tx.{Result, ok, err, ◌>>=◌, pure, raise, Runs-statement}
use idlegrid.Store.Tx.Quiet.{
  attempt, Quiet, Quiet-bind, Quiet-pure, Quiet-Runs, Quiet-attempt, Quiet-recover, Succeeds,
}
use idlegrid.Store.Tx.Under.{Quiet-Under}
use idlegrid.Store.Ledger.Posting.{Resolves, IsFresh}
use idlegrid.Store.Settle.{
  SettleResult, insert_usage, record_usage, counts_fit, is_known, unsettled, owner_in_nodes,
}
use idlegrid.Store.Settle.Steps.{IsOpen, Settled, HasUser}
use idlegrid.Store.Settle.Exact.{settle_request-Settled}
use idlegrid.Gateway.Usage.{
  Outcome, Request, est_input, est_output, billed_tokens, is_zero, gross_of, usage_event,
  settle_params, model_price, on_context, settle_gross, after_record, finish_usage,
}

floored : (g : ℤ) → is_zero (if ltb_ℤ g (pos 100) then pos 100 else g) ≡ false
floored (pos n) = ground arith
floored (negsuc n) = ground arith

estimate-positive : (text : List ℕ) → leb_ℤ (pos (estimate_tokens text)) (pos 0) ≡ false
unfolding estimate_tokens
estimate-positive text = ground arith

gross_micro-positive :
    (a b x y : ℤ) → leb_ℤ a (pos 0) ≡ false → is_zero (gross_micro a b x y) ≡ false
unfolding gross_micro
gross_micro-positive a b x y h = rw h (
    floored (wrap64 (ceil_div (wrap64 (a *ℤ x)) 1_000_000 +ℤ ceil_div (wrap64 (b *ℤ y)) 1_000_000)))

-- A request for which the provider reports no input count is not free, whatever text it produced and
-- whether or not it failed.
pub gross_of_unreported :
    (q : Request) (o : Outcome) (rates : ℤ × ℤ)
    → o.prov_in ≡ none
    → is_zero (gross_of q o rates) ≡ false
unfolding gross_of billed_tokens
gross_of_unreported q o rates h =
    gross_micro-positive (billed_tokens (est_input q) o.prov_in)
      (billed_tokens (est_output o) o.prov_out) rates.0 rates.1
      (ap (λ (c : Option ℤ). leb_ℤ (billed_tokens (est_input q) c) (pos 0)) h
        ∙ estimate-positive (replicate q.input_chars 120))

is_known_lem :
    (user : Option ℕ) (users : List (ℕ × User)) → HasUser user users → is_known user users ≡ true
is_known_lem none users h = refl
is_known_lem (some u) users h = elim (Option-cases (lookup ℕ_discrete u users)) [
  | inl e ↦ absurd (h e)
  | inr (v, e) ↦ rw (e, is_known) refl
]

module _ (fee_percent : ℤ) (q : Request) (o : Outcome) (failed : Bool) where
  pub finish_usage_cancelled :
      (fs : List Bool) (db : Db) → finish_usage fee_percent false q o failed fs db ≡ (ok tt, fs, db)
  unfolding finish_usage on_context attempt raise after_record pure ◌>>=◌
  finish_usage_cancelled fs db = refl

  -- What metering a request needs: counts that fit their columns, no metering row or entry of it yet, the platform's user, and that the
  -- developer and the node's owner, if any, exist.
  pub record IsUnmetered (p : ℕ) (db : Db) : Type 0 where
    pub counts : counts_fit (usage_event q o failed) ≡ true
    pub absent : lookup string_discrete q.request_id db.usage ≡ none
    pub platform : Resolves none db.users p
    pub developer : HasUser q.user_id db.users
    pub owner : HasUser (owner_in_nodes q.node_id db.nodes) db.users
    pub fresh : (t : EntryType) → IsFresh t request q.request_id db.ledger

  abbrev recorded : Db → Db
  recorded db = record db {
    usage = insert string_discrete q.request_id (unsettled (usage_event q o failed)) db.usage;
  }

  abbrev pub rates_in : Db → ℤ × ℤ
  rates_in db = price_for (lookup string_discrete q.model db.prices)

  -- The request is recorded with these counts and settled for the gross amount that the prices give.
  abbrev pub Metered : ℕ → Db → Db → Type 0
  Metered p db d =
      let gross = gross_of q o (rates_in db) in
      let (credit, fee) = split_provider_fee gross fee_percent in
      (res : SettleResult) × Settled ⊥ (settle_params q) gross credit fee
        (unsettled (usage_event q o failed)) p (recorded db) res d

  insert_usage_lem :
      (p : ℕ) (db : Db)
      → IsUnmetered p db
      → insert_usage (usage_event q o failed) db ≡ ok (tt, recorded db)
  unfolding insert_usage
  insert_usage_lem p db h =
      rw (insert_usage, h.counts, h.absent) (rw (is_known_lem q.user_id db.users h.developer) refl)

  recorded-IsOpen :
      (p : ℕ) (db : Db)
      → IsUnmetered p db
      → IsOpen (settle_params q) (unsettled (usage_event q o failed)) p (recorded db)
  recorded-IsOpen p db h = record {
    row = lookup-insert_self string_discrete q.request_id _ db.usage;
    unsettled = refl;
    platform = h.platform;
    developer = h.developer;
    owner = h.owner;
    fresh = h.fresh;
  }

  Settled-of :
      (p : ℕ) (db : Db) (r : Result SettleResult) (d : Db)
      → (let gross = gross_of q o (rates_in db) in
          let (credit, fee) = split_provider_fee gross fee_percent in
          Succeeds
            (Settled ⊥
              (settle_params q)
              gross
              credit
              fee
              (unsettled (usage_event q o failed))
              p
              (recorded db))
            r
            d)
      → Metered p db d
  Settled-of p db (ok res) d s = (res, s)
  Settled-of p db (err e) d s = absurd s

  settle-Quiet :
      (p : ℕ) (db : Db)
      → IsUnmetered p db
      → is_zero (gross_of q o (rates_in db)) ≡ false
      → Quiet
          (settle_gross fee_percent q (gross_of q o (rates_in db)))
          (recorded db)
          (λ _ d. Metered p db d)
  unfolding settle_gross
  settle-Quiet p db h due =
      let gross = gross_of q o (rates_in db) in
      let (credit, fee) = split_provider_fee gross fee_percent in
      let u = unsettled (usage_event q o failed) in
      rw due (
        Quiet-bind (Succeeds (Settled ⊥ (settle_params q) gross credit fee u p (recorded db)))
          (Quiet-attempt (
            Quiet-Under (
              settle_request-Settled ⊥ (settle_params q) gross credit fee u p (recorded db)
                (recorded-IsOpen p db h))))
          (λ r d s. Quiet-pure tt (Settled-of p db r d s)))

  after_record-Quiet :
      (p : ℕ) (db : Db)
      → IsUnmetered p db
      → is_zero (gross_of q o (rates_in db)) ≡ false
      → Quiet (after_record fee_percent q o (ok tt)) (recorded db) (λ _ d. Metered p db d)
  unfolding after_record model_price
  after_record-Quiet p db h due =
      Quiet-bind (λ price d. (price ≡ lookup string_discrete q.model db.prices) × (d ≡ recorded db))
        (Quiet-recover none _ (refl, refl)) (λ price d e. rw (e.0, e.1) (settle-Quiet p db h due))

  recorded-Quiet :
      (p : ℕ) (db : Db)
      → IsUnmetered p db
      → is_zero (gross_of q o (rates_in db)) ≡ false
      → (r : Result (Unit {0})) (d : Db) → Succeeds (λ _ d'. d' ≡ recorded db) r d
      → Quiet (after_record fee_percent q o r) d (λ _ d'. Metered p db d')
  recorded-Quiet p db h due (ok _) d e = rw e (after_record-Quiet p db h due)
  recorded-Quiet p db h due (err _) d e = absurd e

  -- In a context that is not cancelled and with no failure of the driver, finishing a request that was
  -- not metered before, whose counts fit their columns and whose gross amount is not 0, records it and settles it: the developer is charged
  -- the price of the billed tokens, and the owner that the node is assigned to, or the escrow where it has none,
  -- and the platform receive the two shares of it.
  pub finish_usage-Metered :
      (p : ℕ) (db : Db)
      → IsUnmetered p db
      → is_zero (gross_of q o (rates_in db)) ≡ false
      → Quiet (finish_usage fee_percent true q o failed) db (λ _ d. Metered p db d)
  unfolding finish_usage on_context record_usage
  finish_usage-Metered p db h due =
      Quiet-bind (Succeeds (λ _ d. d ≡ recorded db))
        (Quiet-attempt
          (Quiet-Runs (Runs-statement _ tt (recorded db) (insert_usage_lem p db h) refl)))
        (λ r d e. recorded-Quiet p db h due r d e)
