-- ===== src/Store/Payout.antt =====
-- Payouts of coordinator/store/postgres.go: `CreatePayoutRequest`, `MarkPayout`, `SettlePayout`.
-- `print_id` is fmt.Sprintf("%d", …) of a payout's id.
use idlegrid.Prelude.{
  ℕ, ◌+◌, ◌≡◌, ◌≢◌, refl, ap, ◌∙◌, none, some, List, String, ℤ, pos, ◌-ℤ◌, ite, if_pos, if_neg, inl,
  inr, Option-cases, lookup, insert, ℕ_discrete, string_discrete, arith, lookup-insert_self,
}
use idlegrid.Store.Tables.{
  Db, Payout, EntryKey, EntryKey-discrete, provider_earnings, EntryType, RefType,
}
use idlegrid.Store.Tx.{
  Tx, Result, ok, err, not_found, constraint, ◌>>=◌, ◌>>◌, pure, statement, execute, transact,
  commit, Runs, Runs-bind, Runs-pure, Runs-statement, Runs-execute, Runs-mono, Runs-transact,
}
use idlegrid.Store.Ledger.{ensure_account, post_entry, add_entry}
use idlegrid.Store.Ledger.Posting.{
  entry_key, account_of, Opened, ensure_account-Runs, add_entry_old,
}
use idlegrid.Store.Enroll.{null_if_empty}

-- INSERT INTO payouts … RETURNING id.
unfoldable pub insert_payout : ℕ → ℤ → String → String → Db → Result (ℕ × Db)
insert_payout user amount rail rail_ref db = elim (lookup ℕ_discrete user db.users) [
  | none ↦ err constraint
  | some _ ↦ ok (
    db.next_payout,
    record db {
      payouts =
          insert ℕ_discrete db.next_payout
            (record {
              user_id = user;
              amount_micro = amount;
              status = "requested";
              rail = rail;
              rail_ref = null_if_empty rail_ref;
              paid_at = none;
            })
            db.payouts;
      next_payout = db.next_payout + 1;
    },
  )
]

-- `CreatePayoutRequest`.
unfoldable pub create_payout_request : ℕ → ℤ → String → String → Tx ℕ
unfolding insert_payout statement
create_payout_request user amount rail rail_ref =
    statement (insert_payout user amount (ite (string_discrete rail "") "manual" rail) rail_ref)

unfoldable pub update_payout : ℕ → (Payout → Payout) → Db → Db
update_payout id f db = elim (lookup ℕ_discrete id db.payouts) [
  | none ↦ db
  | some q ↦ record db { payouts = insert ℕ_discrete id (f q) db.payouts }
]

-- `MarkPayout`: any status may follow any other.
unfoldable pub mark_payout : ℕ → ℕ → String → String → String → Tx (Unit {0})
unfolding update_payout execute
mark_payout now id status rail rail_ref = execute (
    update_payout id λ q. record q {
      status = status;
      rail = rail;
      rail_ref = some rail_ref;
      paid_at = ite (string_discrete status "paid") (some now) q.paid_at;
    })

-- SELECT user_id, amount_micro, status FROM payouts.
unfoldable pub payout_row : ℕ → Db → Result (Payout × Db)
payout_row id db = elim (lookup ℕ_discrete id db.payouts) [
  | none ↦ err not_found
  | some q ↦ ok (q, db)
]

abbrev pub paid : ℕ → String → String → Payout → Payout
paid now rail rail_ref q = record q {
  status = "paid";
  rail = rail;
  rail_ref = some rail_ref;
  paid_at = some now;
}

module _ (k : EntryKey) (amount : ℤ) (l : List (EntryKey × ℤ)) where
  lookup-add_entry : lookup EntryKey-discrete k (add_entry k amount l) ≢ none
  unfolding add_entry lookup
  lookup-add_entry = elim (Option-cases (lookup EntryKey-discrete k l)) [
    | inl e ↦ rw (e, add_entry) (rw (if_pos (EntryKey-discrete k k) refl) (λ w. absurd (cc)))
    | inr (v, e) ↦ rw (e, add_entry) (rw e (λ w. absurd (cc)))
  ]

  add_entry_twice : add_entry k amount (add_entry k amount l) ≡ add_entry k amount l
  add_entry_twice = add_entry_old k amount (add_entry k amount l) lookup-add_entry

module _ (print_id : ℕ → String) where
  abbrev pub payout_key : ℕ → ℕ → EntryKey
  payout_key user id =
      entry_key user provider_earnings EntryType.payout RefType.payout (print_id id)

  unfoldable pub pay_out : ℕ → ℕ → String → String → Payout → Tx (Unit {0})
  unfolding ensure_account post_entry update_payout execute ◌>>=◌
  pay_out now id rail rail_ref q = do
    account ← ensure_account (some q.user_id) provider_earnings
    execute (
        post_entry
          (record {
            account = account;
            entry_type = EntryType.payout;
            ref_type = RefType.payout;
            ref_id = print_id id;
          })
          (pos 0 -ℤ q.amount_micro))
    execute (update_payout id (paid now rail rail_ref))
    commit

  -- `SettlePayout`.
  unfoldable pub settle_payout : ℕ → ℕ → String → String → Tx (Unit {0})
  unfolding payout_row statement pay_out pure transact ◌>>=◌
  settle_payout now id rail rail_ref = transact do
    q ← statement (payout_row id)
    ite (string_discrete q.status "paid") (pure tt) (pay_out now id rail rail_ref q)

  -- The payout is marked paid, and its debit is booked unless an entry of the payout stands already.
  abbrev pub PaidOut : ℕ → ℕ → String → String → Payout → Db → Db → Type 0
  PaidOut now id rail rail_ref q db d = d ≡ record db {
    accounts = d.accounts;
    ledger = add_entry (payout_key q.user_id id) (pos 0 -ℤ q.amount_micro) db.ledger;
    payouts = insert ℕ_discrete id (paid now rail rail_ref q) db.payouts;
  }

  paid_of :
      (now id : ℕ) (rail rail_ref : String) (q : Payout) (db d1 : Db)
      → lookup ℕ_discrete id db.payouts ≡ some q
      → d1 ≡ record db { accounts = d1.accounts; ledger = db.ledger }
      → PaidOut now id rail rail_ref q db (
          update_payout id
            (paid now rail rail_ref)
            (post_entry (payout_key q.user_id id) (pos 0 -ℤ q.amount_micro) d1))
  unfolding update_payout post_entry
  paid_of now id rail rail_ref q db d1 row e =
      let payouts : d1.payouts ≡ db.payouts = ap (λ (x : Db). x.payouts) e in
      rw (ap (lookup ℕ_discrete id) payouts ∙ row, update_payout) (ground arith)

  module _ {Q : Unit {0} → Db → Type 0} (m : Tx (Unit {0})) {db : Db} (status : String) where
    ite-unpaid :
        status ≢ "paid" → Runs m db Q → Runs (ite (string_discrete status "paid") (pure tt) m) db Q
    ite-unpaid unpaid h = rw (if_neg (string_discrete status "paid") unpaid) h

    ite-paid :
        status ≡ "paid" → Q tt db → Runs (ite (string_discrete status "paid") (pure tt) m) db Q
    ite-paid done h = rw (if_pos (string_discrete status "paid") done) (Runs-pure tt h)

  module _ (now id : ℕ) (rail rail_ref : String) (q : Payout) (db : Db) where
    pay_out-Runs :
        lookup ℕ_discrete id db.payouts ≡ some q
        → lookup ℕ_discrete q.user_id db.users ≢ none
        → Runs (pay_out now id rail rail_ref q) db (λ _ d. PaidOut now id rail rail_ref q db d)
    unfolding pay_out Opened
    pay_out-Runs row known =
        Runs-bind (Opened (account_of q.user_id provider_earnings) db)
          (ensure_account-Runs (some q.user_id) provider_earnings db q.user_id (refl, known))
          (λ a d1 e. rw e.0 (
            Runs-bind (λ _ d. d ≡ post_entry (payout_key q.user_id id) (pos 0 -ℤ q.amount_micro) d1)
              (Runs-execute _ refl)
              (λ _ d2 e2.
                Runs-bind (λ _ d. PaidOut now id rail rail_ref q db d)
                  (Runs-execute _ (rw e2 (paid_of now id rail rail_ref q db d1 row e.1)))
                  (λ _ d3 done. Runs-execute _ done))))

    -- A payout that is not marked paid, of a known user, is marked paid and debits that user's earnings
    -- by its amount, once: where an entry of the payout stands already, the ledger does not change.
    pub settle_payout-PaidOut :
        lookup ℕ_discrete id db.payouts ≡ some q
        → q.status ≢ "paid"
        → lookup ℕ_discrete q.user_id db.users ≢ none
        → Runs (settle_payout now id rail rail_ref) db (λ _ d. PaidOut now id rail rail_ref q db d)
    unfolding settle_payout payout_row
    settle_payout-PaidOut row unpaid known = Runs-transact (
        Runs-bind (λ r d. (r ≡ q) × (d ≡ db))
          (Runs-statement _ q db (rw (row, payout_row)) (refl, refl))
          (λ r d e.
            rw (e.0, e.1)
              (ite-unpaid (pay_out now id rail rail_ref q) q.status unpaid
                (pay_out-Runs row known))))

    -- A payout that is marked paid is left alone.
    settle_payout_again :
        lookup ℕ_discrete id db.payouts ≡ some q
        → q.status ≡ "paid"
        → Runs (settle_payout now id rail rail_ref) db (λ _ d. d ≡ db)
    unfolding settle_payout payout_row
    settle_payout_again row done = Runs-transact (
        Runs-bind (λ r d. (r ≡ q) × (d ≡ db))
          (Runs-statement _ q db (rw (row, payout_row)) (refl, refl))
          (λ r d e. rw (e.0, e.1) (ite-paid (pay_out now id rail rail_ref q) q.status done refl)))

    abbrev approve : ℕ → Db → Db
    approve later = update_payout id λ q. record q {
      status = "approved";
      rail = rail;
      rail_ref = some rail_ref;
      paid_at = q.paid_at;
    }

    marked :
        (later : ℕ) (d1 : Db)
        → Runs (mark_payout later id "approved" rail rail_ref) d1 (λ _ d. d ≡ approve later d1)
    unfolding mark_payout string_discrete
    marked later d1 = Runs-execute _ refl

    abbrev approved : Payout
    approved = record q {
      status = "approved";
      rail = rail;
      rail_ref = some rail_ref;
      paid_at = some now;
    }

    abbrev Approved : Db → Type 0
    Approved d =
        (lookup ℕ_discrete id d.payouts ≡ some approved)
        × (d.ledger ≡ add_entry (payout_key q.user_id id) (pos 0 -ℤ q.amount_micro) db.ledger)
        × (d.users ≡ db.users)

    approve_lem :
        (later : ℕ) (d1 : Db) → PaidOut now id rail rail_ref q db d1 → Approved (approve later d1)
    unfolding update_payout
    approve_lem later d1 e =
        let payouts : d1.payouts ≡ insert ℕ_discrete id (paid now rail rail_ref q) db.payouts =
          ap (λ (x : Db). x.payouts) e in
        let row : lookup ℕ_discrete id d1.payouts ≡ some (paid now rail rail_ref q) =
          ap (lookup ℕ_discrete id) payouts ∙ lookup-insert_self ℕ_discrete id _ db.payouts in
        rw (row, update_payout)
          (
            lookup-insert_self ℕ_discrete id approved d1.payouts,
            ap (λ (x : Db). x.ledger) e,
            ap (λ (x : Db). x.users) e,
          )

  settled_again :
      (now id : ℕ) (rail rail_ref : String) (q : Payout) (db d2 : Db) (later : ℕ)
      → Approved now id rail rail_ref q db d2
      → lookup ℕ_discrete q.user_id db.users ≢ none
      → Runs (settle_payout later id rail rail_ref) d2 (λ _ d.
        d.ledger ≡ add_entry (payout_key q.user_id id) (pos 0 -ℤ q.amount_micro) db.ledger)
  settled_again now id rail rail_ref q db d2 later a known =
      Runs-mono (λ _ d. PaidOut later id rail rail_ref (approved now id rail rail_ref q db) d2 d)
        (settle_payout-PaidOut later id rail rail_ref (approved now id rail rail_ref q db) d2 a.0
          (λ e. cc) (rw a.2 known))
        (λ _ d e.
          ap (λ (x : Db). x.ledger) e
          ∙ ap (add_entry (payout_key q.user_id id) (pos 0 -ℤ q.amount_micro)) a.1
          ∙ add_entry_twice _ _ db.ledger)

  module _ (now id : ℕ) (rail rail_ref : String) (q : Payout) (db : Db) where
    -- Settling a payout, approving it again and settling it once more debits the earnings only once.
    pub settle_mark_settle :
        (later : ℕ)
        → lookup ℕ_discrete id db.payouts ≡ some q
        → q.status ≢ "paid"
        → lookup ℕ_discrete q.user_id db.users ≢ none
        → Runs
            (settle_payout now id rail rail_ref >>= λ _.
              mark_payout later id "approved" rail rail_ref >>= λ _.
              settle_payout later id rail rail_ref)
            db
            (λ _ d.
              d.ledger ≡ add_entry (payout_key q.user_id id) (pos 0 -ℤ q.amount_micro) db.ledger)
    settle_mark_settle later row unpaid known =
        Runs-bind (λ _ d. PaidOut now id rail rail_ref q db d)
          (settle_payout-PaidOut now id rail rail_ref q db row unpaid known)
          (λ _ d1 e.
            Runs-bind (λ _ d. Approved now id rail rail_ref q db d)
              (Runs-mono _ (marked now id rail rail_ref q db later d1)
                (λ _ d e2. rw e2 (approve_lem now id rail rail_ref q db later d1 e)))
              (λ _ d2 a. settled_again now id rail rail_ref q db d2 later a known))
