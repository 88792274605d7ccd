-- ===== src/Store/Deposit.antt =====
-- Deposits: `DodoCredit` of coordinator/store/postgres.go.
use idlegrid.Prelude.{
  ℕ, ◌≡◌, ◌≢◌, refl, ap, ◌∙◌, sym, subst, Bool, true, false, none, some, List, [], ◌∷◌, String, ℤ,
  if◌then◌else◌, inl, inr, Option-cases, lookup, insert, ℕ_discrete, string_discrete, arith,
  lookup-insert_self,
}
use idlegrid.Store.Tables.{
  Db, User, Payment, EntryKey, EntryKey-discrete, developer_balance, deposit, payment,
}
use idlegrid.Store.Tx.{
  Tx, Result, ok, err, constraint, ◌>>=◌, ◌>>◌, query, statement, execute, transact, commit, Runs,
  Runs-bind, Runs-query, Runs-statement, Runs-execute, Runs-mono, Runs-transact,
}
use idlegrid.Store.Ledger.{post_to}
use idlegrid.Store.Ledger.Posting.{entry_key, Posts, post_to-Runs}

-- SELECT EXISTS(SELECT 1 FROM dodo_payments WHERE dodo_payment_id = …).
unfoldable pub has_payment : String → Db → Bool
has_payment id db = elim (lookup string_discrete id db.payments) [ none ↦ false | some _ ↦ true ]

-- INSERT INTO dodo_payments, whose key is new here; refused for an unknown user.
unfoldable pub insert_payment : String → ℕ → ℤ → Db → Result (Unit {0} × Db)
insert_payment id user amount db = elim (lookup ℕ_discrete user db.users) [
  | none ↦ err constraint
  | some _ ↦ ok (
    tt,
    record db {
      payments =
          insert string_discrete id (record { user_id = user; amount_micro = amount }) db.payments;
    },
  )
]

unfoldable pub credit_new : String → ℕ → ℤ → Tx (Unit {0})
unfolding insert_payment statement post_to ◌>>=◌ execute
credit_new id user amount = do
  statement (insert_payment id user amount)
  post_to (some user) developer_balance deposit payment id amount
  commit

-- `DodoCredit`.
unfoldable pub dodo_credit : String → ℕ → ℤ → Tx (Unit {0})
unfolding has_payment query credit_new transact ◌>>=◌ execute
dodo_credit id user amount =
    transact
      do already ← query (has_payment id); if already then commit else credit_new id user amount

Recorded : String → Db → Db → Type 0
Recorded id db d = (has_payment id d ≡ true) × (d ≡ record db { payments = d.payments })

insert_payment-Runs :
    (id : String) (user : ℕ) (amount : ℤ) (db : Db)
    → lookup ℕ_discrete user db.users ≢ none
    → Runs (statement (insert_payment id user amount)) db (λ _ d. Recorded id db d)
unfolding insert_payment has_payment Recorded
insert_payment-Runs id user amount db known =
    elim (Option-cases (lookup ℕ_discrete user db.users)) [
      | inl e ↦ absurd (known e)
      | inr (u, e) ↦
          let row : Payment = record { user_id = user; amount_micro = amount } in
          Runs-statement _ tt (record db { payments = insert string_discrete id row db.payments })
            (rw (e, insert_payment))
            (rw (lookup-insert_self string_discrete id row db.payments, has_payment), refl)
    ]

-- The payment is recorded and its entry is added, and nothing else changes but accounts.
abbrev pub Credited : String → ℕ → ℤ → Db → Db → Type 0
Credited id user amount db d =
    (has_payment id d ≡ true)
    × (d ≡ record db {
      payments = d.payments;
      accounts = d.accounts;
      ledger = (entry_key user developer_balance deposit payment id, amount) ∷ db.ledger;
    })

Credited-of :
    (id : String) (user : ℕ) (amount : ℤ) (db d1 d : Db)
    → Recorded id db d1
    → Posts ((entry_key user developer_balance deposit payment id, amount) ∷ []) d1 d
    → Credited id user amount db d
unfolding Recorded has_payment
Credited-of id user amount db d1 d r posts =
    (ap (λ (x : Db). has_payment id x) posts ∙ r.0, ground arith)

module _ (id : String) (user : ℕ) (amount : ℤ) (db : Db) where
  -- A payment that is not recorded, of a known user, credits the user's developer balance with one
  -- entry of its amount and is recorded.
  pub dodo_credit_new :
      lookup string_discrete id db.payments ≡ none
      → lookup ℕ_discrete user db.users ≢ none
      → lookup EntryKey-discrete (entry_key user developer_balance deposit payment id) db.ledger
        ≡ none
      → Runs (dodo_credit id user amount) db (λ _ d. Credited id user amount db d)
  unfolding dodo_credit has_payment Recorded
  dodo_credit_new absent known fresh = Runs-transact (
      Runs-bind (λ b d. (b ≡ false) × (d ≡ db)) (Runs-query _ (rw (absent, has_payment), refl))
        (λ b d e.
          rw (e.0, e.1)
            (Runs-bind (λ _ d1. Recorded id db d1) (insert_payment-Runs id user amount db known)
              (λ _ d1 r.
                Runs-bind
                  (λ _ d2.
                    Posts ((entry_key user developer_balance deposit payment id, amount) ∷ []) d1
                      d2)
                  (post_to-Runs (some user) developer_balance deposit payment id amount d1 user
                    (
                      refl,
                      subst (λ (us : List (ℕ × User)). lookup ℕ_discrete user us ≢ none)
                          (sym (ap (λ (x : Db). x.users) r.1)) known,
                    )
                    (subst
                      (λ (l : List (EntryKey × ℤ)).
                        lookup EntryKey-discrete
                          (entry_key user developer_balance deposit payment id) l
                        ≡ none)
                      (sym (ap (λ (x : Db). x.ledger) r.1)) fresh))
                  (λ _ d2 posts. Runs-execute _ (Credited-of id user amount db d1 d2 r posts))))))

  -- A payment that is recorded already changes nothing.
  pub dodo_credit_again :
      has_payment id db ≡ true → Runs (dodo_credit id user amount) db (λ _ d. d ≡ db)
  unfolding dodo_credit
  dodo_credit_again done = Runs-transact (
      Runs-bind (λ b d. (b ≡ true) × (d ≡ db)) (Runs-query _ (done, refl))
        (λ b d e. rw (e.0, e.1) (Runs-execute _ refl)))

-- A payment that is delivered twice, the second time with any user and amount, is credited once, as
-- the first delivery says.
pub dodo_credit_twice :
    (id : String) (user user' : ℕ) (amount amount' : ℤ) (db : Db)
    → lookup string_discrete id db.payments ≡ none
    → lookup ℕ_discrete user db.users ≢ none
    → lookup EntryKey-discrete (entry_key user developer_balance deposit payment id) db.ledger
      ≡ none
    → Runs
        (dodo_credit id user amount >>= λ _. dodo_credit id user' amount')
        db
        (λ _ d. Credited id user amount db d)
dodo_credit_twice id user user' amount amount' db absent known fresh =
    Runs-bind (λ _ d. Credited id user amount db d)
      (dodo_credit_new id user amount db absent known fresh)
      (λ _ d c.
        Runs-mono (λ _ d'. d' ≡ d) (dodo_credit_again id user' amount' d c.0) (λ _ d' e. rw e c))
