-- ===== src/Store/Settle/Books.antt =====
-- Settlement as a transfer between balances: what `SettleRequest` of coordinator/store/postgres.go does to the books,
-- where entries, account rows and metering details are forgotten.
use mathlib.Core.Path.{fun_ext}
use mathlib.Core.List.{append_assoc}
use idlegrid.Prelude.{
  ℕ, ◌≡◌, ◌≢◌, ◌⊎◌, inl, inr, refl, ap, sym, ◌∙◌, Bool, true, false, Bool-cases, Option, none, some,
  List, ◌++◌, String, ℤ, pos, ◌+ℤ◌, ◌-ℤ◌, ◌≤ℤ◌, ltb_ℤ, int_laws, ite, if_pos, if_neg, if◌then◌else◌,
  lookup, string_discrete,
}
use idlegrid.Store.Tables.{
  Db, UsageEntry, Account, EntryKey, Account-discrete, developer_balance, provider_earnings,
  platform_revenue,
}
use idlegrid.Store.Tx.Under.{Under, Under-mono, Under-Runs}
use idlegrid.Store.Ledger.{balance}
use idlegrid.Store.Ledger.Posting.{account_of}
use idlegrid.Store.Settle.{SettleParams, SettleResult, settle_request, already, settle_entry}
use idlegrid.Store.Settle.Steps.{
  charge_entries, credit_entries, fee_entries, payee, assigned, settle_entries, FindsOwner, IsOpen,
  Settled, credited,
}
use idlegrid.Store.Settle.Exact.{settle_request-Settled, settle_request_again}

-- The books: what each account holds, and which requests are settled.
pub record Books : Type 0 where
  pub holds : Account → ℤ
  pub settled : String → Bool

abbrev pub move : Account → ℤ → (Account → ℤ) → Account → ℤ
move a z holds b = ite (Account-discrete a b) (z +ℤ holds b) (holds b)

abbrev pub charge : Option ℕ → ℤ → (Account → ℤ) → Account → ℤ
charge none gross holds = holds
charge (some u) gross holds = move (account_of u developer_balance) (pos 0 -ℤ gross) holds

abbrev pub mark : String → (String → Bool) → String → Bool
mark id settled j = ite (string_discrete id j) true (settled j)

-- The transfer: a settled request is left alone, an open one charges the developer, if any, by the two shares, and gives
-- them to the payee and to the platform.
unfoldable pub transfer : Option ℕ → String → ℕ → ℕ → ℤ → ℤ → Books → Books
transfer user id q p credit fee b = if b.settled id then b else record {
  holds =
      move (account_of p platform_revenue) fee
        (move (account_of q provider_earnings) credit (charge user (credit +ℤ fee) b.holds));
  settled = mark id b.settled;
}

abbrev pub is_settled : Option UsageEntry → Bool
is_settled none = false
is_settled (some u) = u.settled

-- The books of a database.
abbrev pub books : Db → Books
books db = record {
  holds = λ a. balance a db.ledger;
  settled = λ id. is_settled (lookup string_discrete id db.usage);
}

move-zero :
    (c : Account) (z : ℤ) (holds : Account → ℤ) (a : Account)
    → z ≡ pos 0
    → holds a ≡ move c z holds a
move-zero c z holds a e = elim (Account-discrete c a) [
  | yes same ↦ rw (if_pos (Account-discrete c a) same (z +ℤ holds a) (holds a), e) (omega int_laws)
  | no other ↦ rw (if_neg (Account-discrete c a) other (z +ℤ holds a) (holds a)) refl
]

zero_of : (z : ℤ) → pos 0 ≤ℤ z → ltb_ℤ (pos 0) z ≡ false → z ≡ pos 0
zero_of z h e = grind int_laws

-- What the entries of a settlement do to the balance of one account.
module _ (a : Account) where
  balance-charge :
      (user : Option ℕ) (gross : ℤ) (id : String) (l : List (EntryKey × ℤ))
      → pos 0 ≤ℤ gross
      → balance a (charge_entries user gross id ++ l) ≡ charge user gross (λ b. balance b l) a
  unfolding balance
  balance-charge none gross id l h = refl
  balance-charge (some u) gross id l h = elim (Bool-cases (ltb_ℤ (pos 0) gross)) [
    | inl e ↦ rw e refl
    | inr e ↦
        let z = zero_of gross h e in
        rw e (
          move-zero (account_of u developer_balance) (pos 0 -ℤ gross) (λ b. balance b l) a
            (rw z (omega int_laws)))
  ]

  balance-credit :
      (q : ℕ) (credit : ℤ) (id : String) (l : List (EntryKey × ℤ))
      → pos 0 ≤ℤ credit
      → balance a (credit_entries q credit id ++ l)
        ≡ move (account_of q provider_earnings) credit (λ b. balance b l) a
  unfolding balance
  balance-credit q credit id l h = elim (Bool-cases (ltb_ℤ (pos 0) credit)) [
    | inl e ↦ rw e refl
    | inr e ↦ rw e (
        move-zero (account_of q provider_earnings) credit (λ b. balance b l) a (zero_of credit h e))
  ]

  balance-fee :
      (q : ℕ) (fee : ℤ) (id : String) (l : List (EntryKey × ℤ))
      → pos 0 ≤ℤ fee
      → balance a (fee_entries q fee id ++ l)
        ≡ move (account_of q platform_revenue) fee (λ b. balance b l) a
  unfolding balance
  balance-fee q fee id l h = elim (Bool-cases (ltb_ℤ (pos 0) fee)) [
    | inl e ↦ rw e refl
    | inr e ↦
        rw e (move-zero (account_of q platform_revenue) fee (λ b. balance b l) a (zero_of fee h e))
  ]

module _ (user : Option ℕ) (id : String) (q p : ℕ) (credit fee : ℤ) (l : List (EntryKey × ℤ))
    (hc : pos 0 ≤ℤ credit) (hf : pos 0 ≤ℤ fee) where
  abbrev paid : List (EntryKey × ℤ)
  paid = credit_entries q credit id ++ (charge_entries user (credit +ℤ fee) id ++ l)

  regroup :
      settle_entries
          (record { request_id = id; user_id = user; node_id = "" })
          q
          p
          (credit +ℤ fee)
          credit
          fee
        ++ l
      ≡ fee_entries p fee id ++ paid
  regroup =
      append_assoc (fee_entries p fee id)
        (credit_entries q credit id ++ charge_entries user (credit +ℤ fee) id) l
      ∙ ap (λ (es : List (EntryKey × ℤ)). fee_entries p fee id ++ es)
          (append_assoc (credit_entries q credit id) (charge_entries user (credit +ℤ fee) id) l)

  holds_lem :
      (λ (a : Account). balance a (fee_entries p fee id ++ paid))
      ≡ move (account_of p platform_revenue) fee (
          move
            (account_of q provider_earnings)
            credit
            (charge user (credit +ℤ fee) (λ b. balance b l)))
  holds_lem =
      fun_ext (λ a. balance-fee a p fee id paid hf)
      ∙ ap (move (account_of p platform_revenue) fee) (
          fun_ext
            (λ a. balance-credit a q credit id (charge_entries user (credit +ℤ fee) id ++ l) hc)
          ∙ ap (move (account_of q provider_earnings) credit)
              (fun_ext (λ a. balance-charge a user (credit +ℤ fee) id l (omega int_laws))))

books_path :
    {holds holds' : Account → ℤ} {settled settled' : String → Bool}
    → holds ≡ holds'
    → settled ≡ settled'
    → Path Books
        (record { holds = holds; settled = settled })
        (record { holds = holds'; settled = settled' })
books_path p q = λ i. record { holds = p i; settled = q i }

module _ (F : Type 0) (prm : SettleParams) (credit fee : ℤ) (u : UsageEntry) (p : ℕ) (db : Db)
    (hc : pos 0 ≤ℤ credit) (hf : pos 0 ≤ℤ fee) where
  -- The books after the call are those of the transfer to some payee that the node's binding allows.
  abbrev pub Transferred : Db → Type 0
  Transferred d =
      (found : Option ℕ) × FindsOwner F prm.node_id db found
      × (books d ≡ transfer prm.user_id prm.request_id (payee found p) p credit fee (books db))

  settled_lem :
      (gross : ℤ) (o : Option ℕ) (d : Db)
      → lookup string_discrete prm.request_id d.usage
        ≡ some (settle_entry gross credit fee (credited o credit u))
      → ((j : String)
          → prm.request_id ≢ j
          → lookup string_discrete j d.usage ≡ lookup string_discrete j db.usage)
      → (books d).settled ≡ mark prm.request_id (books db).settled
  settled_lem gross o d row others = fun_ext (λ j. elim (string_discrete prm.request_id j) [
    | yes e ↦
        ap (λ (k : String). is_settled (lookup string_discrete k d.usage)) (sym e)
        ∙ ap is_settled row
        ∙ sym (if_pos (string_discrete prm.request_id j) e true ((books db).settled j))
    | no ne ↦
        ap is_settled (others j ne)
        ∙ sym (if_neg (string_discrete prm.request_id j) ne true ((books db).settled j))
  ])

  open_books :
      IsOpen prm u p db
      → (res : SettleResult) (d : Db) → Settled F prm (credit +ℤ fee) credit fee u p db res d
      → Transferred d
  unfolding transfer
  open_books h res d s =
      let q = payee s.found p in
      let ledger : d.ledger ≡ settle_entries prm q p (credit +ℤ fee) credit fee ++ db.ledger =
        ap (λ (x : Db). x.ledger) s.progress.frame in
      let start : (books db).settled prm.request_id ≡ false = ap is_settled h.row ∙ h.unsettled in
      let holds =
        ap {B = Account → ℤ} (λ (l : List (EntryKey × ℤ)). λ a. balance a l)
          (ledger ∙ regroup prm.user_id prm.request_id q p credit fee db.ledger hc hf)
        ∙ holds_lem prm.user_id prm.request_id q p credit fee db.ledger hc hf in
      (
        s.found,
        s.finds,
        rw (start, transfer)
            (books_path holds
              (settled_lem (credit +ℤ fee) s.found d s.progress.row s.progress.others)),
      )

  -- `SettleRequest` refines the transfer: for shares that are not negative, of an open request or of one that is settled
  -- already, whatever fails in the driver, the books after a call that succeeds are those of the transfer from
  -- the books before it, to the owner that the node is assigned to, or to the platform where it has none, or where
  -- a statement may fail and the owner is not found. A request settled before is not charged again.
  pub settle_request-transfer :
      IsOpen prm u p db
        ⊎ ((lookup string_discrete prm.request_id db.usage ≡ some u) × (u.settled ≡ true))
      → Under F (settle_request prm (credit +ℤ fee) credit fee) db (λ res d.
        (found : Option ℕ) × FindsOwner F prm.node_id db found
        × (books d ≡ transfer prm.user_id prm.request_id (payee found p) p credit fee (books db)))
  unfolding transfer
  settle_request-transfer (inl h) =
      Under-mono (Settled F prm (credit +ℤ fee) credit fee u p db)
        (settle_request-Settled F prm (credit +ℤ fee) credit fee u p db h) (open_books h)
  settle_request-transfer (inr (row, done)) =
      Under-mono (λ res d. (res ≡ already) × (d ≡ db))
        (Under-Runs (settle_request_again prm (credit +ℤ fee) credit fee u p db row done))
        (λ res d e. (
          assigned prm.node_id db.nodes,
          inl refl,
          ap books e.1 ∙ rw (ap is_settled row ∙ done, transfer) refl,
        ))
