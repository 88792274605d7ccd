-- ===== src/Store/Settle/Conservation.antt =====
-- Settlement moves money and makes none (coordinator/store/postgres.go, `SettleRequest`).
use idlegrid.Prelude.{
  ℕ, ◌≡◌, refl, ap, ◌∙◌, Option, none, some, [], ◌++◌, String, ℤ, pos, ◌-ℤ◌, ◌+ℤ◌, ◌≤ℤ◌, ltb_ℤ, inl,
  inr, Bool-cases, int_laws,
}
use idlegrid.Store.Tables.{Db, UsageEntry}
use idlegrid.Store.Tx.{Runs, Runs-mono, Runs-bind, ◌>>=◌}
use idlegrid.Store.Tx.Under.{Runs-Under}
use idlegrid.Store.Ledger.{total}
use idlegrid.Store.Ledger.Sums.{total-append}
use idlegrid.Store.Settle.{SettleParams, SettleResult, settle_request, already, settle_entry}
use idlegrid.Store.Settle.Steps.{
  charge_entries, credit_entries, fee_entries, payee, settle_entries, IsOpen, Settled, credited,
}
use idlegrid.Store.Settle.Exact.{settle_request-Settled, settle_request_again}

total-charge :
    (u : ℕ) (gross : ℤ) (id : String)
    → pos 0 ≤ℤ gross
    → total (charge_entries (some u) gross id) ≡ pos 0 -ℤ gross
unfolding total
total-charge u gross id h = elim (Bool-cases (ltb_ℤ (pos 0) gross)) [
  | inl e ↦ rw e (omega int_laws)
  | inr e ↦ rw e (grind int_laws)
]

total-credit :
    (q : ℕ) (credit : ℤ) (id : String)
    → pos 0 ≤ℤ credit
    → total (credit_entries q credit id) ≡ credit
unfolding total
total-credit q credit id h = elim (Bool-cases (ltb_ℤ (pos 0) credit)) [
  | inl e ↦ rw e (omega int_laws)
  | inr e ↦ rw e (grind int_laws)
]

total-fee : (q : ℕ) (fee : ℤ) (id : String) → pos 0 ≤ℤ fee → total (fee_entries q fee id) ≡ fee
unfolding total
total-fee q fee id h = elim (Bool-cases (ltb_ℤ (pos 0) fee)) [
  | inl e ↦ rw e (omega int_laws)
  | inr e ↦ rw e (grind int_laws)
]

-- The sum of what a settlement posts: nothing for a developer's request, the gross amount for
-- admin traffic, which nobody is charged for.
abbrev pub minted : Option ℕ → ℤ → ℤ
minted none gross = gross
minted (some _) gross = pos 0

total-settle_entries :
    (user : Option ℕ) (id : String) (q p : ℕ) (credit fee : ℤ)
    → pos 0 ≤ℤ credit
    → pos 0 ≤ℤ fee
    → total (
        fee_entries p fee id
        ++ (credit_entries q credit id ++ charge_entries user (credit +ℤ fee) id))
      ≡ minted user (credit +ℤ fee)
unfolding total
total-settle_entries none id q p credit fee hc hf =
    rw
      (
        total-append (fee_entries p fee id) (credit_entries q credit id ++ []),
        total-append (credit_entries q credit id) [],
        total-fee p fee id hf,
        total-credit q credit id hc,
      )
      (omega int_laws)
total-settle_entries (some u) id q p credit fee hc hf =
    let charge = charge_entries (some u) (credit +ℤ fee) id in
    rw
      (
        total-append (fee_entries p fee id) (credit_entries q credit id ++ charge),
        total-append (credit_entries q credit id) charge,
        total-fee p fee id hf,
        total-credit q credit id hc,
        total-charge u (credit +ℤ fee) id (omega int_laws),
      )
      (omega int_laws)

Settled-total :
    (prm : SettleParams) (credit fee : ℤ) (u : UsageEntry) (p : ℕ) (db d : Db) (res : SettleResult)
    → pos 0 ≤ℤ credit
    → pos 0 ≤ℤ fee
    → Settled Unit prm (credit +ℤ fee) credit fee u p db res d
    → total d.ledger ≡ minted prm.user_id (credit +ℤ fee) +ℤ total db.ledger
Settled-total prm credit fee u p db d res hc hf s =
    let es = settle_entries prm (payee s.found p) p (credit +ℤ fee) credit fee in
    let ledger : d.ledger ≡ es ++ db.ledger = ap (λ (x : Db). x.ledger) s.progress.frame in
    ap total ledger
    ∙ total-append es db.ledger
    ∙ ap (λ (z : ℤ). z +ℤ total db.ledger)
        (total-settle_entries prm.user_id prm.request_id (payee s.found p) p credit fee hc hf)

module _ (prm : SettleParams) (credit fee : ℤ) (u : UsageEntry) (p : ℕ) (db : Db) where
  -- Settling an open request whose shares are not negative and add up to the gross amount changes the
  -- sum of all ledger entries by nothing if a developer is charged, and by the gross amount if the
  -- request is admin traffic.
  pub settle_request-total :
      pos 0 ≤ℤ credit
      → pos 0 ≤ℤ fee
      → IsOpen prm u p db
      → Runs
          (settle_request prm (credit +ℤ fee) credit fee)
          db
          (λ _ d. total d.ledger ≡ minted prm.user_id (credit +ℤ fee) +ℤ total db.ledger)
  settle_request-total hc hf h =
      Runs-mono (Settled Unit prm (credit +ℤ fee) credit fee u p db)
        (Runs-Under (settle_request-Settled Unit prm (credit +ℤ fee) credit fee u p db h))
        (λ res d s. Settled-total prm credit fee u p db d res hc hf s)

  -- Settling an open request twice leaves the database that one settlement leaves, and the second call
  -- reports that the request was settled already.
  settle_request_twice :
      IsOpen prm u p db
      → Runs
          (settle_request prm (credit +ℤ fee) credit fee >>= λ _.
            settle_request prm (credit +ℤ fee) credit fee)
          db
          (λ res d.
            (res ≡ already)
            × (first : SettleResult) × Settled Unit prm (credit +ℤ fee) credit fee u p db first d)
  settle_request_twice h =
      Runs-bind (Settled Unit prm (credit +ℤ fee) credit fee u p db)
        (Runs-Under (settle_request-Settled Unit prm (credit +ℤ fee) credit fee u p db h))
        (λ first d s.
          Runs-mono (λ res d'. (res ≡ already) × (d' ≡ d))
            (settle_request_again prm (credit +ℤ fee) credit fee
              (settle_entry (credit +ℤ fee) credit fee (credited s.found credit u)) p d
              s.progress.row refl)
            (λ res d' e. (e.0, first, rw e.1 s)))
