-- ===== src/Store/Settle/Exact.antt =====
-- What a settlement does to the ledger and to its metering row, for any driver faults.
use idlegrid.Prelude.{
  ℕ, ◌≡◌, refl, ap, sym, subst, true, false, Option, some, [], ◌++◌, ℤ, lookup, string_discrete,
}
use mathlib.Core.List.{append-nil}
use idlegrid.Store.Tables.{Db, UsageEntry, usage_charge, provider_earning, platform_fee}
use idlegrid.Store.Tx.{
  Runs, Runs-bind, Runs-statement, Runs-execute, Runs-pure, Runs-transact, execute, ◌>>◌, pure,
  commit,
}
use idlegrid.Store.Tx.Under.{Under, Under-bind, Under-Runs, Under-transact}
use idlegrid.Store.Ledger.Posting.{Posts}
use idlegrid.Store.Settle.{
  SettleParams, credit_provider, collect_fee, update_usage, settle_open, settle_request,
  settled_row, settle_entry, already,
}
use idlegrid.Store.Settle.Steps.{
  charge_entries, credit_entries, fee_entries, FindsOwner, FindsOwnerIn, Progress, credited, payee,
  IsOpen, Settled, charge_developer-Runs, owner_of-Under, start, post_more, update_row,
  credit_provider-Runs, collect_fee-Runs, charge_types, credit_types, payee-Resolves,
}

module _ (F : Type 0) (prm : SettleParams) (gross credit fee : ℤ) (u : UsageEntry) (p : ℕ)
    (db : Db) where
  charged_Progress :
      (d : Db)
      → IsOpen prm u p db
      → Posts (charge_entries prm.user_id gross prm.request_id) db d
      → Progress (charge_entries prm.user_id gross prm.request_id) prm.request_id u db d
  charged_Progress d h posts =
      subst (λ es. Progress es prm.request_id u db d) (append-nil _)
        (post_more [] (charge_entries prm.user_id gross prm.request_id) prm.request_id u db db d
          (start prm.request_id u db h.row) posts)

  -- The statements after the owner is found.
  paid-Runs :
      (o : Option ℕ) (d : Db)
      → IsOpen prm u p db
      → FindsOwner F prm.node_id db o
      → Progress (charge_entries prm.user_id gross prm.request_id) prm.request_id u db d
      → Runs
          (credit_provider o credit prm.request_id
            >> (collect_fee fee prm.request_id
                >> (execute (update_usage prm.request_id (settle_entry gross credit fee))
                    >> (commit
                        >> pure (record {
                          gross = gross;
                          provider_credit = credit;
                          platform_fee = fee;
                          already_settled = false;
                        })))))
          d
          (Settled F prm gross credit fee u p db)
  paid-Runs o d h found progress =
      let id = prm.request_id in
      let q = payee o p in
      let charge = charge_entries prm.user_id gross id in
      let v = credited o credit u in
      let es = credit_entries q credit id ++ charge in
      Runs-bind (λ _ d'. Progress es id v db d')
        (credit_provider-Runs id u db o q credit charge d progress
          (payee-Resolves F prm.node_id db o p found h.platform h.owner)
          (charge_types provider_earning prm.user_id gross id (λ w. cc)) (h.fresh provider_earning))
        (λ _ d2 p2.
          Runs-bind (λ _ d'. Progress (fee_entries p fee id ++ es) id v db d')
            (collect_fee-Runs id u db v p fee es d2 p2 h.platform
              (credit_types q credit id charge
                (charge_types platform_fee prm.user_id gross id (λ w. cc)))
              (h.fresh platform_fee))
            (λ _ d3 p3.
              Runs-bind
                (λ _ d'.
                  Progress (fee_entries p fee id ++ es) id (settle_entry gross credit fee v) db d')
                (Runs-execute _ (update_row _ id v (settle_entry gross credit fee) db d3 p3))
                (λ _ d4 p4.
                  Runs-bind (λ _ d'. d' ≡ d4) (Runs-execute _ refl)
                    (λ _ d5 e. Runs-pure _ (record {
                      result = refl;
                      found = o;
                      finds = found;
                      progress =
                          subst
                            (Progress (fee_entries p fee id ++ es) id
                              (settle_entry gross credit fee v) db)
                            (sym e) p4;
                    })))))

  settle_open-Under :
      IsOpen prm u p db
      → Under F (settle_open prm gross credit fee) db (Settled F prm gross credit fee u p db)
  unfolding settle_open
  settle_open-Under h =
      Under-bind (λ _ d. Posts (charge_entries prm.user_id gross prm.request_id) db d)
        (Under-Runs (
          charge_developer-Runs prm.user_id gross prm.request_id db h.developer
            (h.fresh usage_charge)))
        (λ _ d posts.
          let progress = charged_Progress d h posts in
          Under-bind (λ o d'. FindsOwner F prm.node_id d o × (d' ≡ d))
            (owner_of-Under F prm.node_id d)
            (λ o d' found. Under-Runs (
              paid-Runs o d' h
                (subst (λ ns. FindsOwnerIn F prm.node_id ns o)
                  (ap (λ (x : Db). x.nodes) progress.frame) found.0)
                (subst (Progress _ prm.request_id u db) (sym found.1) progress))))

  -- A settlement of an open request returns its amounts, adds the charge of the developer, the credit
  -- of the node's owner (of the platform, where the node has none, or where a statement may fail and
  -- the owner is not found) and the platform's fee, each where it is positive, marks the metering row
  -- settled, and changes nothing else but accounts. It fails only where the database does.
  pub settle_request-Settled :
      IsOpen prm u p db
      → Under F (settle_request prm gross credit fee) db (Settled F prm gross credit fee u p db)
  unfolding settle_request settled_row
  settle_request-Settled h = Under-transact (
      Under-bind (λ b d. (b ≡ false) × (d ≡ db))
        (Under-Runs (Runs-statement _ u.settled db (rw (h.row, settled_row)) (h.unsettled, refl)))
        (λ b d e. rw (e.0, e.1) (settle_open-Under h)))

module _ (prm : SettleParams) (gross credit fee : ℤ) (u : UsageEntry) (p : ℕ) (db : Db) where
  -- A request that is settled already is left alone, and the caller is told.
  pub settle_request_again :
      lookup string_discrete prm.request_id db.usage ≡ some u
      → u.settled ≡ true
      → Runs (settle_request prm gross credit fee) db (λ res d. (res ≡ already) × (d ≡ db))
  unfolding settle_request settled_row
  settle_request_again row done = Runs-transact (
      Runs-bind (λ b d. (b ≡ u.settled) × (d ≡ db))
        (Runs-statement _ u.settled db (rw (row, settled_row)) (refl, refl))
        (λ b d e. rw (e.0, e.1, done) (Runs-pure already (refl, refl))))
