-- ===== src/Store/Enroll/Sweep.antt =====
-- The escrow sweep of `BindNode` (coordinator/store/postgres.go), for any driver faults.
use idlegrid.Prelude.{
  ℕ, ◌≡◌, ◌≢◌, refl, ap, ◌∙◌, sym, subst, true, none, some, List, [], ◌∷◌, String, ℤ, pos, ◌-ℤ◌,
  ltb_ℤ, inl, inr, Option-cases, lookup, ℕ_discrete, string_discrete, arith, zero-+ℤ,
  lookup-insert_self,
}
use idlegrid.Store.Tables.{Db, User, UsageEntry, EntryKey, Account, provider_earnings}
use idlegrid.Store.Tx.{
  statement, Runs, Runs-bind, Runs-statement, Runs-query, Runs-execute, Runs-transact,
}
use idlegrid.Store.Ledger.{platform_email, user_by_email, post_entry, add_entry}
use idlegrid.Store.Ledger.Posting.{Resolves, Opened, ensure_account-Runs, account_of}
use idlegrid.Store.Settle.{owner_in_nodes}
use idlegrid.Store.Enroll.{
  bound_row, with_node, upsert_node, escrow_amount, escrowed, escrowed_in, mark_rows,
  mark_transferred, sweep_key, move_escrow, bind_node,
}

-- The ledger after the two entries of a sweep, each of which is dropped where its key is taken.
abbrev pub sweep_ledger : ℕ → ℕ → String → ℤ → List (EntryKey × ℤ) → List (EntryKey × ℤ)
sweep_ledger user p node_id amount l =
    add_entry (sweep_key user node_id) amount (add_entry (sweep_key p node_id) (pos 0 -ℤ amount) l)

abbrev swept : ℕ → ℕ → String → ℤ → List Account → Db → Db
swept user p node_id amount accounts db =
    let ledger = sweep_ledger user p node_id amount db.ledger in
    record db { accounts = accounts; ledger = ledger; usage = mark_rows node_id p ledger db.usage }

swept_lem :
    (user p : ℕ) (node_id : String) (amount : ℤ) (db d : Db)
    → user_by_email platform_email db.users ≡ some p
    → d ≡ record db { accounts = d.accounts; ledger = db.ledger }
    → mark_transferred node_id (
        post_entry
          (sweep_key user node_id)
          amount
          (post_entry (sweep_key p node_id) (pos 0 -ℤ amount) d))
      ≡ swept user p node_id amount d.accounts db
unfolding mark_transferred post_entry
swept_lem user p node_id amount db d platform e =
    let users : d.users ≡ db.users = ap (λ (x : Db). x.users) e in
    rw (ap (user_by_email platform_email) users ∙ platform) (ground arith)

own_accounts :
    (user p : ℕ) (node_id : String) (amount : ℤ) (db d : Db) (accounts : List Account)
    → d ≡ swept user p node_id amount accounts db
    → d ≡ swept user p node_id amount d.accounts db
own_accounts user p node_id amount db d accounts e =
    e
    ∙ ap (λ (as' : List Account). swept user p node_id amount as' db)
        (sym (ap (λ (x : Db). x.accounts) e))

swept_end :
    (user p : ℕ) (node_id : String) (amount : ℤ) (db d1 d2 d3 d4 : Db)
    → user_by_email platform_email db.users ≡ some p
    → d1 ≡ record db { accounts = d1.accounts; ledger = db.ledger }
    → d2 ≡ record d1 { accounts = d2.accounts; ledger = d1.ledger }
    → d3 ≡ post_entry (sweep_key p node_id) (pos 0 -ℤ amount) d2
    → d4 ≡ post_entry (sweep_key user node_id) amount d3
    → mark_transferred node_id d4
      ≡ swept user p node_id amount (mark_transferred node_id d4).accounts db
swept_end user p node_id amount db d1 d2 d3 d4 platform e1 e2 e3 e4 =
    let opened : d2 ≡ record db { accounts = d2.accounts; ledger = db.ledger } = ground arith in
    own_accounts user p node_id amount db (mark_transferred node_id d4) d2.accounts (
      ap (mark_transferred node_id) (e4 ∙ ap (post_entry (sweep_key user node_id) amount) e3)
      ∙ swept_lem user p node_id amount db d2 platform opened)

move_escrow-Runs :
    (user p : ℕ) (node_id : String) (amount : ℤ) (db : Db)
    → Resolves none db.users p
    → lookup ℕ_discrete user db.users ≢ none
    → Runs
        (move_escrow user node_id amount)
        db
        (λ _ d. d ≡ swept user p node_id amount d.accounts db)
unfolding move_escrow Opened
move_escrow-Runs user p node_id amount db platform known =
    Runs-bind (Opened (account_of p provider_earnings) db)
      (ensure_account-Runs none provider_earnings db p platform)
      (λ a d1 e1.
        Runs-bind (Opened (account_of user provider_earnings) d1)
          (ensure_account-Runs (some user) provider_earnings d1 user (
            refl,
            subst (λ (us : List (ℕ × User)). lookup ℕ_discrete user us ≢ none)
                (sym (ap (λ (x : Db). x.users) e1.1)) known,
          ))
          (λ b d2 e2.
            rw (e1.0, e2.0)
              (Runs-bind (λ _ d. d ≡ post_entry (sweep_key p node_id) (pos 0 -ℤ amount) d2)
                (Runs-execute _ refl)
                (λ _ d3 e3.
                  Runs-bind (λ _ d. d ≡ post_entry (sweep_key user node_id) amount d3)
                    (Runs-execute _ refl)
                    (λ _ d4 e4. Runs-execute _ (
                      swept_end user p node_id amount db d1 d2 d3 d4 platform.0 e1.1 e2.1 e3
                        e4))))))

pub escrowed-mark_rows :
    (node_id : String) (p : ℕ) (l : List (EntryKey × ℤ)) (rows : List (String × UsageEntry))
    → escrowed node_id p l (mark_rows node_id p l rows) ≡ pos 0
unfolding escrowed mark_rows
escrowed-mark_rows node_id p l [] = refl
escrowed-mark_rows node_id p l ((id, u) ∷ rows) = elim (Option-cases (escrow_amount p l id)) [
  | inl e ↦ ground (
    arith,
    zero-+ℤ (escrowed node_id p l (mark_rows node_id p l rows)),
    escrowed-mark_rows node_id p l rows,
  )
  | inr (z, e) ↦ ground (arith, escrowed-mark_rows node_id p l rows)
]

abbrev Bound : ℕ → String → Db → Db → Type 0
Bound user node_id db d =
    (owner_in_nodes node_id d.nodes ≡ some user) × (d ≡ record db { nodes = d.nodes })

upsert_node-Runs :
    (now user : ℕ) (node_id token : String) (db : Db)
    → lookup ℕ_discrete user db.users ≢ none
    → Runs (statement (upsert_node now user node_id token)) db (λ _ d. Bound user node_id db d)
unfolding upsert_node owner_in_nodes
upsert_node-Runs now user node_id token db known =
    elim (Option-cases (lookup ℕ_discrete user db.users)) [
      | inl e ↦ absurd (known e)
      | inr (u, e) ↦
          let row = bound_row now user token (lookup string_discrete node_id db.nodes) in
          Runs-statement _ tt (with_node node_id row db) (rw (e, upsert_node))
            (rw (lookup-insert_self string_discrete node_id row db.nodes, owner_in_nodes), refl)
    ]

-- What a bind leaves where the node has a positive amount in escrow.
abbrev pub Rebound : ℕ → ℕ → String → Db → Db → Type 0
Rebound user p node_id db d =
    let ledger = sweep_ledger user p node_id (escrowed node_id p db.ledger db.usage) db.ledger in
    (owner_in_nodes node_id d.nodes ≡ some user)
    × (d ≡ record db {
      nodes = d.nodes;
      accounts = d.accounts;
      ledger = ledger;
      usage = mark_rows node_id p ledger db.usage;
    })

-- What a bind needs: the platform user and the new owner exist.
pub record CanBind (user p : ℕ) (db : Db) : Type 0 where
  pub platform : Resolves none db.users p
  pub known : lookup ℕ_discrete user db.users ≢ none

escrowed_in_lem :
    (node_id : String) (p : ℕ) (db d : Db)
    → user_by_email platform_email db.users ≡ some p
    → d ≡ record db { nodes = d.nodes }
    → escrowed_in node_id d ≡ escrowed node_id p db.ledger db.usage
unfolding escrowed_in
escrowed_in_lem node_id p db d platform e =
    let users : d.users ≡ db.users = ap (λ (x : Db). x.users) e in
    let ledger : d.ledger ≡ db.ledger = ap (λ (x : Db). x.ledger) e in
    let usage : d.usage ≡ db.usage = ap (λ (x : Db). x.usage) e in
    rw (ap (user_by_email platform_email) users ∙ platform, ledger, usage)

Bound-swept :
    (user p : ℕ) (node_id : String) (db d1 d : Db)
    → Bound user node_id db d1
    → d ≡ swept user p node_id (escrowed node_id p db.ledger db.usage) d.accounts d1
    → Rebound user p node_id db d
Bound-swept user p node_id db d1 d e1 e =
    (ap (λ (x : Db). owner_in_nodes node_id x.nodes) e ∙ e1.0, ground arith)

module _ (now user p : ℕ) (node_id token : String) (db : Db) where
  users : (d : Db) → Bound user node_id db d → d.users ≡ db.users
  users d e = ap (λ (x : Db). x.users) e.1

  pub bind_node-Rebound :
      CanBind user p db
      → ltb_ℤ (pos 0) (escrowed node_id p db.ledger db.usage) ≡ true
      → Runs (bind_node now user node_id token) db (λ _ d. Rebound user p node_id db d)
  unfolding bind_node
  bind_node-Rebound h positive =
      let amount = escrowed node_id p db.ledger db.usage in
      Runs-transact (
        Runs-bind (λ _ d. Bound user node_id db d)
          (upsert_node-Runs now user node_id token db h.known)
          (λ _ d1 e1.
            Runs-bind (λ a d. (a ≡ amount) × (d ≡ d1))
              (Runs-query _ (escrowed_in_lem node_id p db d1 h.platform.0 e1.1, refl))
              (λ a d2 e2.
                rw (e2.0, e2.1, positive)
                  (Runs-bind (λ _ d. d ≡ swept user p node_id amount d.accounts d1)
                    (move_escrow-Runs user p node_id amount d1
                      (subst (λ (us : List (ℕ × User)). Resolves none us p) (sym (users d1 e1))
                        h.platform)
                      (subst (λ (us : List (ℕ × User)). lookup ℕ_discrete user us ≢ none)
                        (sym (users d1 e1)) h.known))
                    (λ _ d3 e3. Runs-execute _ (Bound-swept user p node_id db d1 d3 e1 e3))))))
