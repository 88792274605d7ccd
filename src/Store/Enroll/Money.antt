-- ===== src/Store/Enroll/Money.antt =====
-- Where the money of an enrollment goes (coordinator/store/postgres.go, `BindNode`): the first bind of
-- a node, and a later one.
use idlegrid.Prelude.{
  ℕ, ◌≡◌, ◌≢◌, ap, ◌∙◌, true, none, some, List, ◌∷◌, String, ℤ, pos, ◌-ℤ◌, ◌+ℤ◌, ltb_ℤ, lookup,
  if_neg, int_laws,
}
use idlegrid.Store.Tables.{Db, EntryKey, EntryKey-discrete}
use idlegrid.Store.Tx.{Runs, Runs-mono}
use idlegrid.Store.Ledger.{total, add_entry}
use idlegrid.Store.Ledger.Posting.{add_entry_fresh, add_entry_old}
use idlegrid.Store.Settle.{owner_in_nodes}
use idlegrid.Store.Enroll.{escrowed, sweep_key, bind_node}
use idlegrid.Store.Enroll.Sweep.{
  CanBind, Rebound, sweep_ledger, bind_node-Rebound, escrowed-mark_rows,
}

-- No sweep of the node is booked in the user's account; one is.
abbrev pub NoSweep : ℕ → String → List (EntryKey × ℤ) → Type 0
NoSweep user node_id l = lookup EntryKey-discrete (sweep_key user node_id) l ≡ none

abbrev pub HasSweep : ℕ → String → List (EntryKey × ℤ) → Type 0
HasSweep user node_id l = lookup EntryKey-discrete (sweep_key user node_id) l ≢ none

NoSweep-cons :
    (user p : ℕ) (node_id : String) (z : ℤ) (l : List (EntryKey × ℤ))
    → p ≢ user
    → NoSweep user node_id l
    → NoSweep user node_id ((sweep_key p node_id, z) ∷ l)
unfolding lookup
NoSweep-cons user p node_id z l ne h =
    rw
      (if_neg _ (λ (e : sweep_key p node_id ≡ sweep_key user node_id).
        ne (ap (λ (k : EntryKey). k.account.owner) e)))
      h

first_sweep :
    (user p : ℕ) (node_id : String) (z : ℤ) (l : List (EntryKey × ℤ))
    → p ≢ user
    → NoSweep user node_id l
    → NoSweep p node_id l
    → sweep_ledger user p node_id z l
      ≡ (sweep_key user node_id, z) ∷ (sweep_key p node_id, pos 0 -ℤ z) ∷ l
first_sweep user p node_id z l ne own escrow = rw (
  add_entry_fresh (sweep_key p node_id) (pos 0 -ℤ z) l escrow,
  add_entry_fresh (sweep_key user node_id) z _ (NoSweep-cons user p node_id (pos 0 -ℤ z) l ne own),
)

total-first :
    (k j : EntryKey) (z : ℤ) (l : List (EntryKey × ℤ))
    → total ((k, z) ∷ (j, pos 0 -ℤ z) ∷ l) ≡ total l
unfolding total
total-first k j z l = omega int_laws

total-cons : (k : EntryKey) (z : ℤ) (l : List (EntryKey × ℤ)) → total ((k, z) ∷ l) ≡ total l +ℤ z
unfolding total
total-cons k z l = omega int_laws

module _ (now user p : ℕ) (node_id token : String) (db : Db) where
  abbrev amount : ℤ
  amount = escrowed node_id p db.ledger db.usage

  ledger_of :
      (d : Db)
      → Rebound user p node_id db d
      → d.ledger ≡ sweep_ledger user p node_id amount db.ledger
  ledger_of d h = ap (λ (x : Db). x.ledger) h.1

  emptied : (d : Db) → Rebound user p node_id db d → escrowed node_id p d.ledger d.usage ≡ pos 0
  emptied d h =
      let ledger = sweep_ledger user p node_id amount db.ledger in
      rw (ap (λ (x : Db). x.ledger) h.1, ap (λ (x : Db). x.usage) h.1)
        (escrowed-mark_rows node_id p ledger db.usage)

  -- Binding a node with earnings in escrow that was never swept, to a user other than the platform,
  -- makes that user its owner, moves exactly the escrowed amount from the platform's earnings account
  -- to the owner's, leaves the sum of the ledger as it was, and leaves nothing of the node in escrow.
  pub first_bind_moves :
      CanBind user p db
      → ltb_ℤ (pos 0) (escrowed node_id p db.ledger db.usage) ≡ true
      → p ≢ user
      → NoSweep user node_id db.ledger
      → NoSweep p node_id db.ledger
      → Runs (bind_node now user node_id token) db (λ _ d.
        (owner_in_nodes node_id d.nodes ≡ some user)
        × (d.ledger
            ≡ (sweep_key user node_id, escrowed node_id p db.ledger db.usage)
              ∷ (sweep_key p node_id, pos 0 -ℤ escrowed node_id p db.ledger db.usage)
              ∷ db.ledger)
        × (total d.ledger ≡ total db.ledger)
        × (escrowed node_id p d.ledger d.usage ≡ pos 0))
  first_bind_moves h positive ne own escrow =
      Runs-mono (λ _ d. Rebound user p node_id db d)
        (bind_node-Rebound now user p node_id token db h positive)
        (λ _ d r.
          let ledger = ledger_of d r ∙ first_sweep user p node_id amount db.ledger ne own escrow in
          (r.0, ledger, ap total ledger ∙ total-first _ _ amount db.ledger, emptied d r))

  -- A node that was swept before and is bound to another user with new earnings in escrow: the user is
  -- credited with the escrowed amount, and that entry is the only one, so the platform's account is not
  -- debited and the sum of the ledger grows by that amount; nothing of the node is left in escrow.
  pub rebind_mints :
      CanBind user p db
      → ltb_ℤ (pos 0) (escrowed node_id p db.ledger db.usage) ≡ true
      → NoSweep user node_id db.ledger
      → HasSweep p node_id db.ledger
      → Runs (bind_node now user node_id token) db (λ _ d.
        (owner_in_nodes node_id d.nodes ≡ some user)
        × (d.ledger ≡ (sweep_key user node_id, escrowed node_id p db.ledger db.usage) ∷ db.ledger)
        × (total d.ledger ≡ total db.ledger +ℤ escrowed node_id p db.ledger db.usage)
        × (escrowed node_id p d.ledger d.usage ≡ pos 0))
  rebind_mints h positive own escrow =
      Runs-mono (λ _ d. Rebound user p node_id db d)
        (bind_node-Rebound now user p node_id token db h positive)
        (λ _ d r.
          let ledger =
            ledger_of d r
            ∙ ap (add_entry (sweep_key user node_id) amount)
                (add_entry_old (sweep_key p node_id) (pos 0 -ℤ amount) db.ledger escrow)
            ∙ add_entry_fresh (sweep_key user node_id) amount db.ledger own in
          (r.0, ledger, ap total ledger ∙ total-cons _ amount db.ledger, emptied d r))

  -- A node that was swept before and is bound again to the same user with new earnings in escrow: no
  -- entry is posted, and yet nothing of the node counts as escrowed any more, so no later bind pays it.
  pub rebind_loses :
      CanBind user p db
      → ltb_ℤ (pos 0) (escrowed node_id p db.ledger db.usage) ≡ true
      → HasSweep user node_id db.ledger
      → HasSweep p node_id db.ledger
      → Runs
          (bind_node now user node_id token)
          db
          (λ _ d. (d.ledger ≡ db.ledger) × (escrowed node_id p d.ledger d.usage ≡ pos 0))
  rebind_loses h positive own escrow =
      Runs-mono (λ _ d. Rebound user p node_id db d)
        (bind_node-Rebound now user p node_id token db h positive)
        (λ _ d r. (
          ledger_of d r
              ∙ ap (add_entry (sweep_key user node_id) amount)
                  (add_entry_old (sweep_key p node_id) (pos 0 -ℤ amount) db.ledger escrow)
              ∙ add_entry_old (sweep_key user node_id) amount db.ledger own,
          emptied d r,
        ))
