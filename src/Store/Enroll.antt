-- ===== src/Store/Enroll.antt =====
-- `BindNode` of coordinator/store/postgres.go, with the sweep of a node's earnings out of escrow. The
-- database's now() is an argument.
pub mod Sweep
pub mod Money
use idlegrid.Prelude.{
  ℕ, Bool, true, false, not, ◌&&◌, Option, none, some, List, [], ◌∷◌, String, ite, ℤ, pos, ◌-ℤ◌,
  ◌+ℤ◌, ltb_ℤ, if◌then◌else◌, lookup, insert, erase, ℕ_discrete, string_discrete,
}
use idlegrid.Store.Tables.{
  Db, User, NodeBinding, UsageEntry, EntryKey, ProviderToken, EntryKey-discrete, provider_earnings,
  provider_earning, enrollment_sweep, request, node,
}
use idlegrid.Store.Tx.{
  Tx, Result, ok, err, constraint, ◌>>=◌, ◌>>◌, pure, query, execute, statement, transact, commit,
  recover,
}
use idlegrid.Store.Ledger.{platform_email, user_by_email, ensure_account, post_entry}
use idlegrid.Store.Ledger.Posting.{entry_key}

-- NULLIF(t, '').
abbrev pub null_if_empty : String → Option String
null_if_empty t = ite (string_discrete t "") none (some t)

abbrev error_count_of : Option NodeBinding → ℕ
error_count_of none = 0
error_count_of (some b) = b.error_count

-- The inserted or updated row; a binding that was there keeps its error count.
abbrev pub bound_row : ℕ → ℕ → String → Option NodeBinding → NodeBinding
bound_row now user token old = record {
  user_id = some user;
  enrolled_at = some now;
  last_seen = some now;
  error_count = error_count_of old;
  bound_with_token = null_if_empty token;
}

abbrev pub with_node : String → NodeBinding → Db → Db
with_node node_id row db = record db { nodes = insert string_discrete node_id row db.nodes }

-- INSERT INTO provider_nodes … ON CONFLICT (node_id) DO UPDATE …, refused for an unknown user.
unfoldable pub upsert_node : ℕ → ℕ → String → String → Db → Result (Unit {0} × Db)
upsert_node now user node_id token db = elim (lookup ℕ_discrete user db.users) [
  | none ↦ err constraint
  | some _ ↦ ok (
    tt,
    with_node node_id (bound_row now user token (lookup string_discrete node_id db.nodes)) db,
  )
]

-- The amount of the row that a metering row joins in the platform's escrow, of which there is one at
-- most, by the unique key.
abbrev pub escrow_amount : ℕ → List (EntryKey × ℤ) → String → Option ℤ
escrow_amount p ledger id =
    lookup EntryKey-discrete (entry_key p provider_earnings provider_earning request id) ledger

-- ue.node_id = $1 AND NOT ue.transferred.
abbrev pub is_untransferred : String → UsageEntry → Bool
is_untransferred node_id u =
    ite (string_discrete u.event.node_id node_id) true false && not u.transferred

abbrev pub amount_or_zero : Option ℤ → ℤ
amount_or_zero none = pos 0
amount_or_zero (some z) = z

-- SELECT COALESCE(SUM(le.amount_micro), 0) over that join.
unfoldable pub escrowed : String → ℕ → List (EntryKey × ℤ) → List (String × UsageEntry) → ℤ
escrowed node_id p ledger [] = pos 0
escrowed node_id p ledger ((id, u) ∷ rows) =
    if is_untransferred node_id u
    then amount_or_zero (escrow_amount p ledger id) +ℤ escrowed node_id p ledger rows
    else escrowed node_id p ledger rows

abbrev escrowed_at : String → Db → Option ℕ → ℤ
escrowed_at node_id db none = pos 0
escrowed_at node_id db (some p) = escrowed node_id p db.ledger db.usage

unfoldable pub escrowed_in : String → Db → ℤ
unfolding escrowed user_by_email
escrowed_in node_id db = escrowed_at node_id db (user_by_email platform_email db.users)

abbrev pub mark_row : String → Option ℤ → UsageEntry → UsageEntry
mark_row node_id none u = u
mark_row node_id (some _) u =
    if is_untransferred node_id u then record u { transferred = true } else u

-- UPDATE usage_events SET transferred=true over that join.
unfoldable pub mark_rows :
    String → ℕ → List (EntryKey × ℤ) → List (String × UsageEntry) → List (String × UsageEntry)
mark_rows node_id p ledger [] = []
mark_rows node_id p ledger ((id, u) ∷ rows) =
    (id, mark_row node_id (escrow_amount p ledger id) u) ∷ mark_rows node_id p ledger rows

abbrev marked_at : String → Db → Option ℕ → Db
marked_at node_id db none = db
marked_at node_id db (some p) = record db { usage = mark_rows node_id p db.ledger db.usage }

unfoldable pub mark_transferred : String → Db → Db
unfolding mark_rows user_by_email
mark_transferred node_id db = marked_at node_id db (user_by_email platform_email db.users)

abbrev pub sweep_key : ℕ → String → EntryKey
sweep_key owner node_id = entry_key owner provider_earnings enrollment_sweep node node_id

-- The body of `if escrowed > 0`.
unfoldable pub move_escrow : ℕ → String → ℤ → Tx (Unit {0})
unfolding ensure_account post_entry mark_transferred execute ◌>>=◌
move_escrow user node_id amount = do
  escrow ← ensure_account none provider_earnings
  owner ← ensure_account (some user) provider_earnings
  execute (
      post_entry
        (record {
          account = escrow;
          entry_type = enrollment_sweep;
          ref_type = node;
          ref_id = node_id;
        })
        (pos 0 -ℤ amount))
  execute (
      post_entry
        (record {
          account = owner;
          entry_type = enrollment_sweep;
          ref_type = node;
          ref_id = node_id;
        })
        amount)
  execute (mark_transferred node_id)

-- `BindNode`.
unfoldable pub bind_node : ℕ → ℕ → String → String → Tx (Unit {0})
unfolding upsert_node escrowed_in move_escrow statement query pure transact ◌>>=◌
bind_node now user node_id token = transact do
  statement (upsert_node now user node_id token)
  amount ← query (escrowed_in node_id)
  (if ltb_ℤ (pos 0) amount then move_escrow user node_id amount else pure tt)
  commit
