-- ===== src/Store/Settle.antt =====
-- `RecordUsage`, `SettleRequest` and `NodeOwner` of coordinator/store/postgres.go.
pub mod Steps
pub mod Exact
pub mod Conservation
pub mod Books
use idlegrid.Prelude.{
  ℕ, ◌≡◌, ◌≢◌, Bool, true, false, Option, none, some, List, [], ◌∷◌, String, ite, ℤ, pos, ◌-ℤ◌,
  negsuc, leb_ℤ, ◌&&◌, ℕ_discrete, ltb_ℤ, if◌then◌else◌, lookup, insert, string_discrete,
}
use idlegrid.Store.Tables.{
  Db, User, UsageEvent, UsageEntry, NodeBinding, developer_balance, provider_earnings,
  platform_revenue, usage_charge, provider_earning, platform_fee, request,
}
use idlegrid.Store.Tx.{
  Tx, Result, ok, err, constraint, usage_event_missing, ◌>>=◌, ◌>>◌, pure, raise, query, execute,
  statement, transact, commit, recover,
}
use idlegrid.Store.Ledger.{post_to}

-- The row of an event that is not settled.
abbrev pub unsettled : UsageEvent → UsageEntry
unsettled e = record {
  event = e;
  gross_micro = pos 0;
  provider_credit_micro = pos 0;
  platform_fee_micro = pos 0;
  settled = false;
  transferred = false;
}

-- A column of type INT holds 32 bits.
abbrev pub fits_int : ℤ → Bool
fits_int z = leb_ℤ (negsuc 2_147_483_647) z && leb_ℤ z (pos 2_147_483_647)

abbrev pub fits_or_null : Option ℤ → Bool
fits_or_null none = true
fits_or_null (some z) = fits_int z

abbrev pub counts_fit : UsageEvent → Bool
counts_fit e =
    fits_int e.est_input_tokens
    && fits_int e.est_output_tokens
    && fits_or_null e.provider_input
    && fits_or_null e.provider_output

-- user_id REFERENCES users(id), or NULL.
abbrev pub is_known : Option ℕ → List (ℕ × User) → Bool
is_known none users = true
is_known (some u) users = elim (lookup ℕ_discrete u users) [ none ↦ false | some _ ↦ true ]

abbrev pub insert_row : UsageEvent → Option UsageEntry → Db → Result (Unit {0} × Db)
insert_row e (some _) db = ok (tt, db)
insert_row e none db =
    if is_known e.user_id db.users
    then ok (tt, record db { usage = insert string_discrete e.request_id (unsettled e) db.usage })
    else err constraint

-- INSERT INTO usage_events … ON CONFLICT (request_id) DO NOTHING.
unfoldable pub insert_usage : UsageEvent → Db → Result (Unit {0} × Db)
insert_usage e db =
    if counts_fit e
    then insert_row e (lookup string_discrete e.request_id db.usage) db
    else err constraint

-- `RecordUsage`.
unfoldable pub record_usage : UsageEvent → Tx (Unit {0})
unfolding insert_usage statement
record_usage e = statement (insert_usage e)

-- UPDATE usage_events … WHERE request_id = ….
unfoldable pub update_usage : String → (UsageEntry → UsageEntry) → Db → Db
update_usage id f db = elim (lookup string_discrete id db.usage) [
  | none ↦ db
  | some u ↦ record db { usage = insert string_discrete id (f u) db.usage }
]

unfoldable pub owner_in_nodes : String → List (String × NodeBinding) → Option ℕ
owner_in_nodes node nodes = elim (lookup string_discrete node nodes) [
  | none ↦ none
  | some b ↦ b.user_id
]

-- `NodeOwner`: an error of the query counts as unassigned.
unfoldable pub node_owner : String → Tx (Option ℕ)
unfolding owner_in_nodes query recover
node_owner node = recover none (query λ db. owner_in_nodes node db.nodes)

-- `SettleParams`, as far as the settlement reads it.
pub record SettleParams : Type 0 where
  pub request_id : String
  pub user_id : Option ℕ
  pub node_id : String

pub record SettleResult : Type 0 where
  pub gross : ℤ
  pub provider_credit : ℤ
  pub platform_fee : ℤ
  pub already_settled : Bool

abbrev pub already : SettleResult
already = record {
  gross = pos 0;
  provider_credit = pos 0;
  platform_fee = pos 0;
  already_settled = true;
}

-- SELECT settled FROM usage_events, with an error where no row has the id.
unfoldable pub settled_row : String → Db → Result (Bool × Db)
settled_row id db = elim (lookup string_discrete id db.usage) [
  | none ↦ err (usage_event_missing id)
  | some u ↦ ok (u.settled, db)
]

unfoldable pub charge_developer : Option ℕ → ℤ → String → Tx (Unit {0})
unfolding post_to pure
charge_developer none gross id = pure tt
charge_developer (some user) gross id =
    if ltb_ℤ (pos 0) gross
    then post_to (some user) developer_balance usage_charge request id (pos 0 -ℤ gross)
    else pure tt

unfoldable pub owner_of : String → Tx (Option ℕ)
unfolding node_owner pure
owner_of node = ite (string_discrete node "") (pure none) (node_owner node)

abbrev pub is_some : Option ℕ → Bool
is_some none = false
is_some (some _) = true

abbrev pub transfer_flag : Bool → UsageEntry → UsageEntry
transfer_flag b u = record u { transferred = b }

unfoldable pub credit_provider : Option ℕ → ℤ → String → Tx (Unit {0})
unfolding post_to pure update_usage ◌>>=◌ execute
credit_provider owner credit id =
    if ltb_ℤ (pos 0) credit
    then (do
      post_to owner provider_earnings provider_earning request id credit
      execute (update_usage id (transfer_flag (is_some owner))))
    else pure tt

unfoldable pub collect_fee : ℤ → String → Tx (Unit {0})
unfolding post_to pure
collect_fee fee id =
    if ltb_ℤ (pos 0) fee then post_to none platform_revenue platform_fee request id fee else pure tt

abbrev pub settle_entry : ℤ → ℤ → ℤ → UsageEntry → UsageEntry
settle_entry gross credit fee u = record u {
  gross_micro = gross;
  provider_credit_micro = credit;
  platform_fee_micro = fee;
  settled = true;
}

unfoldable pub settle_open : SettleParams → ℤ → ℤ → ℤ → Tx SettleResult
unfolding charge_developer owner_of credit_provider collect_fee update_usage execute pure ◌>>=◌
settle_open prm gross credit fee = do
  charge_developer prm.user_id gross prm.request_id
  owner ← owner_of prm.node_id
  credit_provider owner credit prm.request_id
  collect_fee fee prm.request_id
  execute (update_usage prm.request_id (settle_entry gross credit fee))
  commit
  pure (record {
    gross = gross;
    provider_credit = credit;
    platform_fee = fee;
    already_settled = false;
  })

-- `SettleRequest`.
unfoldable pub settle_request : SettleParams → ℤ → ℤ → ℤ → Tx SettleResult
unfolding settled_row settle_open statement transact pure ◌>>=◌
settle_request prm gross credit fee = transact do
  done ← statement (settled_row prm.request_id)
  if done then pure already else settle_open prm gross credit fee
