-- ===== src/Store/Device.antt =====
-- Device authorization and provider tokens of coordinator/store/postgres.go: `CreateDeviceCode`,
-- `ApproveDeviceCode`, `RedeemDeviceCode`, `ResolveProviderToken`, `RevokeNode`. The clock is an argument.
pub mod Login
use idlegrid.Prelude.{
  ℕ, ltb, ◌==◌, Bool, true, false, not, ◌&&◌, Option, none, some, List, [], ◌∷◌, String, ite, ◌+◌,
  if◌then◌else◌, lookup, insert, erase, ℕ_discrete, string_discrete,
}
use idlegrid.Store.Tables.{Db, User, DeviceCode, ProviderToken, NodeBinding}
use idlegrid.Store.Tx.{
  Tx, Result, ok, err, constraint, ◌>>=◌, ◌>>◌, pure, query, execute, statement, transact, commit,
  recover,
}

unfoldable pub uses_code : String → List (String × DeviceCode) → Bool
uses_code code [] = false
uses_code code (e ∷ es) = ite (string_discrete e.1.user_code code) true (uses_code code es)

abbrev pub pending_code : String → ℕ → DeviceCode
pending_code code expires = record {
  user_code = code;
  user_id = none;
  expires_at = expires;
  approved_at = none;
  consumed_at = none;
}

-- INSERT INTO device_codes: the hash is the primary key, the user code unique.
unfoldable pub insert_device_code : String → String → ℕ → Db → Result (Unit {0} × Db)
unfolding uses_code
insert_device_code hash code expires db = elim (lookup string_discrete hash db.device_codes) [
  | some _ ↦ err constraint
  | none ↦
      if uses_code code db.device_codes
      then err constraint
      else ok (tt, record db { device_codes = (hash, pending_code code expires) ∷ db.device_codes })
]

-- `CreateDeviceCode`.
unfoldable pub create_device_code : String → String → ℕ → Tx (Unit {0})
unfolding insert_device_code statement
create_device_code hash code expires = statement (insert_device_code hash code expires)

abbrev is_none : Option ℕ → Bool
is_none none = true
is_none (some _) = false

-- WHERE user_code=$1 AND approved_at IS NULL AND expires_at > now().
unfoldable pub approvable : ℕ → String → DeviceCode → Bool
approvable now code d =
    ite (string_discrete d.user_code code) true false
    && (is_none d.approved_at && ltb now d.expires_at)

unfoldable pub approve_rows :
    ℕ → String → ℕ → List (String × DeviceCode) → List (String × DeviceCode)
unfolding approvable
approve_rows now code user [] = []
approve_rows now code user ((h, d) ∷ rows) =
    (
      h,
      if approvable now code d then record d { user_id = some user; approved_at = some now } else d,
    )
    ∷ approve_rows now code user rows

unfoldable pub approved_count : ℕ → String → List (String × DeviceCode) → ℕ
unfolding approvable
approved_count now code [] = 0
approved_count now code ((h, d) ∷ rows) =
    (if approvable now code d then 1 else 0) + approved_count now code rows

-- The UPDATE and its RowsAffected; the foreign key refuses an unknown user where a row is to change.
unfoldable pub update_approved : ℕ → String → ℕ → Db → Result (ℕ × Db)
unfolding approve_rows approved_count
update_approved now code user db =
    if approved_count now code db.device_codes == 0
    then ok (0, db)
    else elim (lookup ℕ_discrete user db.users) [
      | none ↦ err constraint
      | some _ ↦ ok (
        approved_count now code db.device_codes,
        record db { device_codes = approve_rows now code user db.device_codes },
      )
    ]

-- `ApproveDeviceCode`.
unfoldable pub approve_device_code : ℕ → String → ℕ → Tx Bool
unfolding update_approved statement pure ◌>>=◌
approve_device_code now code user = do
  rows_affected ← statement (update_approved now code user)
  pure (rows_affected == 1)

-- INSERT INTO provider_tokens: the hash is the primary key, the user a foreign key.
unfoldable pub insert_token : String → ℕ → Db → Result (Unit {0} × Db)
insert_token hash user db = elim (lookup string_discrete hash db.tokens) [
  | some _ ↦ err constraint
  | none ↦ elim (lookup ℕ_discrete user db.users) [
    | none ↦ err constraint
    | some _ ↦
        ok (
          tt,
          record db { tokens = (hash, record { user_id = user; revoked = false }) ∷ db.tokens },
        )
  ]
]

abbrev pub consumed : ℕ → DeviceCode → DeviceCode
consumed now c = record c { consumed_at = some now }

unfoldable pub consume_code : ℕ → String → DeviceCode → Db → Db
consume_code now hash c db = record db {
  device_codes = insert string_discrete hash (consumed now c) db.device_codes;
}

-- The end of `RedeemDeviceCode`, by the user of the row.
unfoldable pub issue_token : ℕ → String → String → DeviceCode → Option ℕ → Tx (ℕ × String)
unfolding consume_code insert_token execute statement pure ◌>>=◌
issue_token now hash token c none = pure (0, "pending")
issue_token now hash token c (some user) = do
  execute (consume_code now hash c)
  statement (insert_token token user)
  commit
  pure (user, "ok")

abbrev pub redeem_fresh : ℕ → String → String → DeviceCode → Option ℕ → Tx (ℕ × String)
redeem_fresh now hash token c (some _) = pure (0, "invalid")
redeem_fresh now hash token c none =
    if ltb c.expires_at now then pure (0, "expired") else issue_token now hash token c c.user_id

abbrev pub redeem_row : ℕ → String → String → Option DeviceCode → Tx (ℕ × String)
redeem_row now hash token none = pure (0, "invalid")
redeem_row now hash token (some c) = redeem_fresh now hash token c c.consumed_at

-- `RedeemDeviceCode`: an error of the SELECT counts as an unknown code.
unfoldable pub redeem_device_code : ℕ → String → String → Tx (ℕ × String)
unfolding issue_token query recover pure transact ◌>>=◌
redeem_device_code now hash token = transact do
  row ← recover none (query λ db. lookup string_discrete hash db.device_codes)
  redeem_row now hash token row

abbrev pub user_of_token : Db → ProviderToken → (ℕ × String) × Bool
user_of_token db t = elim (lookup ℕ_discrete t.user_id db.users) [
  | none ↦ ((0, ""), false)
  | some u ↦ ((t.user_id, u.email), true)
]

unfoldable pub token_user : String → Db → (ℕ × String) × Bool
token_user hash db = elim (lookup string_discrete hash db.tokens) [
  | none ↦ ((0, ""), false)
  | some t ↦ if t.revoked then ((0, ""), false) else user_of_token db t
]

-- `ResolveProviderToken`: an error counts as an unknown token.
unfoldable pub resolve_provider_token : String → Tx ((ℕ × String) × Bool)
unfolding token_user query recover
resolve_provider_token hash = recover ((0, ""), false) (query (token_user hash))

-- DELETE FROM provider_nodes WHERE node_id=$1 AND user_id=$2 RETURNING bound_with_token.
unfoldable pub bound_to : ℕ → String → Db → Option (Option String)
bound_to user node_id db = elim (lookup string_discrete node_id db.nodes) [
  | none ↦ none
  | some b ↦ elim b.user_id [
    | none ↦ none
    | some u ↦ ite (ℕ_discrete u user) (some b.bound_with_token) none
  ]
]

unfoldable pub delete_binding : ℕ → String → Db → Result (Option (Option String) × Db)
unfolding bound_to
delete_binding user node_id db = elim (bound_to user node_id db) [
  | none ↦ ok (none, db)
  | some t ↦ ok (some t, record db { nodes = erase string_discrete node_id db.nodes })
]

unfoldable pub revoke_token : String → Db → Db
revoke_token hash db = elim (lookup string_discrete hash db.tokens) [
  | none ↦ db
  | some t ↦ record db {
    tokens = insert string_discrete hash (record t { revoked = true }) db.tokens;
  }
]

unfoldable pub revoke_bound : Option String → Tx (Unit {0})
unfolding revoke_token execute pure
revoke_bound none = pure tt
revoke_bound (some t) = ite (string_discrete t "") (pure tt) (execute (revoke_token t))

abbrev revoke_found : Option (Option String) → Tx Bool
revoke_found none = pure false
revoke_found (some t) = do revoke_bound t; commit; pure true

-- `RevokeNode`: an error of the DELETE counts as no binding.
unfoldable pub revoke_node : ℕ → String → Tx Bool
unfolding delete_binding revoke_bound statement recover pure transact ◌>>=◌
revoke_node user node_id =
    transact do found ← recover none (statement (delete_binding user node_id)); revoke_found found
