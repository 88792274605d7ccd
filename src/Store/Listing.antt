-- ===== src/Store/Listing.antt =====
-- The SELECTs that fill the lists of the API: `UsageRows`, `ListPayouts` and `ListProviderNodes` of
-- coordinator/store/postgres.go; `ListModelPrices`, `GetUserByEmail`, `ListAPIKeys` and `ListUsers` of
-- coordinator/store/billing.go. A table whose rows have no id here holds them in the order of their ids. The columns
-- created_at are left out.
pub mod Owned
use idlegrid.Prelude.{
  ℕ, zero, suc, ltb, leb, ◌==◌, Bool, true, false, not, ◌&&◌, ◌||◌, Option, none, some, List, [],
  ◌∷◌, ◌++◌, String, ite, ℤ, pos, ltb_ℤ, leb_ℤ, if◌then◌else◌, lookup, ℕ_discrete, string_discrete,
}
use idlegrid.Store.Tables.{Db, User, ApiKey, NodeBinding, UsageEntry, Payout}
use idlegrid.Store.Tx.{Tx, Result, ok, err, not_found, query, statement}
use idlegrid.Store.Ledger.{user_by_email}

abbrev pub text_or_empty : Option String → String
text_or_empty none = ""
text_or_empty (some s) = s

-- `$1::bigint IS NULL OR user_id = $1`, for a column that may be NULL itself.
abbrev pub is_selected : Option ℕ → Option ℕ → Bool
is_selected none owner = true
is_selected (some user) none = false
is_selected (some user) (some owner) = owner == user

-- A list backwards, LIMIT and ORDER BY … DESC on a key.
unfoldable pub reversed {ℓ} : {A : Type ℓ} → List A → List A
reversed [] = []
reversed (x ∷ xs) = reversed xs ++ (x ∷ [])

unfoldable pub limit {ℓ} : {A : Type ℓ} → ℕ → List A → List A
limit zero xs = []
limit (suc n) [] = []
limit (suc n) (x ∷ xs) = x ∷ limit n xs

-- ORDER BY: `before a b` says that a comes before b.
module _ {ℓ} {A : Type ℓ} (before : A → A → Bool) where
  unfoldable pub place : A → List A → List A
  place x [] = x ∷ []
  place x (y ∷ ys) = if before y x then y ∷ place x ys else x ∷ y ∷ ys

  unfoldable pub order_by : List A → List A
  unfolding place
  order_by [] = []
  order_by (x ∷ xs) = place x (order_by xs)

-- `UsageRow`.
pub record UsageRow : Type 0 where
  pub request_id : String
  pub user_id : Option ℕ
  pub node_id : String
  pub model : String
  pub est_input : ℤ
  pub est_output : ℤ
  pub provider_input : Option ℤ
  pub provider_output : Option ℤ
  pub within_tolerance : Bool
  pub gross : ℤ
  pub provider_credit : ℤ
  pub platform_fee : ℤ
  pub settled : Bool
  pub status : String

abbrev pub usage_row : UsageEntry → UsageRow
usage_row u = record {
  request_id = u.event.request_id;
  user_id = u.event.user_id;
  node_id = u.event.node_id;
  model = u.event.model;
  est_input = u.event.est_input_tokens;
  est_output = u.event.est_output_tokens;
  provider_input = u.event.provider_input;
  provider_output = u.event.provider_output;
  within_tolerance = u.event.within_tolerance;
  gross = u.gross_micro;
  provider_credit = u.provider_credit_micro;
  platform_fee = u.platform_fee_micro;
  settled = u.settled;
  status = u.event.status;
}

unfoldable pub select_usage : Option ℕ → List (String × UsageEntry) → List UsageRow
select_usage user [] = []
select_usage user ((id, u) ∷ rows) =
    if is_selected user u.event.user_id
    then usage_row u ∷ select_usage user rows
    else select_usage user rows

-- The limit that is applied: 50 for one out of range.
abbrev pub usage_limit : ℤ → ℕ
usage_limit (pos n) = if n == 0 || ltb 500 n then 50 else n
usage_limit _ = 50

-- `UsageRows`.
unfoldable pub usage_rows : Option ℕ → ℤ → Tx (List UsageRow)
unfolding select_usage reversed limit query
usage_rows user n = query λ db. limit (usage_limit n) (reversed (select_usage user db.usage))

-- `PayoutRow`.
pub record PayoutRow : Type 0 where
  pub id : ℕ
  pub user_id : ℕ
  pub amount_micro : ℤ
  pub status : String
  pub rail : String
  pub rail_ref : String
  pub paid_at : Option ℕ

abbrev pub payout_row_of : ℕ → Payout → PayoutRow
payout_row_of id q = record {
  id = id;
  user_id = q.user_id;
  amount_micro = q.amount_micro;
  status = q.status;
  rail = q.rail;
  rail_ref = text_or_empty q.rail_ref;
  paid_at = q.paid_at;
}

unfoldable pub select_payouts : Option ℕ → List (ℕ × Payout) → List PayoutRow
select_payouts user [] = []
select_payouts user ((id, q) ∷ rows) =
    if is_selected user (some q.user_id)
    then payout_row_of id q ∷ select_payouts user rows
    else select_payouts user rows

-- `ListPayouts`.
unfoldable pub list_payouts : Option ℕ → Tx (List PayoutRow)
unfolding select_payouts order_by limit query
list_payouts user =
    query λ db. limit 200 (order_by (λ a b. ltb b.id a.id) (select_payouts user db.payouts))

-- `ProviderNodeRow`.
pub record ProviderNodeRow : Type 0 where
  pub node_id : String
  pub enrolled_at : Option ℕ
  pub last_seen : Option ℕ
  pub error_count : ℕ
  pub token_backed : Bool

abbrev is_backed : Option String → Bool
is_backed none = false
is_backed (some t) = ite (string_discrete t "") false true

abbrev pub node_row : String → NodeBinding → ProviderNodeRow
node_row id b = record {
  node_id = id;
  enrolled_at = b.enrolled_at;
  last_seen = b.last_seen;
  error_count = b.error_count;
  token_backed = is_backed b.bound_with_token;
}

unfoldable pub select_nodes : ℕ → List (String × NodeBinding) → List ProviderNodeRow
select_nodes user [] = []
select_nodes user ((id, b) ∷ rows) = elim b.user_id [
  | none ↦ select_nodes user rows
  | some owner ↦
      if owner == user then node_row id b ∷ select_nodes user rows else select_nodes user rows
]

-- A node of a user is enrolled, so its time is never NULL.
abbrev enrolled_time : Option ℕ → ℕ
enrolled_time none = 0
enrolled_time (some t) = t

-- `ListProviderNodes`.
unfoldable pub list_provider_nodes : ℕ → Tx (List ProviderNodeRow)
unfolding select_nodes order_by query
list_provider_nodes user = query λ db.
    order_by (λ a b. ltb (enrolled_time b.enrolled_at) (enrolled_time a.enrolled_at))
      (select_nodes user db.nodes)

-- `KeyRow`.
pub record KeyRow : Type 0 where
  pub id : ℕ
  pub label : String
  pub revoked : Bool

unfoldable pub select_keys : ℕ → List (String × ApiKey) → List KeyRow
select_keys user [] = []
select_keys user ((hash, k) ∷ rows) =
    if k.user_id == user
    then record { id = k.id; label = k.label; revoked = k.revoked } ∷ select_keys user rows
    else select_keys user rows

-- `ListAPIKeys`.
unfoldable pub list_api_keys : ℕ → Tx (List KeyRow)
unfolding select_keys order_by query
list_api_keys user = query λ db. order_by (λ a b. ltb b.id a.id) (select_keys user db.api_keys)

-- `UserRow`.
pub record UserRow : Type 0 where
  pub id : ℕ
  pub email : String
  pub role : String

unfoldable pub select_users : List (ℕ × User) → List UserRow
select_users [] = []
select_users ((id, u) ∷ us) = record { id = id; email = u.email; role = u.role } ∷ select_users us

-- `ListUsers`, in the order of the ids.
unfoldable pub list_users : Tx (List UserRow)
unfolding select_users order_by query
list_users = query λ db. order_by (λ a b. ltb a.id b.id) (select_users db.users)

-- `ListModelPrices`, in the order of the names that the database's collation gives.
unfoldable pub list_model_prices : (String → String → Bool) → Tx (List (String × (ℤ × ℤ)))
unfolding order_by query
list_model_prices collation = query λ db. order_by (λ a b. collation a.0 b.0) db.prices

abbrev pub credentials_of : ℕ → Option User → Db → Result ((ℕ × (String × String)) × Db)
credentials_of id none db = err not_found
credentials_of id (some u) db = ok ((id, (u.role, text_or_empty u.password_hash)), db)

-- SELECT id, role, COALESCE(password_hash, '') FROM users WHERE email = …, an error where there is none.
unfoldable pub credentials : String → Db → Result ((ℕ × (String × String)) × Db)
unfolding user_by_email
credentials email db = elim (user_by_email email db.users) [
  | none ↦ err not_found
  | some id ↦ credentials_of id (lookup ℕ_discrete id db.users) db
]

-- `GetUserByEmail`.
unfoldable pub get_user_by_email : String → Tx (ℕ × (String × String))
unfolding credentials statement
get_user_by_email email = statement (credentials email)
