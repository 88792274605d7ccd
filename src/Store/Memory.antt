-- ===== src/Store/Memory.antt =====
-- `MemoryBilling` of coordinator/store/billing.go, the store without a database. The balance key "id:kind" or
-- "platform:kind" is the pair of its parts.
pub mod Settled
use idlegrid.Prelude.{
  ℕ, ◌+◌, ◌≡◌, Bool, true, false, Option, none, some, List, [], ◌∷◌, String, ite, ℤ, pos, ◌+ℤ◌,
  ◌-ℤ◌, ltb_ℤ, wrap64, if◌then◌else◌, lookup, insert, length, ℕ_discrete, string_discrete,
}
use idlegrid.Registry.{contains}
use idlegrid.Store.Tables.{
  UsageEvent, Kind, Kind-discrete, developer_balance, provider_earnings, platform_revenue,
}
use idlegrid.Store.Tx.{Result, ok, err, not_found}
use idlegrid.Store.Settle.{SettleParams, SettleResult, already}

pub data Owner : Type 0 where
  platform : Owner
  user : ℕ → Owner

unfoldable pub Owner-discrete : Discrete Owner
Owner-discrete = hlevel ℕ_discrete

pub record BalanceKey : Type 0 where
  pub owner : Owner
  pub kind : Kind

unfoldable pub BalanceKey-discrete : Discrete BalanceKey
unfolding Owner-discrete Kind-discrete
BalanceKey-discrete = hlevel ℕ_discrete

-- `memUser`.
pub record MemUser : Type 0 where
  pub email : String
  pub role : String

-- `APIKeyAuth`.
pub record ApiKeyAuth : Type 0 where
  pub user_id : ℕ
  pub email : String
  pub role : String

pub record MemoryBilling : Type 0 where
  pub next_id : ℕ
  pub users : List (ℕ × MemUser)
  pub by_email : List (String × ℕ)
  pub keys : List (String × ApiKeyAuth)
  pub usage : List (String × UsageEvent)
  pub prices : List (String × (ℤ × ℤ))
  pub settled : List String
  pub balances : List (BalanceKey × ℤ)

-- `NewMemoryBilling`.
abbrev pub new_memory_billing : MemoryBilling
new_memory_billing = record {
  next_id = 1;
  users = [];
  by_email = [];
  keys = [];
  usage = [];
  prices = [];
  settled = [];
  balances = [];
}

-- `EnsureUser`: a user who exists keeps the role.
unfoldable pub ensure_user : String → String → MemoryBilling → ℕ × MemoryBilling
ensure_user email role m = elim (lookup string_discrete email m.by_email) [
  | some id ↦ (id, m)
  | none ↦ (
    m.next_id,
    record m {
      next_id = m.next_id + 1;
      users = insert ℕ_discrete m.next_id (record { email = email; role = role }) m.users;
      by_email = insert string_discrete email m.next_id m.by_email;
    },
  )
]

-- `CreateAPIKey`.
unfoldable pub create_api_key : ℕ → String → MemoryBilling → Result MemoryBilling
create_api_key user_id key_hash m = elim (lookup ℕ_discrete user_id m.users) [
  | none ↦ err not_found
  | some u ↦ ok (record m {
    keys =
        insert string_discrete key_hash
          (record { user_id = user_id; email = u.email; role = u.role }) m.keys;
  })
]

-- `ResolveAPIKey`.
unfoldable pub resolve_api_key : String → MemoryBilling → Option ApiKeyAuth
resolve_api_key key_hash m = lookup string_discrete key_hash m.keys

-- `RecordUsage`.
unfoldable pub record_usage : UsageEvent → MemoryBilling → MemoryBilling
record_usage e m = elim (lookup string_discrete e.request_id m.usage) [
  | some _ ↦ m
  | none ↦ record m { usage = insert string_discrete e.request_id e m.usage }
]

-- `UsageCount`.
abbrev pub usage_count : MemoryBilling → ℕ
usage_count m = length m.usage

-- `GetModelPrice`.
unfoldable pub get_model_price : String → MemoryBilling → Result (ℤ × ℤ)
get_model_price model m = elim (lookup string_discrete model m.prices) [
  | none ↦ err not_found
  | some p ↦ ok p
]

-- `UpsertModelPrice`.
unfoldable pub upsert_model_price : String → ℤ → ℤ → MemoryBilling → MemoryBilling
upsert_model_price model in_micro out_micro m = record m {
  prices = insert string_discrete model (in_micro, out_micro) m.prices;
}

abbrev or_zero : Option ℤ → ℤ
or_zero none = pos 0
or_zero (some z) = z

-- `m.balances[key] += amount`, where the amount is positive.
unfoldable pub add_balance : BalanceKey → ℤ → MemoryBilling → MemoryBilling
unfolding BalanceKey-discrete
add_balance key amount m = record m {
  balances =
      insert BalanceKey-discrete key
        (wrap64 (or_zero (lookup BalanceKey-discrete key m.balances) +ℤ amount)) m.balances;
}

abbrev charge : Option ℕ → ℤ → MemoryBilling → MemoryBilling
charge none gross m = m
charge (some u) gross m =
    if ltb_ℤ (pos 0) gross
    then add_balance (record { owner = user u; kind = developer_balance }) (pos 0 -ℤ gross) m
    else m

abbrev credit_platform : Kind → ℤ → MemoryBilling → MemoryBilling
credit_platform kind amount m =
    if ltb_ℤ (pos 0) amount
    then add_balance (record { owner = platform; kind = kind }) amount m
    else m

-- `SettleRequest`: every provider's credit goes to the platform's escrow.
unfoldable pub settle_request :
    SettleParams → ℤ → ℤ → ℤ → MemoryBilling → SettleResult × MemoryBilling
unfolding add_balance
settle_request prm gross credit fee m =
    if contains prm.request_id m.settled then (already, m) else (
      record {
        gross = gross;
        provider_credit = credit;
        platform_fee = fee;
        already_settled = false;
      },
      credit_platform platform_revenue fee (
          credit_platform provider_earnings credit
            (charge prm.user_id gross (record m { settled = prm.request_id ∷ m.settled }))),
    )

abbrev is_counted : Option ℕ → Kind → BalanceKey → Bool
is_counted none kind k =
    ite (BalanceKey-discrete k (record { owner = platform; kind = kind })) true false
is_counted (some u) kind k =
    ite (BalanceKey-discrete k (record { owner = user u; kind = kind })) true false

-- `AccountBalance`: a nil user is the platform's account alone.
unfoldable pub sum_balances : Option ℕ → Kind → List (BalanceKey × ℤ) → ℤ
unfolding BalanceKey-discrete
sum_balances u kind [] = pos 0
sum_balances u kind ((k, z) ∷ bs) =
    if is_counted u kind k then wrap64 (z +ℤ sum_balances u kind bs) else sum_balances u kind bs

abbrev pub account_balance : Option ℕ → Kind → MemoryBilling → ℤ
account_balance u kind m = sum_balances u kind m.balances

-- `SettledCount`.
abbrev pub settled_count : MemoryBilling → ℕ
settled_count m = length m.settled
