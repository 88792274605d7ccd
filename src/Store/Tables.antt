-- ===== src/Store/Tables.antt =====
-- The tables of coordinator/store/migrations, as they stand after the last migration, with the
-- unique columns as keys. Surrogate ids that only join tables are replaced by the unique columns of
-- their row: an account is its owner and kind.
use idlegrid.Prelude.{ℕ, ℤ, Bool, Option, List, String, ℕ_discrete, string_discrete}

-- users (0001, 0003, 0004), by id.
pub record User : Type 0 where
  pub email : String
  pub role : String
  pub password_hash : Option String
  pub enrollment_code : Option String

-- api_keys, by key_hash.
pub record ApiKey : Type 0 where
  pub id : ℕ
  pub user_id : ℕ
  pub label : String
  pub revoked : Bool

-- provider_nodes (0001, 0006), by node_id.
pub record NodeBinding : Type 0 where
  pub user_id : Option ℕ
  pub enrolled_at : Option ℕ
  pub last_seen : Option ℕ
  pub error_count : ℕ
  pub bound_with_token : Option String

-- `UsageEvent`; a nil user is admin traffic.
pub record UsageEvent : Type 0 where
  pub request_id : String
  pub user_id : Option ℕ
  pub node_id : String
  pub model : String
  pub est_input_tokens : ℤ
  pub est_output_tokens : ℤ
  pub provider_input : Option ℤ
  pub provider_output : Option ℤ
  pub within_tolerance : Bool
  pub status : String

-- usage_events (0001, 0002, 0004), by request_id.
pub record UsageEntry : Type 0 where
  pub event : UsageEvent
  pub gross_micro : ℤ
  pub provider_credit_micro : ℤ
  pub platform_fee_micro : ℤ
  pub settled : Bool
  pub transferred : Bool

pub data Kind : Type 0 where
  developer_balance provider_earnings platform_revenue : Kind

unfoldable pub Kind-discrete : Discrete Kind
Kind-discrete = hlevel

pub record Account : Type 0 where
  pub owner : ℕ
  pub kind : Kind

unfoldable pub Account-discrete : Discrete Account
unfolding Kind-discrete
Account-discrete = hlevel ℕ_discrete

pub data EntryType : Type 0 where
  deposit usage_charge provider_earning platform_fee payout enrollment_sweep : EntryType

unfoldable pub EntryType-discrete : Discrete EntryType
EntryType-discrete = hlevel

pub data RefType : Type 0 where
  request payment payout node : RefType

unfoldable pub RefType-discrete : Discrete RefType
RefType-discrete = hlevel

-- UNIQUE (account_id, entry_type, ref_type, ref_id) of ledger_entries.
pub record EntryKey : Type 0 where
  pub account : Account
  pub entry_type : EntryType
  pub ref_type : RefType
  pub ref_id : String

unfoldable pub EntryKey-discrete : Discrete EntryKey
EntryKey-discrete = hlevel (ℕ_discrete, string_discrete)

-- payouts, by id: requested, approved or paid.
pub record Payout : Type 0 where
  pub user_id : ℕ
  pub amount_micro : ℤ
  pub status : String
  pub rail : String
  pub rail_ref : Option String
  pub paid_at : Option ℕ

-- dodo_payments, by dodo_payment_id.
pub record Payment : Type 0 where
  pub user_id : ℕ
  pub amount_micro : ℤ

-- device_codes (0005), by device_code_hash.
pub record DeviceCode : Type 0 where
  pub user_code : String
  pub user_id : Option ℕ
  pub expires_at : ℕ
  pub approved_at : Option ℕ
  pub consumed_at : Option ℕ

-- provider_tokens (0005), by token_hash.
pub record ProviderToken : Type 0 where
  pub user_id : ℕ
  pub revoked : Bool

-- sessions (0003), by token_hash.
pub record Session : Type 0 where
  pub user_id : ℕ
  pub expires_at : ℕ

-- The `next_` fields are the identity sequences.
pub record Db : Type 0 where
  pub users : List (ℕ × User)
  pub next_user : ℕ
  pub api_keys : List (String × ApiKey)
  pub next_key : ℕ
  pub nodes : List (String × NodeBinding)
  pub usage : List (String × UsageEntry)
  pub accounts : List Account
  pub ledger : List (EntryKey × ℤ)
  pub prices : List (String × (ℤ × ℤ))
  pub payouts : List (ℕ × Payout)
  pub next_payout : ℕ
  pub payments : List (String × Payment)
  pub device_codes : List (String × DeviceCode)
  pub tokens : List (String × ProviderToken)
  pub sessions : List (String × Session)
