-- ===== src/Gateway/Api.antt =====
-- The other handlers of coordinator/internal/server/gateway.go. `withAuth` gives the caller: an environment key is an
-- admin with no user id, a key of the store is a user.

use idlegrid.Prelude.{
  ℕ, Bool, true, false, not, ◌||◌, Option, none, some, List, [], String, ℤ, pos, if◌then◌else◌,
}
use idlegrid.Money.{default_input_micro_per_1m, default_output_micro_per_1m}
use idlegrid.Registry.{Registry, Node, online_models, snapshot}
use idlegrid.Limit.{Caller, admin, user}
use idlegrid.Store.Tables.{developer_balance, provider_earnings, platform_revenue}
use idlegrid.Store.Tx.{Tx, Result, ok, err, ◌>>=◌, pure}
use idlegrid.Store.Tx.Quiet.{attempt}
use idlegrid.Store.Ledger.{account_balance}
use idlegrid.Store.Accounts.{ensure_user, create_api_key, upsert_model_price}
use idlegrid.Store.Listing.{UsageRow, usage_rows, list_model_prices}
use idlegrid.Gateway.Admit.{Config}
use idlegrid.Http.{Reply, answers, refuses, Library, or_fail}
use idlegrid.Console.Admin.{has_at, PriceBody, is_price}

abbrev pub is_admin_caller : Caller → Bool
is_admin_caller admin = true
is_admin_caller _ = false

-- `userIDFrom`.
abbrev pub user_id_from : Caller → Option ℕ
user_id_from (user id) = some id
user_id_from _ = none

-- `handleModels`: the ids.
unfoldable pub handle_models : ℕ → Registry → Reply (List String)
handle_models now r = answers (online_models now r)

-- `handleDebugProviders`.
unfoldable pub handle_debug_providers : Registry → Reply (List Node)
handle_debug_providers r = answers (snapshot r)

abbrev with_key : Library → String → String → String → ℕ → Tx (Reply (ℕ × (String × String)))
with_key lib raw email label uid =
    or_fail (create_api_key uid (lib.hash_key raw) label) λ _. pure (answers (uid, (email, raw)))

abbrev new_developer :
    Library → String → Option (String × String) → Tx (Reply (ℕ × (String × String)))
new_developer lib raw none = pure (refuses 400 "body must be {\"email\":\"...\",\"label\":\"...\"}")
new_developer lib raw (some (email, label)) =
    if has_at email
    then or_fail (ensure_user email "developer") (with_key lib raw email label)
    else pure (refuses 400 "body must be {\"email\":\"...\",\"label\":\"...\"}")

-- `handleCreateUser`, of the email and label of the body: the user's id, the email and the new key, `raw`.
unfoldable pub handle_create_user :
    Library
    → Config
    → String
    → Caller
    → Option (String × String)
    → Tx (Reply (ℕ × (String × String)))
unfolding ensure_user create_api_key or_fail pure
handle_create_user lib g raw caller body =
    if is_admin_caller caller
    then if g.billing
      then new_developer lib raw body
      else pure (refuses 503 "billing store unavailable (set DATABASE_URL)")
    else pure (refuses 403 "admin key required")

abbrev pub Prices : Type 0
Prices = (ℤ × ℤ) × List (String × (ℤ × ℤ))

abbrev priced : Result (List (String × (ℤ × ℤ))) → Reply Prices
priced (ok rows) = answers ((default_input_micro_per_1m, default_output_micro_per_1m), rows)
priced (err e) = answers ((default_input_micro_per_1m, default_output_micro_per_1m), [])

-- `handlePricing`: the defaults and the overrides, none where they cannot be read.
unfoldable pub handle_pricing : (String → String → Bool) → Config → Tx (Reply Prices)
unfolding list_model_prices attempt pure ◌>>=◌
handle_pricing collation g =
    if g.billing
    then (attempt (list_model_prices collation) >>= λ rows. pure (priced rows))
    else pure (priced (ok []))

abbrev set_price : Option PriceBody → Tx (Reply String)
set_price none = pure (
    refuses 400
      "body must be {\"model\":\"...\",\"input_micro_per_1m\":N,\"output_micro_per_1m\":N}")
set_price (some b) =
    if is_price b
    then (or_fail (upsert_model_price b.model b.in_micro b.out_micro) λ _. pure (answers b.model))
    else pure (
        refuses 400
          "body must be {\"model\":\"...\",\"input_micro_per_1m\":N,\"output_micro_per_1m\":N}")

-- `handleSetPrice`: the model.
unfoldable pub handle_set_price : Config → Caller → Option PriceBody → Tx (Reply String)
unfolding upsert_model_price or_fail pure
handle_set_price g caller body =
    if is_admin_caller caller
    then if g.billing then set_price body else pure (refuses 503 "billing store unavailable")
    else pure (refuses 403 "admin key required")

-- `handleUsage`; `all` says whether the query has all=1.
unfoldable pub handle_usage : Config → Caller → Bool → Tx (Reply (List UsageRow))
unfolding usage_rows or_fail pure
handle_usage g caller all =
    if g.billing
    then (or_fail
        (usage_rows (if not (is_admin_caller caller) || not all then user_id_from caller else none)
          (pos 100))
        λ rows. pure (answers rows))
    else pure (refuses 503 "billing store unavailable")

pub data BalanceReply : Type 0 where
  platform : ℤ → ℤ → BalanceReply
  developer : ℤ → BalanceReply

-- `escrow, _ := …`: 0 where it cannot be read.
abbrev or_zero : Result ℤ → ℤ
or_zero (ok z) = z
or_zero (err e) = pos 0

abbrev platform_balance : Tx (Reply BalanceReply)
platform_balance = attempt (account_balance none provider_earnings) >>= λ escrow.
    attempt (account_balance none platform_revenue) >>= λ rev.
    pure (answers (BalanceReply.platform (or_zero escrow) (or_zero rev)))

-- `handleBalance`.
unfoldable pub handle_balance : Config → Caller → Tx (Reply BalanceReply)
unfolding account_balance attempt or_fail pure ◌>>=◌
handle_balance g caller =
    if g.billing
    then if is_admin_caller caller
      then platform_balance
      else (or_fail (account_balance (user_id_from caller) developer_balance)
          λ bal. pure (answers (BalanceReply.developer bal)))
    else pure (refuses 503 "billing store unavailable")
