-- ===== src/Console/Admin.antt =====
-- The admin handlers of coordinator/internal/server/console.go: users, prices and payouts.
use Prim.Native.String.{len}
use text.Mathlib.Text.{find?}
use idlegrid.Prelude.{
  ℕ, ltb, ◌==◌, Bool, true, false, not, ◌&&◌, ◌||◌, Option, none, some, List, [], ◌∷◌, String, ite,
  ℤ, pos, leb_ℤ, if◌then◌else◌, string_discrete,
}
use idlegrid.Money.{default_input_micro_per_1m, default_output_micro_per_1m}
use idlegrid.Store.Tables.{developer_balance}
use idlegrid.Store.Tx.{Tx, Result, ok, err, ◌>>=◌, pure}
use idlegrid.Store.Tx.Quiet.{attempt}
use idlegrid.Store.Ledger.{account_balance}
use idlegrid.Store.Accounts.{ensure_user, set_password_hash, upsert_model_price}
use idlegrid.Store.Payout.{mark_payout, settle_payout}
use idlegrid.Store.Listing.{UserRow, PayoutRow, list_users, list_payouts, list_model_prices}
use idlegrid.Gateway.Admit.{Config}
use idlegrid.Http.{Method, get, post, put, Reply, answers, refuses, Library, or_fail, console_store}
use idlegrid.Console.Session.{is_empty}

-- A listed user with the developer balance, 0 where it cannot be read.
abbrev pub Listed : Type 0
Listed = UserRow × ℤ

abbrev or_zero : Result ℤ → ℤ
or_zero (ok z) = z
or_zero (err e) = pos 0

unfoldable pub with_balances : List UserRow → Tx (List Listed)
unfolding account_balance attempt pure ◌>>=◌
with_balances [] = pure []
with_balances (u ∷ us) = attempt (account_balance (some u.id) developer_balance) >>= λ bal.
    with_balances us >>= λ rest. pure ((u, or_zero bal) ∷ rest)

pub data UsersReply : Type 0 where
  user_list : List Listed → UsersReply
  created : ℕ → String → String → UsersReply

pub record NewUser : Type 0 where
  pub email : String
  pub password : String
  pub role : String

-- `strings.Contains(s, "@")`.
abbrev pub has_at : String → Bool
has_at s = elim (find? s "@") [ none ↦ false | some _ ↦ true ]

abbrev is_text : String → String → Bool
is_text s t = ite (string_discrete s t) true false

-- A role that is not known is replaced by developer.
abbrev pub role_of : String → String
role_of role =
    if is_text role "admin" || is_text role "developer" || is_text role "provider_owner"
    then role
    else "developer"

abbrev pub set_password : ℕ → NewUser → Option String → Tx (Reply UsersReply)
set_password id b none = pure (refuses 500 "bcrypt")
set_password id b (some hash) =
    or_fail (set_password_hash id hash) λ _. pure (answers (created id b.email (role_of b.role)))

abbrev pub is_valid : NewUser → Bool
is_valid b = has_at b.email && not (ltb (len b.password) 8)

unfoldable pub create_user : Library → Option NewUser → Tx (Reply UsersReply)
unfolding ensure_user set_password_hash or_fail pure
create_user lib none = pure (refuses 400 "email + password (min 8 chars) required")
create_user lib (some b) =
    if is_valid b
    then (or_fail (ensure_user b.email (role_of b.role))
        λ id. set_password id b (lib.generate_hash b.password))
    else pure (refuses 400 "email + password (min 8 chars) required")

abbrev users_by_method : Library → Option NewUser → Method → Tx (Reply UsersReply)
users_by_method lib body get =
    or_fail list_users λ us. with_balances us >>= λ rows. pure (answers (user_list rows))
users_by_method lib body post = create_user lib body
users_by_method lib body _ = pure (refuses 405 "method")

-- `HandleConsoleAdminUsers`; the text of an error of bcrypt is not modelled.
unfoldable pub handle_admin_users :
    Library → Config → Method → Option NewUser → Tx (Reply UsersReply)
unfolding list_users with_balances create_user or_fail console_store pure ◌>>=◌
handle_admin_users lib g method body = console_store g (users_by_method lib body method)

pub record PriceBody : Type 0 where
  pub model : String
  pub in_micro : ℤ
  pub out_micro : ℤ

pub data PricesReply : Type 0 where
  price_list : ℤ × ℤ → List (String × (ℤ × ℤ)) → PricesReply
  price_set : PricesReply

abbrev pub is_price : PriceBody → Bool
is_price b = not (is_empty b.model || leb_ℤ b.in_micro (pos 0) || leb_ℤ b.out_micro (pos 0))

abbrev put_price : Option PriceBody → Tx (Reply PricesReply)
put_price none = pure (refuses 400 "model + positive rates required")
put_price (some b) =
    if is_price b
    then (or_fail (upsert_model_price b.model b.in_micro b.out_micro) λ _. pure (answers price_set))
    else pure (refuses 400 "model + positive rates required")

abbrev prices_by_method :
    (String → String → Bool) → Option PriceBody → Method → Tx (Reply PricesReply)
prices_by_method collation body get = or_fail (list_model_prices collation) λ rows.
    pure (answers (price_list (default_input_micro_per_1m, default_output_micro_per_1m) rows))
prices_by_method collation body put = put_price body
prices_by_method collation body _ = pure (refuses 405 "method")

-- `HandleConsoleAdminPrices`.
unfoldable pub handle_admin_prices :
    (String → String → Bool) → Config → Method → Option PriceBody → Tx (Reply PricesReply)
unfolding list_model_prices upsert_model_price or_fail pure
handle_admin_prices collation g method body =
    if g.billing then prices_by_method collation body method else pure (refuses 503 "no db")

pub record PayoutAction : Type 0 where
  pub id : ℕ
  pub action : String
  pub rail : String
  pub rail_ref : String

pub data PayoutsReply : Type 0 where
  payout_list : List PayoutRow → PayoutsReply
  status : String → PayoutsReply

module _ (print_id : ℕ → String) where
  abbrev act_on_payout : ℕ → Option PayoutAction → Tx (Reply PayoutsReply)
  act_on_payout now none = pure (refuses 400 "id required")
  act_on_payout now (some b) =
      if b.id == 0
      then pure (refuses 400 "id required")
      else if is_text b.action "approve"
      then (or_fail (mark_payout now b.id "approved" b.rail b.rail_ref)
          λ _. pure (answers (status "approved")))
      else if is_text b.action "markpaid"
      then (or_fail (settle_payout print_id now b.id b.rail b.rail_ref)
          λ _. pure (answers (status "paid")))
      else pure (refuses 400 "action must be approve|markpaid")

  abbrev payouts_by_method : ℕ → Option PayoutAction → Method → Tx (Reply PayoutsReply)
  payouts_by_method now body get =
      or_fail (list_payouts none) λ rows. pure (answers (payout_list rows))
  payouts_by_method now body post = act_on_payout now body
  payouts_by_method now body _ = pure (refuses 405 "method")

  -- `HandleConsoleAdminPayouts` (`none` for a body whose id is negative too).
  unfoldable pub handle_admin_payouts :
      ℕ → Config → Method → Option PayoutAction → Tx (Reply PayoutsReply)
  unfolding list_payouts mark_payout settle_payout or_fail console_store pure
  handle_admin_payouts now g method body = console_store g (payouts_by_method now body method)
