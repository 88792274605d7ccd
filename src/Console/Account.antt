-- ===== src/Console/Account.antt =====
-- The handlers of a signed-in user in coordinator/internal/server/console.go: account, keys, usage, payouts,
-- enrollment and nodes. Each takes the user that `requireSession` resolved.
use idlegrid.Prelude.{
  ℕ, ◌==◌, Bool, true, false, ◌&&◌, ◌||◌, Option, none, some, List, String, ite, ℤ, pos, leb_ℤ,
  if◌then◌else◌, string_discrete,
}
use idlegrid.Store.Tables.{Kind, developer_balance, provider_earnings, platform_revenue}
use idlegrid.Store.Tx.{Tx, Result, ok, err, ◌>>=◌, pure}
use idlegrid.Store.Tx.Quiet.{attempt}
use idlegrid.Store.Ledger.{account_balance}
use idlegrid.Store.Accounts.{
  Auth, create_api_key_with_id, revoke_api_key, get_or_create_enrollment_code,
}
use idlegrid.Store.Payout.{create_payout_request}
use idlegrid.Store.Device.{revoke_node}
use idlegrid.Store.Listing.{
  KeyRow, UsageRow, PayoutRow, ProviderNodeRow, list_api_keys, usage_rows, list_payouts,
  list_provider_nodes,
}
use idlegrid.Gateway.Admit.{Config}
use idlegrid.Http.{
  Method, get, post, delete, Reply, answers, refuses, Library, or_fail, console_store,
}
use idlegrid.Console.Session.{is_empty}

abbrev pub is_admin : Auth → Bool
is_admin u = ite (string_discrete u.1.1 "admin") true false

pub record Me : Type 0 where
  pub id : ℕ
  pub email : String
  pub role : String
  pub developer_balance_micro : Option ℤ
  pub provider_earnings_micro : Option ℤ
  pub escrow_micro : Option ℤ
  pub revenue_micro : Option ℤ

-- A balance that is left out of the reply where it cannot be read.
abbrev known : Result ℤ → Option ℤ
known (ok z) = some z
known (err e) = none

-- `escrow, _ := …`: 0 where it cannot be read.
abbrev or_zero : Result ℤ → Option ℤ
or_zero (ok z) = some z
or_zero (err e) = some (pos 0)

-- A pair of a dropped error and a value that goes on.
abbrev then_some : {A : Type 0} → (Result ℤ → Option ℤ) → (Option ℤ → Tx A) → Result ℤ → Tx A
then_some f k r = k (f r)

-- Reads one balance and goes on.
unfoldable read_balance :
    {A : Type 0} → (Result ℤ → Option ℤ) → Option ℕ → Kind → (Option ℤ → Tx A) → Tx A
unfolding account_balance attempt ◌>>=◌
read_balance f user kind k = attempt (account_balance user kind) >>= then_some f k

me_with : Auth → Option ℤ → Option ℤ → Option ℤ → Option ℤ → Tx (Reply Me)
unfolding pure
me_with u dev earn escrow rev = pure (
    answers (record {
      id = u.0;
      email = u.1.0;
      role = u.1.1;
      developer_balance_micro = dev;
      provider_earnings_micro = earn;
      escrow_micro = escrow;
      revenue_micro = rev;
    }))

-- `HandleConsoleMe`.
unfoldable pub handle_console_me : Config → Auth → Tx (Reply Me)
unfolding read_balance me_with
handle_console_me g u =
    if g.billing
    then (read_balance known (some u.0) developer_balance λ dev.
        read_balance known (some u.0) provider_earnings λ earn.
          if is_admin u
          then (read_balance or_zero none provider_earnings λ escrow.
              read_balance or_zero none platform_revenue λ rev. me_with u dev earn escrow rev)
          else me_with u dev earn none none)
    else me_with u none none none none

-- What the keys endpoint answers.
pub data KeysReply : Type 0 where
  key_list : List KeyRow → KeysReply
  created : ℕ → String → KeysReply
  revoked : KeysReply

-- The bodies: a label (empty if the body does not decode), and the id to revoke.
abbrev label_of : Option String → String
label_of none = ""
label_of (some l) = l

abbrev pub revoke_key : Auth → Option ℕ → Tx (Reply KeysReply)
revoke_key u none = pure (refuses 400 "id required")
revoke_key u (some id) =
    if id == 0
    then pure (refuses 400 "id required")
    else (or_fail (revoke_api_key u.0 id) λ _. pure (answers revoked))

abbrev pub keys_by_method :
    Library → String → Auth → Option String → Option ℕ → Method → Tx (Reply KeysReply)
keys_by_method lib raw u label id get =
    or_fail (list_api_keys u.0) λ rows. pure (answers (key_list rows))
keys_by_method lib raw u label id post =
    or_fail (create_api_key_with_id u.0 (lib.hash_key raw) (label_of label))
      λ n. pure (answers (created n raw))
keys_by_method lib raw u label id delete = revoke_key u id
keys_by_method lib raw u label id _ = pure (refuses 405 "method")

-- `HandleConsoleKeys`; `raw` is the new random key, `label` and `id` the body decoded for POST and DELETE (`none`
-- for an id that is negative too).
unfoldable pub handle_console_keys :
    Library → Config → String → Method → Auth → Option String → Option ℕ → Tx (Reply KeysReply)
unfolding list_api_keys create_api_key_with_id revoke_api_key or_fail console_store pure
handle_console_keys lib g raw method u label id =
    console_store g (keys_by_method lib raw u label id method)

-- Admins see all traffic, others their own.
abbrev pub own_or_all : Bool → Auth → Option ℕ
own_or_all all u = if all then none else some u.0

-- `HandleConsoleUsage`.
unfoldable pub handle_console_usage : Config → Auth → Tx (Reply (List UsageRow))
unfolding usage_rows or_fail pure
handle_console_usage g u =
    if g.billing
    then (or_fail (usage_rows (own_or_all (is_admin u) u) (pos 100)) λ rows. pure (answers rows))
    else pure (refuses 503 "no db")

pub record PayoutBody : Type 0 where
  pub amount_micro : ℤ
  pub rail : String
  pub rail_ref : String

abbrev is_text : String → String → Bool
is_text s t = ite (string_discrete s t) true false

-- A rail that is not offered is replaced by the manual one.
abbrev pub rail_of : String → String
rail_of rail =
    if is_text rail "paypal" || is_text rail "wise" || is_text rail "upi" then rail else "manual"

abbrev request_payout : Library → Auth → Option PayoutBody → Tx (Reply ℕ)
request_payout lib u none = pure (refuses 400 "amount_micro required")
request_payout lib u (some b) =
    if leb_ℤ b.amount_micro (pos 0)
    then pure (refuses 400 "amount_micro required")
    else (or_fail
        (create_payout_request u.0 b.amount_micro (rail_of b.rail) (lib.trim_space b.rail_ref))
        λ id. pure (answers id))

-- `HandleConsolePayoutRequest`: the id of the payout, whose status is requested.
unfoldable pub handle_console_payout_request :
    Library → Config → Auth → Option PayoutBody → Tx (Reply ℕ)
unfolding create_payout_request or_fail console_store pure
handle_console_payout_request lib g u body = console_store g (request_payout lib u body)

-- `HandleConsolePayouts`; `all` says whether the query has all=1.
unfoldable pub handle_console_payouts : Config → Auth → Bool → Tx (Reply (List PayoutRow))
unfolding list_payouts or_fail console_store pure
handle_console_payouts g u all =
    console_store g
      (or_fail (list_payouts (own_or_all (is_admin u && all) u)) λ rows. pure (answers rows))

-- `HandleConsoleEnrollment`; `code` is a new random code.
unfoldable pub handle_console_enrollment : Config → String → Auth → Tx (Reply String)
unfolding get_or_create_enrollment_code or_fail console_store pure
handle_console_enrollment g code u =
    console_store g (or_fail (get_or_create_enrollment_code u.0 code) λ c. pure (answers c))

-- `HandleConsoleNodes`.
unfoldable pub handle_console_nodes : Config → Auth → Tx (Reply (List ProviderNodeRow))
unfolding list_provider_nodes or_fail console_store pure
handle_console_nodes g u =
    console_store g (or_fail (list_provider_nodes u.0) λ rows. pure (answers rows))

abbrev removal : String → Bool → Tx (Reply String)
removal node_id true = pure (answers node_id)
removal node_id false = pure (refuses 404 "node not enrolled to your account")

abbrev revoke_named : Auth → Option String → Tx (Reply String)
revoke_named u none = pure (refuses 400 "node_id required")
revoke_named u (some node_id) =
    if is_empty node_id
    then pure (refuses 400 "node_id required")
    else or_fail (revoke_node u.0 node_id) (removal node_id)

-- `HandleConsoleNodeRevoke`: the id of the node.
unfoldable pub handle_console_node_revoke : Config → Auth → Option String → Tx (Reply String)
unfolding revoke_node or_fail console_store pure
handle_console_node_revoke g u body = console_store g (revoke_named u body)
