-- ===== src/Topup/Checkout.antt =====
-- `HandleDodoTopup` of coordinator/internal/server/dodo.go.
use Prim.Native.String.{◌++◌}
use idlegrid.Prelude.{
  ℕ, ◌-◌, ◌*◌, ◌/◌, ◌^◌, ltb, leb, Bool, true, false, Option, none, some, String, if◌then◌else◌,
  round_even, narrowing,
}
use idlegrid.Store.Accounts.{Auth}
use idlegrid.Http.{Reply, answers, refuses}
use idlegrid.Console.Session.{is_empty}

-- A float64 that is not negative, below 2^53: mantissa / 2^shift, with a mantissa below 2^53.
pub record Float64 : Type 0 where
  pub mantissa : ℕ
  pub shift : ℕ

-- `int64(body.AmountUSD * 100)`: the product is rounded, the conversion drops the fraction. A product by 100 has
-- 7 bits more at most.
unfoldable pub cents_of : Float64 → ℕ
unfolding round_even narrowing
cents_of x =
    let p = 100 * x.mantissa in
    let s = narrowing 7 0 p in round_even p s * 2 ^ (s - x.shift) / 2 ^ (x.shift - s)

-- `body.AmountUSD < 5`.
unfoldable pub below_five : Float64 → Bool
below_five x = ltb x.mantissa (5 * 2 ^ x.shift)

-- IDLEGRID_DODO_… of the environment, empty where they are not set.
pub record DodoEnv : Type 0 where
  pub api_key : String
  pub base_url : String
  pub product_id : String
  pub return_url : String

-- `dodoAPIBase` and `dodoConfigured`.
unfoldable pub dodo_api_base : DodoEnv → String
dodo_api_base env = if is_empty env.base_url then "https://live.dodopayments.com" else env.base_url

unfoldable pub dodo_configured : DodoEnv → Bool
dodo_configured env = if is_empty env.api_key then false else true

-- The request to Dodo.
pub record CheckoutRequest : Type 0 where
  pub url : String
  pub authorization : String
  pub billing_currency : String
  pub product_id : String
  pub quantity : ℕ
  pub email : String
  pub user_id : ℕ
  pub amount_cents : ℕ
  pub return_url : Option String

-- What becomes of it: it cannot be built, Dodo is not reached, or there is a response, with its status, whether it
-- decodes, and the fields that were decoded.
pub record DodoBody : Type 0 where
  pub status : ℕ
  pub decodes : Bool
  pub payment_id : String
  pub payment_link : String
  pub error_message : String

pub data DodoAnswer : Type 0 where
  not_built not_reached : String → DodoAnswer
  responds : DodoBody → DodoAnswer

abbrev pub checkout_request : DodoEnv → Auth → Float64 → CheckoutRequest
checkout_request env u amount = record {
  url = dodo_api_base env ++ "/payments";
  authorization = "Bearer " ++ env.api_key;
  billing_currency = "USD";
  product_id = env.product_id;
  quantity = 1;
  email = u.1.0;
  user_id = u.0;
  amount_cents = cents_of amount;
  return_url = if is_empty env.return_url then none else some env.return_url;
}

abbrev pub topup_reply : DodoAnswer → Reply (String × String)
topup_reply (not_built e) = refuses 500 e
topup_reply (not_reached e) = refuses 502 ("dodo api: " ++ e)
topup_reply (responds b) =
    if (if b.decodes then leb 300 b.status else true)
    then refuses 502 (if is_empty b.error_message then "dodo api error" else b.error_message)
    else answers (b.payment_link, b.payment_id)

abbrev ask_amount :
    DodoEnv → (CheckoutRequest → DodoAnswer) → Auth → Option Float64 → Reply (String × String)
ask_amount env api u none = refuses 400 "amount_usd must be >= 5"
ask_amount env api u (some amount) =
    if below_five amount
    then refuses 400 "amount_usd must be >= 5"
    else topup_reply (api (checkout_request env u amount))

-- `HandleDodoTopup`: the payment's link and id. A body that does not decode, or whose amount is negative, is `none`;
-- `api` is Dodo's answer to a request.
unfoldable pub handle_dodo_topup :
    DodoEnv → (CheckoutRequest → DodoAnswer) → Auth → Option Float64 → Reply (String × String)
unfolding dodo_configured below_five cents_of dodo_api_base
handle_dodo_topup env api u body =
    if dodo_configured env
    then ask_amount env api u body
    else refuses 503 "online top-up not configured — contact the admin for a manual top-up"
