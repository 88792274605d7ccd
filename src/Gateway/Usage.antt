-- ===== src/Gateway/Usage.antt =====
-- `finishUsage` of coordinator/internal/server/gateway.go: metering and settlement after a request.
use idlegrid.Prelude.{
  ℕ, Bool, false, Option, none, some, List, String, ite, ℤ, pos, negsuc, ◌==◌, if◌then◌else◌,
  lookup, replicate, string_discrete,
}
use idlegrid.Money.{gross_micro, price_for, split_provider_fee, estimate_tokens, counts_match}
use idlegrid.Store.Tables.{UsageEvent}
use idlegrid.Store.Tx.{Tx, Result, ok, err, driver, ◌>>=◌, pure, raise, query, recover}
use idlegrid.Store.Tx.Quiet.{attempt}
use idlegrid.Store.Settle.{SettleParams, record_usage, settle_request}

-- `GetModelPrice`, whose every error `PriceFor` takes for a missing price.
unfoldable pub model_price : String → Tx (Option (ℤ × ℤ))
unfolding query recover
model_price model = recover none (query λ db. lookup string_discrete model db.prices)

-- `reqOutcome`; a text is the list of its bytes.
pub record Outcome : Type 0 where
  pub text : List ℕ
  pub status : String
  pub prov_in : Option ℤ
  pub prov_out : Option ℤ

-- What `finishUsage` reads of the request.
pub record Request : Type 0 where
  pub request_id : String
  pub user_id : Option ℕ
  pub node_id : String
  pub model : String
  pub input_chars : ℕ

abbrev pub deref_int : Option ℤ → ℤ
deref_int none = pos 0
deref_int (some n) = n

-- `strings.Repeat("x", inputChars)`.
abbrev pub est_input : Request → ℤ
est_input q = pos (estimate_tokens (replicate q.input_chars 120))

abbrev pub est_output : Outcome → ℤ
est_output o = pos (estimate_tokens o.text)

abbrev final_status : Bool → String → String
final_status failed status =
    if failed then ite (string_discrete status "completed") "failed" status else status

abbrev pub usage_event : Request → Outcome → Bool → UsageEvent
usage_event q o failed = record {
  request_id = q.request_id;
  user_id = q.user_id;
  node_id = q.node_id;
  model = q.model;
  est_input_tokens = est_input q;
  est_output_tokens = est_output o;
  provider_input = o.prov_in;
  provider_output = o.prov_out;
  within_tolerance = counts_match (est_output o) (deref_int o.prov_out);
  status = final_status failed o.status;
}

-- Provider counts win when inside tolerance, else the estimate.
unfoldable pub billed_tokens : ℤ → Option ℤ → ℤ
billed_tokens est none = est
billed_tokens est (some n) = if counts_match est n then n else est

abbrev pub is_zero : ℤ → Bool
is_zero (pos n) = n == 0
is_zero (negsuc _) = false

unfoldable pub gross_of : Request → Outcome → ℤ × ℤ → ℤ
unfolding billed_tokens gross_micro
gross_of q o rates =
    gross_micro (billed_tokens (est_input q) o.prov_in) (billed_tokens (est_output o) o.prov_out)
      rates.0 rates.1

abbrev pub settle_params : Request → SettleParams
settle_params q = record { request_id = q.request_id; user_id = q.user_id; node_id = q.node_id }

-- A call whose context is cancelled fails before it reaches the database.
unfoldable pub on_context : {A : Type 0} → Bool → Tx A → Tx A
unfolding raise
on_context live m = if live then m else raise driver

-- The settlement, whose error is logged.
unfoldable pub settle_gross : ℤ → Request → ℤ → Tx (Unit {0})
unfolding split_provider_fee settle_request attempt pure ◌>>=◌
settle_gross fee_percent q gross =
    if is_zero gross
    then pure tt
    else (let (credit, fee) = split_provider_fee gross fee_percent in
        (do _ ← attempt (settle_request (settle_params q) gross credit fee); pure tt))

-- What follows `RecordUsage`.
unfoldable pub after_record : ℤ → Request → Outcome → Result (Unit {0}) → Tx (Unit {0})
unfolding model_price price_for gross_of settle_gross pure ◌>>=◌
after_record fee_percent q o (err e) = pure tt
after_record fee_percent q o (ok _) = do
  price ← model_price q.model
  settle_gross fee_percent q (gross_of q o (price_for price))

-- `finishUsage`; `live` says whether the client's context, which it derives its own from, is not done.
unfoldable pub finish_usage : ℤ → Bool → Request → Outcome → Bool → Tx (Unit {0})
unfolding record_usage on_context attempt after_record ◌>>=◌
finish_usage fee_percent live q o failed = do
  recorded ← attempt (on_context live (record_usage (usage_event q o failed)))
  after_record fee_percent q o recorded
