-- ===== src/Topup/Tests.antt =====
-- Webhooks for one user, and the cents of a checkout.
use idlegrid.Prelude.{
  ◌≡◌, refl, true, none, some, [], ◌∷◌, String, pos, ◌*ℤ◌, wrap64, lookup, string_discrete,
  ℕ_discrete,
}
use idlegrid.Store.Tables.{Db}
use idlegrid.Store.Tx.{ok, pure, ◌>>=◌}
use idlegrid.Store.Tx.Quiet.{Quiet}
use idlegrid.Store.Deposit.{Credited}
use idlegrid.Gateway.Admit.{Config}
use idlegrid.Http.{answers, refuses}
use idlegrid.Prelude.{round_even, narrowing}
use idlegrid.Topup.Checkout.{cents_of}
use idlegrid.Topup.Webhook.{
  Payload, WebhookCodec, Handled, replies, credited, handle_dodo_webhook, signature_error,
}
use idlegrid.Topup.Credits.{handle_dodo_webhook-unsigned, handle_dodo_webhook-credits}

-- The float64 next to 5.10 is charged at 509 cents.
five_ten : cents_of (record { mantissa = 5_742_089_524_897_382; shift = 50 }) ≡ 509
unfolding cents_of round_even narrowing
five_ten = refl

abbrev config : Config
config = record { api_keys = []; billing = true; require_balance = true }

abbrev payload : Payload
payload = record {
  event_type = "payment.succeeded";
  payment_id = "pay";
  total_amount = pos 500;
  user_id = 2;
  amount_cents = pos 100_000;
}

-- The text of a body is its signature.
abbrev codec : WebhookCodec
codec = record { mac = λ secret raw. raw; decode = λ raw. some payload }

abbrev demo : Db
demo = record {
  users =
      (
        2,
        record {
          email = "dev@x.org";
          role = "developer";
          password_hash = none;
          enrollment_code = none;
        },
      )
      ∷ [];
  next_user = 3;
  api_keys = [];
  next_key = 1;
  nodes = [];
  usage = [];
  accounts = [];
  ledger = [];
  prices = [];
  payouts = [];
  next_payout = 1;
  payments = [];
  device_codes = [];
  tokens = [];
  sessions = [];
}

handle_dodo_webhook-unsigned_example :
    (msg : String) × (handle_dodo_webhook codec config "s" "forged" (some "{}") [] demo
      ≡ (ok (replies (refuses 401 msg)), [], demo))
handle_dodo_webhook-unsigned_example =
    handle_dodo_webhook-unsigned codec config "s" "forged" "{}" [] demo (λ w. cc) (λ w. cc)

handle_dodo_webhook-credits_example :
    Quiet
      (handle_dodo_webhook codec config "s" "{}" (some "{}") >>= λ first.
        handle_dodo_webhook codec config "s" "{}" (some "{}") >>= λ second.
        pure {A = Handled × Handled} (first, second))
      demo
      (λ r d.
        (r ≡ (replies (answers credited), replies (answers credited)))
        × Credited "pay" 2 (wrap64 (pos 100_000 *ℤ pos 10_000)) demo d)
unfolding lookup string_discrete ℕ_discrete signature_error
handle_dodo_webhook-credits_example =
    handle_dodo_webhook-credits codec config "s" "{}" "{}" payload refl refl refl (refl, refl) demo
      refl (λ w. cc) refl
