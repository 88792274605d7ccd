-- ===== src/Topup/Webhook.antt =====
-- `HandleDodoWebhook` of coordinator/internal/server/dodo.go.
use idlegrid.Prelude.{
  ℕ, ◌==◌, Bool, true, false, not, ◌&&◌, ◌||◌, Option, none, some, String, ite, ℤ, pos, ltb_ℤ, ◌*ℤ◌,
  wrap64, if◌then◌else◌, string_discrete,
}
use idlegrid.Store.Tx.{Tx, ◌>>=◌, pure}
use idlegrid.Store.Deposit.{dodo_credit}
use idlegrid.Gateway.Admit.{Config}
use idlegrid.Http.{Reply, answers, refuses, or_fail}
use idlegrid.Console.Session.{is_empty}

-- The payload as it is decoded; a missing field has its zero value, and a user id is not negative.
pub record Payload : Type 0 where
  pub event_type : String
  pub payment_id : String
  pub total_amount : ℤ
  pub user_id : ℕ
  pub amount_cents : ℤ

-- Code of the standard library: `mac secret raw` is the base64 text of the HMAC-SHA256, `decode` reads the JSON.
pub record WebhookCodec : Type 0 where
  pub mac : String → String → String
  pub decode : String → Option Payload

pub data WebhookReply : Type 0 where
  ignored : String → WebhookReply
  credited : WebhookReply

-- The reply, or a panic of the handler.
pub data Handled : Type 0 where
  replies : Reply WebhookReply → Handled
  panics : Handled

-- The amount of the checkout's metadata, where it is positive, and else the total.
unfoldable pub credited_cents : Payload → ℤ
credited_cents p = if ltb_ℤ (pos 0) p.amount_cents then p.amount_cents else p.total_amount

-- 1 cent is 10_000 micro-USD.
unfoldable pub credited_micro : Payload → ℤ
unfolding credited_cents
credited_micro p = wrap64 (credited_cents p *ℤ pos 10_000)

abbrev pub is_text : String → String → Bool
is_text s t = ite (string_discrete s t) true false

abbrev pub as_handled : Reply WebhookReply → Tx Handled
as_handled r = pure (replies r)

-- `g.Billing.(store.ConsoleStore)` panics where there is no store.
unfoldable pub credit_payload : Config → Payload → Tx Handled
unfolding dodo_credit credited_micro or_fail pure ◌>>=◌
credit_payload g p =
    if g.billing
    then or_fail (dodo_credit p.payment_id p.user_id (credited_micro p))
        (λ _. pure (answers credited))
      >>= as_handled
    else pure panics

abbrev pub on_payload : Config → Option Payload → Tx Handled
on_payload g none = pure (replies (refuses 400 "bad payload"))
on_payload g (some p) =
    if not (is_empty p.event_type) && not (is_text p.event_type "payment.succeeded")
    then pure (replies (answers (ignored p.event_type)))
    else if is_empty p.payment_id || p.user_id == 0
    then pure (replies (refuses 400 "missing payment_id/user metadata"))
    else credit_payload g p

-- What the signature test answers, if it fails.
unfoldable pub signature_error : WebhookCodec → String → String → String → Option String
signature_error codec secret signature raw =
    if is_empty secret
    then none
    else if is_empty signature
    then some "missing signature"
    else if is_text (codec.mac secret raw) signature
    then none
    else some "bad signature"

abbrev pub verified : WebhookCodec → Config → String → Option String → Tx Handled
verified codec g raw (some e) = pure (replies (refuses 401 e))
verified codec g raw none = on_payload g (codec.decode raw)

-- `HandleDodoWebhook`: `secret` is IDLEGRID_DODO_WEBHOOK_SECRET and `signature` the header, empty where they are not
-- set; a body that cannot be read is `none`.
unfoldable pub handle_dodo_webhook :
    WebhookCodec → Config → String → String → Option String → Tx Handled
unfolding credit_payload signature_error pure
handle_dodo_webhook codec g secret signature none = pure (replies (refuses 400 "read failed"))
handle_dodo_webhook codec g secret signature (some raw) =
    verified codec g raw (signature_error codec secret signature raw)
