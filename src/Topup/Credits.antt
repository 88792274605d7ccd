-- ===== src/Topup/Credits.antt =====
-- What a webhook credits (coordinator/internal/server/dodo.go).
use idlegrid.Prelude.{
  ◌==◌, ◌≡◌, ◌≢◌, inl, inr, refl, ap, Bool, true, false, not, ◌&&◌, ◌||◌, Bool-cases, none, some,
  List, String, if_neg, pos, ltb_ℤ, ◌*ℤ◌, wrap64, if◌then◌else◌, string_discrete, ℕ_discrete,
  lookup,
}
use idlegrid.Store.Tables.{Db, EntryKey-discrete, developer_balance, deposit, payment}
use idlegrid.Store.Tx.{Result, ok, err, ◌>>=◌, pure}
use idlegrid.Store.Tx.Quiet.{
  Quiet, Quiet-bind, Quiet-pure, Quiet-Runs, Quiet-attempt, Quiet-mono, Succeeds,
}
use idlegrid.Store.Ledger.Posting.{entry_key}
use idlegrid.Store.Deposit.{dodo_credit, Credited, dodo_credit_new, dodo_credit_again}
use idlegrid.Gateway.Admit.{Config}
use idlegrid.Http.{answers, refuses, or_fail, checked}
use idlegrid.Console.Session.{is_empty}
use idlegrid.Topup.Webhook.{
  Payload, WebhookCodec, credited, Handled, replies, credited_micro, is_text, credit_payload,
  signature_error, handle_dodo_webhook,
}

is_empty_no : (s : String) → s ≢ "" → is_empty s ≡ false
is_empty_no s h = if_neg (string_discrete s "") h true false

is_text_no : (s t : String) → s ≢ t → is_text s t ≡ false
is_text_no s t h = if_neg (string_discrete s t) h true false

-- Where a secret is set, a body whose signature is not its HMAC under the secret gets 401, and leaves the database as it
-- was.
pub handle_dodo_webhook-unsigned :
    (codec : WebhookCodec) (g : Config) (secret signature raw : String) (fs : List Bool) (db : Db)
    → secret ≢ ""
    → codec.mac secret raw ≢ signature
    → (msg : String) × (handle_dodo_webhook codec g secret signature (some raw) fs db
        ≡ (ok (replies (refuses 401 msg)), fs, db))
unfolding handle_dodo_webhook signature_error pure
handle_dodo_webhook-unsigned codec g secret signature raw fs db set forged =
    elim (Bool-cases (is_empty signature)) [
      | inl e ↦ rw (is_empty_no secret set) (rw e ("missing signature", refl))
      | inr e ↦
          rw (is_empty_no secret set)
            (rw e (rw (is_text_no (codec.mac secret raw) signature forged) ("bad signature", refl)))
    ]

-- A payload that is to be credited: of a succeeded payment, with a payment and a user.
abbrev pub Creditable : Payload → Type 0
Creditable p =
    ((not (is_empty p.event_type) && not (is_text p.event_type "payment.succeeded")) ≡ false)
    × ((is_empty p.payment_id || p.user_id == 0) ≡ false)

module _ (codec : WebhookCodec) (g : Config) (secret signature raw : String) (p : Payload)
    (store : g.billing ≡ true) (signed : signature_error codec secret signature raw ≡ none)
    (decoded : codec.decode raw ≡ some p) (creditable : Creditable p) where
  after_credit :
      (Q : Db → Type 0) (r : Result (Unit {0})) (d : Db)
      → Succeeds (λ _ d. Q d) r d
      → Quiet (checked (λ _. pure (answers credited)) r) d (λ a d. (a ≡ answers credited) × Q d)
  after_credit Q (ok _) d h = Quiet-pure _ (refl, h)
  after_credit Q (err e) d h = absurd h

  credited_by :
      (Q : Db → Type 0) (db : Db)
      → Quiet (dodo_credit p.payment_id p.user_id (credited_micro p)) db (λ _ d. Q d)
      → Quiet
          (handle_dodo_webhook codec g secret signature (some raw))
          db
          (λ r d. (r ≡ replies (answers credited)) × Q d)
  unfolding handle_dodo_webhook credit_payload or_fail
  credited_by Q db h = rw signed (
      rw decoded (
        rw (creditable.0, creditable.1)
          (rw store (
            Quiet-bind (λ a d. (a ≡ answers credited) × Q d)
              (Quiet-bind _ (Quiet-attempt h) (after_credit Q))
              (λ a d e. Quiet-pure _ (ap replies e.0, e.1))))))

  -- With no failure of the driver, a verified webhook of a succeeded payment that is new, for a known user, credits the
  -- developer balance of that user with one entry, of the metadata's amount where that is positive, whatever total
  -- was paid, and of the total else, at 10 000 micro-USD a cent. A second delivery answers the same and changes nothing.
  pub handle_dodo_webhook-credits :
      (db : Db)
      → lookup string_discrete p.payment_id db.payments ≡ none
      → lookup ℕ_discrete p.user_id db.users ≢ none
      → lookup EntryKey-discrete
          (entry_key p.user_id developer_balance deposit payment p.payment_id)
          db.ledger
        ≡ none
      → Quiet
          (handle_dodo_webhook codec g secret signature (some raw) >>= λ first.
            handle_dodo_webhook codec g secret signature (some raw) >>= λ second.
            pure {A = Handled × Handled} (first, second))
          db
          (λ r d.
            (r ≡ (replies (answers credited), replies (answers credited)))
            × Credited p.payment_id p.user_id
                (wrap64 (
                  (if ltb_ℤ (pos 0) p.amount_cents then p.amount_cents else p.total_amount)
                  *ℤ pos 10_000))
                db
                d)
  unfolding credited_micro
  handle_dodo_webhook-credits db absent known fresh =
      let C : Db → Type 0 = λ d. Credited p.payment_id p.user_id (credited_micro p) db d in
      Quiet-bind (λ r d. (r ≡ replies (answers credited)) × C d)
        (credited_by C db (
          Quiet-Runs
            (dodo_credit_new p.payment_id p.user_id (credited_micro p) db absent known fresh)))
        (λ first d h.
          Quiet-bind (λ r e. (r ≡ replies (answers credited)) × C e)
            (credited_by C d (
              Quiet-mono (λ _ e. e ≡ d)
                (Quiet-Runs (dodo_credit_again p.payment_id p.user_id (credited_micro p) d h.1.0))
                (λ _ e same. rw same h.1)))
            (λ second e k. Quiet-pure _ (rw (h.0, k.0) refl, k.1)))
