-- ===== src/Gateway/Gone.antt =====
-- Requests whose client has left (`handleChatCompletions` of coordinator/internal/server/gateway.go).
use idlegrid.Prelude.{
  ℕ, ◌≡◌, refl, ℤ, Bool, true, false, Bool-cases, inl, inr, Option, none, some, List, ◌&&◌, ◌||◌,
  ite, string_discrete,
}
use idlegrid.Registry.{Node, Registry}
use idlegrid.Limit.{Caller, user, admin, nobody}
use idlegrid.Hub.{Hub, Run, returns, panics}
use idlegrid.Store.Tables.{Db}
use idlegrid.Store.Tx.{Result, pure}
use idlegrid.Store.Tx.Keeps.{Keeps, final, Keeps-pure, Keeps-bind, Keeps-attempt, Keeps-query}
use idlegrid.Store.Ledger.{account_balance}
use idlegrid.Gateway.Admit.{
  Config, ChatRequest, Admission, rejected, admitted, admit, after_guard, guard, is_overdrawn,
  no_messages,
}
use idlegrid.Gateway.Usage.{Outcome, Request}
use idlegrid.Gateway.Metering.{finish_usage_cancelled}
use idlegrid.Gateway.Await.{Response, Frame, End}
use idlegrid.Gateway.Chat.{
  Reaction, Surroundings, new_outcome, metered, after_cancel, collected, streamed, relay_loop,
  dispatched, scheduled, after_admission, handle_chat_completions,
}

-- The invariant of these calls: the database is `db`.
abbrev Is : Db → Db → Type 0
Is db d = d ≡ db

module _ (g : Config) (db : Db) where
  guard_after : (req : ChatRequest) (bal : Result ℤ) → Keeps (Is db) (after_guard req bal)
  guard_after req bal = elim (Bool-cases (is_overdrawn bal)) [
    | inl e ↦ rw e (Keeps-pure (Is db) _)
    | inr e ↦ rw e (Keeps-pure (Is db) _)
  ]

  guard-Keeps : (caller : Caller) (req : ChatRequest) → Keeps (Is db) (guard g caller req)
  unfolding account_balance
  guard-Keeps admin req = Keeps-pure (Is db) _
  guard-Keeps nobody req = Keeps-pure (Is db) _
  guard-Keeps (user id) req = elim (Bool-cases (g.require_balance && g.billing)) [
    | inl e ↦ rw e (
        Keeps-bind (Is db) (Keeps-attempt (Is db) (Keeps-query (Is db) _))
          (λ bal. guard_after req bal))
    | inr e ↦ rw e (Keeps-pure (Is db) _)
  ]

  admit-Keeps : (caller : Caller) (req : Option ChatRequest) → Keeps (Is db) (admit g caller req)
  unfolding admit
  admit-Keeps caller none = Keeps-pure (Is db) _
  admit-Keeps caller (some req) =
      elim (Bool-cases
        (ite (string_discrete req.model "") true false || no_messages req.messages)) [
          | inl e ↦ rw e (Keeps-pure (Is db) _)
          | inr e ↦ rw e (guard-Keeps caller req)
        ]

module _ (g : Config) (fee : ℤ) (e : Surroundings) (db : Db) (gone : e.live ≡ false) where
  metered-Keeps :
      (q : Request) (o : Outcome) (failed : Bool) → Keeps (Is db) (metered g fee e q o failed)
  metered-Keeps q o failed = elim (Bool-cases g.billing) [
    | inl b ↦
        rw (b, gone) record { from = λ fs d h. rw (finish_usage_cancelled fee q o failed fs d) h }
    | inr b ↦ rw b (Keeps-pure (Is db) tt)
  ]

  ended-Keeps :
      (q : Request) (end : End) (reaction : Reaction) (t : Run Hub)
      → Keeps (Is db) (after_cancel g fee e q end reaction t)
  ended-Keeps q end reaction panics = Keeps-pure (Is db) _
  ended-Keeps q end reaction (returns h) =
      Keeps-bind (Is db) (metered-Keeps q end.outcome end.failed) (λ _. Keeps-pure (Is db) _)

  collected-Keeps :
      (q : Request) (h : Hub) (o : Option (End × Response))
      → Keeps (Is db) (collected g fee e q h o)
  collected-Keeps q h none = Keeps-pure (Is db) _
  collected-Keeps q h (some (end, r)) = ended-Keeps q end _ _

  streamed-Keeps :
      (q : Request) (h : Hub) (o : Option (End × List Frame))
      → Keeps (Is db) (streamed g fee e q h o)
  streamed-Keeps q h none = Keeps-pure (Is db) _
  streamed-Keeps q h (some (end, fr)) = ended-Keeps q end _ _

  relay-Keeps :
      (q : Request) (stream : Bool) (h : Hub) → Keeps (Is db) (relay_loop g fee e q stream h)
  unfolding relay_loop
  relay-Keeps q true h = streamed-Keeps q h _
  relay-Keeps q false h = collected-Keeps q h _

  dispatched-Keeps :
      (q : Request) (stream : Bool) (t : Run (Bool × Hub))
      → Keeps (Is db) (dispatched g fee e q stream t)
  dispatched-Keeps q stream panics = Keeps-pure (Is db) _
  dispatched-Keeps q stream (returns (true, h)) = relay-Keeps q stream (e.meanwhile h)
  dispatched-Keeps q stream (returns (false, h)) =
      Keeps-bind (Is db) (metered-Keeps q new_outcome true) (λ _. Keeps-pure (Is db) _)

  scheduled-Keeps :
      (caller : Caller) (req : ChatRequest) (chars : ℕ) (h : Hub) (t : Option Node × Registry)
      → Keeps (Is db) (scheduled g fee e caller req chars h t)
  scheduled-Keeps caller req chars h (none, r) = Keeps-pure (Is db) _
  scheduled-Keeps caller req chars h (some n, r) = dispatched-Keeps _ req.stream _

  admitted-Keeps :
      (caller : Caller) (req : ChatRequest) (h : Hub) (a : Admission)
      → Keeps (Is db) (after_admission g fee e caller req h a)
  admitted-Keeps caller req h (rejected code) = Keeps-pure (Is db) _
  admitted-Keeps caller req h (admitted est chars) = scheduled-Keeps caller req chars h _

  -- Where the client has left, so that the context of its request is done, and whatever fails in the driver: from the
  -- admission to the end of the relay, whatever the provider was sent, and whatever text it generated and the handler
  -- relayed, the database stays as it was. Nothing is metered and nobody is charged.
  pub handle_chat_completions-gone :
      (caller : Caller) (req : Option ChatRequest) (h : Hub) (fs : List Bool)
      → final (handle_chat_completions g fee e caller req h fs db) ≡ db
  unfolding handle_chat_completions pure
  handle_chat_completions-gone caller none h fs = refl
  handle_chat_completions-gone caller (some req) h fs =
      (Keeps-bind (Is db) (admit-Keeps g db caller (some req))
          (λ a. admitted-Keeps caller req h a)).from
        fs db refl
