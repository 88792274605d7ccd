-- ===== src/Gateway/Served.antt =====
-- Requests from admission to metering (`handleChatCompletions` of coordinator/internal/server/gateway.go).
use idlegrid.Prelude.{ℕ, ◌≡◌, refl, ℤ, true, false, some}
use idlegrid.Registry.{Node, Registry, reserve}
use idlegrid.Limit.{Caller}
use idlegrid.Hub.{Hub, returns, send}
use idlegrid.Store.Tables.{Db}
use idlegrid.Store.Tx.Quiet.{Quiet, Quiet-bind, Quiet-pure}
use idlegrid.Gateway.Admit.{Config, ChatRequest, admitted, admit}
use idlegrid.Gateway.Usage.{is_zero, gross_of}
use idlegrid.Gateway.Metering.{IsUnmetered, Metered, rates_in, finish_usage-Metered}
use idlegrid.Gateway.Await.{Response, End, collect_response}
use idlegrid.Gateway.Chat.{
  body, Surroundings, request_envelope, tokens_of, reserved, resolved, new_outcome, usage_request,
  relay_loop, handle_chat_completions,
}

module _ (g : Config) (fee : ℤ) (e : Surroundings) (caller : Caller) (req : ChatRequest)
    (h h1 : Hub) (n : Node) (r : Registry) (est : ℤ) (chars : ℕ) (end : End) (resp : Response)
    (p : ℕ) (db : Db) where
  -- A request that is admitted and dispatched, and for which the provider's events end the collecting loop without a
  -- cancellation, while the client stays and no statement fails in the driver, is answered with the loop's
  -- response, and recorded and settled by what the loop gathered: the developer is charged, and the owner that
  -- the node is assigned to, or the escrow where it has none, and the platform get their shares. Its event channel is removed.
  pub handle_chat_completions-Metered :
      Quiet (admit g caller (some req)) db (λ a d. (a ≡ admitted est chars) × (d ≡ db))
      → reserve e.now req.model (tokens_of est) h.registry ≡ (some n, r)
      → send n.id (request_envelope e.request_id) (reserved r e.request_id h) ≡ returns (true, h1)
      → req.stream ≡ false
      → collect_response e.signals new_outcome ≡ some (end, resp)
      → end.sends_cancel ≡ false
      → g.billing ≡ true
      → e.live ≡ true
      → IsUnmetered fee (usage_request e caller req n chars) end.outcome end.failed p db
      → is_zero (
          gross_of
            (usage_request e caller req n chars)
            end.outcome
            (rates_in fee (usage_request e caller req n chars) end.outcome end.failed db))
        ≡ false
      → Quiet (handle_chat_completions g fee e caller (some req) h) db (λ o d.
        (o ≡ (body resp, returns (resolved e.request_id (e.meanwhile h1))))
        × Metered fee (usage_request e caller req n chars) end.outcome end.failed p db d)
  unfolding handle_chat_completions relay_loop
  handle_chat_completions-Metered admits chosen sent whole ends stays store live unmetered due =
      Quiet-bind _ admits (λ a d k.
        rw (k.0, k.1)
          (rw chosen (
            rw sent (
              rw whole (
                rw ends (
                  rw stays (
                    rw (store, live)
                      (Quiet-bind _
                        (finish_usage-Metered fee (usage_request e caller req n chars) end.outcome
                          end.failed p db unmetered due)
                        (λ _ d2 m. Quiet-pure _ (refl, m))))))))))
