-- ===== src/Gateway/Chat.antt =====
-- `handleChatCompletions` of coordinator/internal/server/gateway.go: admission, reservation, dispatch to the provider,
-- the relay loop and metering. The request id is an argument; `meanwhile` is what other goroutines do to the hub
-- while the handler waits, and the signals are what it receives. Metering comes after.
use idlegrid.Prelude.{
  ℕ, ℤ, pos, negsuc, Bool, true, false, Option, none, some, List, String, if◌then◌else◌, [],
}
use idlegrid.Registry.{Node, Registry, reserve}
use idlegrid.Limit.{Caller}
use idlegrid.Hub.{
  Hub, Envelope, Run, returns, panics, inference_request, cancel, create, resolve, send,
}
use idlegrid.Store.Tx.{Tx, ◌>>=◌, pure}
use idlegrid.Gateway.Admit.{Config, ChatRequest, Admission, rejected, admitted, admit}
use idlegrid.Gateway.Usage.{Outcome, Request, finish_usage}
use idlegrid.Gateway.Await.{Signal, Response, Frame, End, collect_response, stream_response}
use idlegrid.Gateway.Api.{user_id_from}

-- What the client gets: an HTTP status before the dispatch, a body or frames, nothing so far, or a broken connection.
pub data Reaction : Type 0 where
  status : ℕ → Reaction
  body : Response → Reaction
  frames : List Frame → Reaction
  waiting broken : Reaction

-- What the handler does not compute: the clock, the id, the context, and the other goroutines.
pub record Surroundings : Type 0 where
  pub now : ℕ
  pub request_id : String
  pub live : Bool
  pub meanwhile : Hub → Hub
  pub signals : List Signal

abbrev pub request_envelope : String → Envelope
request_envelope id = record {
  type = inference_request;
  request_id = some id;
  queue_depth = none;
  text = "";
}

abbrev pub cancel_envelope : String → Envelope
cancel_envelope id = record { type = cancel; request_id = some id; queue_depth = none; text = "" }

abbrev pub tokens_of : ℤ → ℕ
tokens_of (pos n) = n
tokens_of (negsuc n) = 0

-- `Reg.Reserve` and `Router.Create`.
abbrev pub reserved : Registry → String → Hub → Hub
reserved r id h = record h { registry = r; router = create id h.router }

abbrev pub resolved : String → Hub → Hub
resolved id h = record h { router = resolve id h.router }

abbrev pub new_outcome : Outcome
new_outcome = record { text = []; status = "completed"; prov_in = none; prov_out = none }

abbrev pub usage_request : Surroundings → Caller → ChatRequest → Node → ℕ → Request
usage_request e caller req n chars = record {
  request_id = e.request_id;
  user_id = user_id_from caller;
  node_id = n.id;
  model = req.model;
  input_chars = chars;
}

-- A cancellation, whose result is dropped.
abbrev pub cancelled : Bool → String → String → Hub → Run Hub
cancelled false node_id id h = returns h
cancelled true node_id id h = elim (send node_id (cancel_envelope id) h) [
  | panics ↦ panics
  | returns r ↦ returns r.1
]

-- `finishUsage`, where there is a store.
abbrev pub metered : Config → ℤ → Surroundings → Request → Outcome → Bool → Tx (Unit {0})
metered g fee e q o failed = if g.billing then finish_usage fee e.live q o failed else pure tt

-- What the client gets and the hub at the end; it is not followed after a panic.
abbrev pub Ending : Type 0
Ending = Reaction × Run Hub

-- The end of a relay loop: the cancellation, the metering, and the deferred `Resolve`.
abbrev pub after_cancel : Config → ℤ → Surroundings → Request → End → Reaction → Run Hub → Tx Ending
after_cancel g fee e q end reaction panics = pure (broken, panics)
after_cancel g fee e q end reaction (returns h) = metered g fee e q end.outcome end.failed >>= λ _.
    pure (reaction, returns (resolved e.request_id h))

abbrev pub finish : Config → ℤ → Surroundings → Request → Hub → End → Reaction → Tx Ending
finish g fee e q h end reaction =
    after_cancel g fee e q end reaction (cancelled end.sends_cancel q.node_id e.request_id h)

abbrev pub collected :
    Config → ℤ → Surroundings → Request → Hub → Option (End × Response) → Tx Ending
collected g fee e q h none = pure (waiting, returns h)
collected g fee e q h (some (end, r)) = finish g fee e q h end (body r)

abbrev pub streamed :
    Config → ℤ → Surroundings → Request → Hub → Option (End × List Frame) → Tx Ending
streamed g fee e q h none = pure (waiting, returns h)
streamed g fee e q h (some (end, fr)) = finish g fee e q h end (frames fr)

unfoldable pub relay_loop : Config → ℤ → Surroundings → Request → Bool → Hub → Tx Ending
unfolding collect_response stream_response finish_usage send resolve pure ◌>>=◌
relay_loop g fee e q stream h =
    if stream
    then streamed g fee e q h (stream_response e.signals new_outcome)
    else collected g fee e q h (collect_response e.signals new_outcome)

abbrev pub dispatched : Config → ℤ → Surroundings → Request → Bool → Run (Bool × Hub) → Tx Ending
dispatched g fee e q stream panics = pure (broken, panics)
dispatched g fee e q stream (returns (true, h)) = relay_loop g fee e q stream (e.meanwhile h)
dispatched g fee e q stream (returns (false, h)) =
    metered g fee e q new_outcome true >>= λ _. pure (status 502, returns (resolved e.request_id h))

abbrev pub scheduled :
    Config → ℤ → Surroundings → Caller → ChatRequest → ℕ → Hub → Option Node × Registry → Tx Ending
scheduled g fee e caller req chars h (none, r) = pure (status 503, returns h)
scheduled g fee e caller req chars h (some n, r) =
    dispatched g fee e (usage_request e caller req n chars) req.stream
      (send n.id (request_envelope e.request_id) (reserved r e.request_id h))

abbrev pub after_admission :
    Config → ℤ → Surroundings → Caller → ChatRequest → Hub → Admission → Tx Ending
after_admission g fee e caller req h (rejected code) = pure (status code, returns h)
after_admission g fee e caller req h (admitted est chars) =
    scheduled g fee e caller req chars h (reserve e.now req.model (tokens_of est) h.registry)

-- `handleChatCompletions`, of the decoded body.
unfoldable pub handle_chat_completions :
    Config → ℤ → Surroundings → Caller → Option ChatRequest → Hub → Tx Ending
unfolding admit relay_loop send create resolve finish_usage pure ◌>>=◌
handle_chat_completions g fee e caller none h = pure (status 400, returns h)
handle_chat_completions g fee e caller (some req) h =
    admit g caller (some req) >>= after_admission g fee e caller req h
