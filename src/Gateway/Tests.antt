-- ===== src/Gateway/Tests.antt =====
-- Runs of the gateway on a store with the platform's user, a developer and the owner of a node.
use idlegrid.Prelude.{
  List, String, [], false, lookup, none, pos, refl, some, string_discrete, true, ℕ_discrete, ◌++◌,
  ◌∷◌, ◌≡◌,
}
use idlegrid.Store.Tables.{Db, NodeBinding, User}
use idlegrid.Store.Tx.Quiet.{Quiet}
use idlegrid.Store.Ledger.{user_by_email}
use idlegrid.Store.Settle.{owner_in_nodes}
use idlegrid.Gateway.Usage.{Outcome, Request, finish_usage, gross_of}
use idlegrid.Gateway.Metering.{
  IsUnmetered, Metered, finish_usage-Metered, gross_of_unreported, rates_in,
}
use idlegrid.Gateway.Await.{
  Signal, event, timed_out, chunk, other, End, Response, SameEnd, collect_response, stream_response,
  stream-collect, collect_response_ends,
}
use idlegrid.Limit.{user, admin}
use idlegrid.Store.Tx.{pure, ◌>>=◌}
use idlegrid.Gateway.Admit.{Config, ChatRequest, est_tokens, admit, admit_guarded, verdict}
use idlegrid.Prelude.{insert, ◌*ℤ◌, ◌-ℤ◌, ◌+ℤ◌, wrap64, quot_ℤ, float64}
use idlegrid.Money.{gross_micro, ceil_div, estimate_tokens, counts_match, difference, price_for}
use idlegrid.Registry.{Node, blank, charged, contains, reserve, choose, consider, better, eligible}
use idlegrid.Hub.{Hub, Outbound, returns, send, track, add_id, create}
use idlegrid.Store.Ledger.{sum_matching}
use idlegrid.Gateway.Usage.{billed_tokens}
use idlegrid.Gateway.Await.{complete, completion}
use idlegrid.Gateway.Admit.{input_chars}
use idlegrid.Gateway.Chat.{
  Ending, relay_loop, Surroundings, usage_request, request_envelope, handle_chat_completions, body,
  resolved,
}
use idlegrid.Gateway.Served.{handle_chat_completions-Metered}
use idlegrid.Gateway.Gone.{handle_chat_completions-gone}
use idlegrid.Store.Tx.Keeps.{final}
use idlegrid.Gateway.Reserved.{Leaves, handle_chat_completions-Leaves}

abbrev user_of : String → User
user_of email = record {
  email = email;
  role = "developer";
  password_hash = none;
  enrollment_code = none;
}

-- The node belongs to user 3.
abbrev binding : NodeBinding
binding = record {
  user_id = some 3;
  enrolled_at = some 10;
  last_seen = none;
  error_count = 0;
  bound_with_token = none;
}

abbrev demo : Db
demo = record {
  users =
      (1, user_of "platform@idlegrid.system")
      ∷ (2, user_of "dev@x.org")
      ∷ (3, user_of "owner@x.org")
      ∷ [];
  next_user = 4;
  api_keys = [];
  next_key = 1;
  nodes = ("n", binding) ∷ [];
  usage = [];
  accounts = [];
  ledger = [];
  prices = [];
  payouts = [];
  next_payout = 1;
  payments = [];
  device_codes = [];
  tokens = [];
  sessions = [];
}

abbrev chat : Request
chat = record {
  request_id = "r";
  user_id = some 2;
  node_id = "n";
  model = "llama";
  input_chars = 40;
}

abbrev hello : Outcome
hello = record {
  text = 104 ∷ 101 ∷ 108 ∷ 108 ∷ 111 ∷ [];
  status = "completed";
  prov_in = none;
  prov_out = some (pos 1);
}

demo-IsUnmetered : IsUnmetered (pos 10) chat hello false 1 demo
unfolding lookup string_discrete ℕ_discrete user_by_email owner_in_nodes estimate_tokens
demo-IsUnmetered = record {
  counts = refl;
  absent = refl;
  platform = (refl, λ w. cc);
  developer = λ w. cc;
  owner = λ w. cc;
  fresh = λ t a. refl;
}

finish_usage-Metered_example :
    Quiet
      (finish_usage (pos 10) true chat hello false)
      demo
      (λ _ d. Metered (pos 10) chat hello false 1 demo d)
finish_usage-Metered_example =
    finish_usage-Metered (pos 10) chat hello false 1 demo demo-IsUnmetered
      (gross_of_unreported chat hello (rates_in (pos 10) chat hello false demo) refl)

abbrev signals : List Signal
signals = event (chunk (some (104 ∷ 105 ∷ []))) ∷ event other ∷ []

abbrev nothing_yet : Outcome
nothing_yet = record { text = []; status = "completed"; prov_in = none; prov_out = none }

stream-collect_example :
    SameEnd (collect_response signals nothing_yet) (stream_response signals nothing_yet)
stream-collect_example = stream-collect signals nothing_yet refl

collect_response_ends_example :
    (r : End × Response) × (collect_response (signals ++ (timed_out ∷ [])) nothing_yet ≡ some r)
collect_response_ends_example = collect_response_ends signals timed_out [] nothing_yet tt

abbrev config : Config
config = record { api_keys = "root" ∷ []; billing = true; require_balance = true }

abbrev asks : ChatRequest
asks = record { model = "llama"; messages = 12 ∷ []; stream = false; max_tokens = none }

admit_guarded_example :
    Quiet
      (admit config (user 2) (some asks))
      demo
      (λ a d. (a ≡ verdict config 2 asks demo) × (d ≡ demo))
admit_guarded_example = admit_guarded config 2 asks demo refl refl (λ w. cc) refl

abbrev node : Node
node = record (blank "n") { models = "llama" ∷ []; last_seen = 100 }

abbrev idle : Outbound
idle = record { queue = []; closed = false }

abbrev hub : Hub
hub = record {
  registry = ("n", node) ∷ [];
  router = [];
  conns = ("n", idle) ∷ [];
  inflight = ("n", []) ∷ [];
}

-- One chunk, and a completion with the counts 3 and 1.
abbrev said : List Signal
said = event (chunk (some (104 ∷ 105 ∷ []))) ∷ event (complete (some (pos 3, pos 1))) ∷ []

abbrev around : Surroundings
around = record { now = 200; request_id = "r"; live = true; meanwhile = λ h. h; signals = said }

abbrev gathered : Outcome
gathered = record {
  text = 104 ∷ 105 ∷ [];
  status = "completed";
  prov_in = some (pos 3);
  prov_out = some (pos 1);
}

abbrev over : End
over = record { outcome = gathered; failed = false; sends_cancel = false }

abbrev asked : Request
asked = usage_request around (user 2) asks (charged 512 node) 12

asked-IsUnmetered : IsUnmetered (pos 10) asked gathered false 1 demo
unfolding lookup string_discrete ℕ_discrete user_by_email owner_in_nodes estimate_tokens
asked-IsUnmetered = record {
  counts = refl;
  absent = refl;
  platform = (refl, λ w. cc);
  developer = λ w. cc;
  owner = λ w. cc;
  fresh = λ t a. refl;
}

abbrev sent : Hub
sent = record {
  registry = ("n", charged 512 node) ∷ [];
  router = ("r", []) ∷ [];
  conns = ("n", record { queue = request_envelope "r" ∷ []; closed = false }) ∷ [];
  inflight = ("n", "r" ∷ []) ∷ [];
}

handle_chat_completions-Metered_example :
    Quiet (handle_chat_completions config (pos 10) around (user 2) (some asks) hub) demo (λ o d.
      (o ≡ (body (completion (104 ∷ 105 ∷ []) (pos 3) (pos 1)), returns (resolved "r" sent)))
      × Metered (pos 10) asked gathered false 1 demo d)
unfolding est_tokens input_chars sum_matching reserve choose consider better eligible contains send
    track add_id create insert lookup string_discrete collect_response gross_of billed_tokens
    gross_micro ceil_div estimate_tokens counts_match difference price_for ◌*ℤ◌ ◌-ℤ◌ ◌+ℤ◌ wrap64
    quot_ℤ float64
handle_chat_completions-Metered_example =
    handle_chat_completions-Metered config (pos 10) around (user 2) asks hub sent (charged 512 node)
      (("n", charged 512 node) ∷ []) (pos 512) 12 over (completion (104 ∷ 105 ∷ []) (pos 3) (pos 1))
      1 demo (admit_guarded config 2 asks demo refl refl (λ w. cc) refl) refl refl refl refl refl
      refl refl asked-IsUnmetered refl

abbrev without_store : Config
without_store = record { api_keys = "root" ∷ []; billing = false; require_balance = false }

abbrev outcome : Ending
outcome = (body (completion (104 ∷ 105 ∷ []) (pos 3) (pos 1)), returns (resolved "r" sent))

handle_chat_completions-Leaves_example :
    Leaves without_store (pos 10) around admin asks hub (λ x. refl) outcome
unfolding handle_chat_completions admit relay_loop est_tokens input_chars reserve choose consider
    better eligible contains send track add_id create insert lookup string_discrete collect_response
    pure ◌>>=◌
handle_chat_completions-Leaves_example =
    handle_chat_completions-Leaves without_store (pos 10) around admin asks hub (λ x. refl) [] demo
      outcome refl

-- The client has left, and the provider's text is lost.
abbrev deserted : Surroundings
deserted = record around { live = false }

handle_chat_completions-gone_example :
    final (handle_chat_completions config (pos 10) deserted (user 2) (some asks) hub [] demo) ≡ demo
handle_chat_completions-gone_example =
    handle_chat_completions-gone config (pos 10) deserted demo refl (user 2) (some asks) hub []
