-- ===== src/Hub.antt =====
-- Provider connections: coordinator/internal/server/hub.go and router.go.
-- A Go channel of capacity 256 is a queue with a flag for closed. A channel stands where its map holds it:
-- the hub reaches an outbound queue through the node id alone, and a request id, drawn at random, gets
-- its event channel once. A send on a closed channel and a second close panic. What the connection's own goroutines
-- read and write, and the log, are not modelled.
pub mod Failure
pub mod Register
pub mod Welcomed
mod Tests
use idlegrid.Prelude.{
  ℕ, ◌+◌, Bool, true, false, not, ◌&&◌, Option, none, some, List, [], ◌∷◌, ◌++◌, String, ite, ℤ,
  ltb, length, if◌then◌else◌, lookup, insert, erase, string_discrete,
}
use idlegrid.Registry.{Registry, Profile, register, heartbeat, unregister, sweep, contains}

-- The types of messages that the hub tells apart (protocol/messages.go).
pub data MessageType : Type 0 where
  heartbeats inference_accepted inference_chunk inference_complete inference_error inference_request
        cancel other :
      MessageType

-- An envelope, with what the hub decodes of its payload (`none` where that fails).
pub record Envelope : Type 0 where
  pub type : MessageType
  pub request_id : Option String
  pub queue_depth : Option ℤ
  pub text : String

abbrev pub capacity : ℕ
capacity = 256

-- `Router`: the event queue of each request that a handler waits for.
abbrev pub Router : Type 0
Router = List (String × List Envelope)

-- `Router.Create`.
unfoldable pub create : String → Router → Router
create id rt = insert string_discrete id [] rt

-- `Router.Resolve`.
unfoldable pub resolve : String → Router → Router
resolve id rt = erase string_discrete id rt

abbrev pub has_room : List Envelope → Bool
has_room q = ltb (length q) capacity

abbrev deliver_to : String → Envelope → Router → Option (List Envelope) → Bool × Router
deliver_to id env rt none = (false, rt)
deliver_to id env rt (some q) =
    if has_room q then (true, insert string_discrete id (q ++ (env ∷ [])) rt) else (false, rt)

-- `Router.Deliver`.
unfoldable pub deliver : String → Envelope → Router → Bool × Router
deliver id env rt = deliver_to id env rt (lookup string_discrete id rt)

pub record Outbound : Type 0 where
  pub queue : List Envelope
  pub closed : Bool

-- `Hub`, with the registry and the router that it shares with the gateway.
pub record Hub : Type 0 where
  pub registry : Registry
  pub router : Router
  pub conns : List (String × Outbound)
  pub inflight : List (String × List String)

-- A call that may panic.
pub data Run (A : Type 0) : Type 0 where
  returns : A → Run A
  panics : Run A

-- The part of `HandleWS` that enters a provider, before its read loop.
unfoldable pub connect : ℕ → String → Profile → Hub → Hub
connect now node_id profile h = record h {
  registry = register now node_id profile h.registry;
  conns = insert string_discrete node_id (record { queue = []; closed = false }) h.conns;
  inflight = insert string_discrete node_id [] h.inflight;
}

abbrev pub is_request : MessageType → Bool
is_request inference_request = true
is_request _ = false

-- A request id that is added to a set of them.
unfoldable pub add_id : String → List String → List String
add_id id ids = if contains id ids then ids else id ∷ ids

abbrev pub tracked_ids : String → String → Hub → Option (List String) → Run Hub
tracked_ids node_id id h none = panics
tracked_ids node_id id h (some ids) =
    returns (record h { inflight = insert string_discrete node_id (add_id id ids) h.inflight })

-- `h.inflight[nodeID][req.RequestID] = true`, of a request that decodes; a write to a nil map panics.
unfoldable pub track : String → Envelope → Hub → Run Hub
unfolding add_id
track node_id env h = elim env.request_id [
  | none ↦ returns h
  | some id ↦
      if is_request env.type
      then tracked_ids node_id id h (lookup string_discrete node_id h.inflight)
      else returns h
]

abbrev pub push : String → Envelope → Outbound → Hub → Run (Bool × Hub)
push node_id env out h =
    if out.closed
    then panics
    else if has_room out.queue
    then returns (
      true,
      record h {
        conns =
            insert string_discrete node_id (record out { queue = out.queue ++ (env ∷ []) }) h.conns;
      },
    )
    else returns (false, h)

-- `Send`.
unfoldable pub send : String → Envelope → Hub → Run (Bool × Hub)
unfolding track
send node_id env h = elim (lookup string_discrete node_id h.conns) [
  | none ↦ returns (false, h)
  | some out ↦ elim (track node_id env h) [ panics ↦ panics | returns h' ↦ push node_id env out h' ]
]

unfoldable pub remove_id : String → List String → List String
remove_id id [] = []
remove_id id (x ∷ xs) = ite (string_discrete x id) (remove_id id xs) (x ∷ remove_id id xs)

-- `clearInflight`: nothing happens where the node has no set.
unfoldable pub clear_inflight : String → String → Hub → Hub
unfolding remove_id
clear_inflight node_id id h = elim (lookup string_discrete node_id h.inflight) [
  | none ↦ h
  | some ids ↦ record h { inflight = insert string_discrete node_id (remove_id id ids) h.inflight }
]

-- `CloseNode`: the closed channel stays in the map.
unfoldable pub close_node : String → Hub → Run Hub
close_node node_id h = elim (lookup string_discrete node_id h.conns) [
  | none ↦ returns h
  | some out ↦
      if out.closed
      then panics
      else returns (record h {
        conns = insert string_discrete node_id (record out { closed = true }) h.conns;
      })
]

-- The envelope that `disconnect` delivers for a request of the node.
abbrev pub orphaned : String → Envelope
orphaned id = record {
  type = inference_error;
  request_id = some id;
  queue_depth = none;
  text = "provider disconnected mid-request";
}

unfoldable pub fail_all : List String → Router → Router
unfolding deliver
fail_all [] rt = rt
fail_all (id ∷ ids) rt = fail_all ids (deliver id (orphaned id) rt).1

abbrev pub orphans_of : Option (List String) → List String
orphans_of none = []
orphans_of (some ids) = ids

-- The maps after `disconnect` has removed the node from them.
abbrev pub removed : String → Hub → Hub
removed node_id h = record h {
  registry = unregister node_id h.registry;
  conns = erase string_discrete node_id h.conns;
  inflight = erase string_discrete node_id h.inflight;
}

abbrev fail_orphans : String → Hub → Hub
fail_orphans node_id h = record (removed node_id h) {
  router = fail_all (orphans_of (lookup string_discrete node_id h.inflight)) h.router;
}

-- `disconnect`: `close(out)` comes before the requests are failed.
unfoldable pub disconnect : String → Hub → Run Hub
unfolding fail_all
disconnect node_id h = elim (lookup string_discrete node_id h.conns) [
  | none ↦ returns (fail_orphans node_id h)
  | some out ↦ if out.closed then panics else returns (fail_orphans node_id h)
]

abbrev deliver_event : Envelope → Hub → Hub
deliver_event env h = elim env.request_id [
  | none ↦ h
  | some id ↦ record h { router = (deliver id env h.router).1 }
]

abbrev beat : ℕ → String → Envelope → Hub → Hub
beat now node_id env h = elim env.queue_depth [
  | none ↦ h
  | some depth ↦ record h { registry = heartbeat now node_id depth h.registry }
]

abbrev finish_event : String → Envelope → Hub → Hub
finish_event node_id env h = elim env.request_id [
  | none ↦ h
  | some id ↦ deliver_event env (clear_inflight node_id id h)
]

abbrev handle : ℕ → String → MessageType → Envelope → Hub → Hub
handle now node_id heartbeats env h = beat now node_id env h
handle now node_id inference_accepted env h = deliver_event env h
handle now node_id inference_chunk env h = deliver_event env h
handle now node_id inference_complete env h = finish_event node_id env h
handle now node_id inference_error env h = finish_event node_id env h
handle now node_id _ env h = h

-- One round of `readLoop`, without `TouchNode` on the store.
unfoldable pub read_event : ℕ → String → Envelope → Hub → Hub
unfolding deliver clear_inflight
read_event now node_id env h = handle now node_id env.type env h

unfoldable pub close_all : List String → Hub → Run Hub
unfolding close_node
close_all [] h = returns h
close_all (id ∷ ids) h = elim (close_node id h) [ panics ↦ panics | returns h' ↦ close_all ids h' ]

-- A tick of `StartSweeper`.
unfoldable pub sweep_tick : ℕ → Hub → Run Hub
unfolding close_all
sweep_tick now h =
    close_all (sweep now h.registry).0 (record h { registry = (sweep now h.registry).1 })
