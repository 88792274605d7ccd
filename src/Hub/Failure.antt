-- ===== src/Hub/Failure.antt =====
-- How failures of a provider reach the waiting handlers (coordinator/internal/server/hub.go).
use idlegrid.Prelude.{
  ◌≡◌, ◌≢◌, refl, ◌∙◌, arith, true, false, Bool-cases, Option-cases, none, some, List, [], ◌∷◌,
  ◌++◌, String, inl, inr, if_pos, lookup, insert, string_discrete, lookup-insert_self,
  lookup-insert_ne, lookup-erase_self,
}
use idlegrid.Registry.{contains}
use idlegrid.Hub.{
  inference_request, Envelope, Router, Outbound, Hub, returns, panics, create, deliver, has_room,
  orphaned, fail_all, removed, disconnect, close_node, send, track, add_id,
}

-- A set of ids lists each once.
abbrev pub Unique : List String → Type 0
Unique [] = Unit
Unique (x ∷ xs) = (contains x xs ≡ false) × Unique xs

lookup-deliver :
    (id j : String) (env : Envelope) (rt : Router)
    → id ≢ j
    → lookup string_discrete j (deliver id env rt).1 ≡ lookup string_discrete j rt
unfolding deliver
lookup-deliver id j env rt h = elim (Option-cases (lookup string_discrete id rt)) [
  | inl e ↦ rw (e, deliver) refl
  | inr (q, e) ↦ elim (Bool-cases (has_room q)) [
    | inl r ↦ rw (e, deliver) (rw r (lookup-insert_ne string_discrete id j _ rt h))
    | inr r ↦ rw (e, deliver) (rw r refl)
  ]
]

-- An event goes to the end of the queue of a handler that waits and has room.
pub deliver_waiting :
    (id : String) (env : Envelope) (rt : Router) (q : List Envelope)
    → lookup string_discrete id rt ≡ some q
    → has_room q ≡ true
    → lookup string_discrete id (deliver id env rt).1 ≡ some (q ++ (env ∷ []))
unfolding deliver
deliver_waiting id env rt q e r =
    rw (e, deliver) (rw r (lookup-insert_self string_discrete id _ rt))

fail_all_other :
    (j : String) (ids : List String) (rt : Router)
    → contains j ids ≡ false
    → lookup string_discrete j (fail_all ids rt) ≡ lookup string_discrete j rt
unfolding fail_all contains
fail_all_other j [] rt h = refl
fail_all_other j (id ∷ ids) rt h = elim (string_discrete id j) [
  | yes e ↦ absurd (ground arith)
  | no ne ↦
      fail_all_other j ids (deliver id (orphaned id) rt).1 (ground arith)
      ∙ lookup-deliver id j (orphaned id) rt ne
]

fail_all_lem :
    (j : String) (ids : List String) (rt : Router) (q : List Envelope)
    → Unique ids
    → contains j ids ≡ true
    → lookup string_discrete j rt ≡ some q
    → has_room q ≡ true
    → lookup string_discrete j (fail_all ids rt) ≡ some (q ++ (orphaned j ∷ []))
unfolding fail_all contains
fail_all_lem j [] rt q u h e r = absurd (cc)
fail_all_lem j (id ∷ ids) rt q u h e r = elim (string_discrete id j) [
  | yes same ↦
      fail_all_other j ids (deliver id (orphaned id) rt).1 (rw (← same) u.0)
      ∙ rw same (deliver_waiting j (orphaned j) rt q e r)
  | no ne ↦
      fail_all_lem j ids (deliver id (orphaned id) rt).1 q u.1 (ground arith)
        (lookup-deliver id j (orphaned id) rt ne ∙ e) r
]

module _ (node_id : String) (h : Hub) (out : Outbound) where
  -- When a provider whose channel is open disconnects, the hub does not panic, the provider is gone from its
  -- maps, and every handler that waits for one of the provider's requests and whose queue has room finds
  -- the error of that request at the end of its queue.
  pub disconnect_fails :
      (ids : List String) (id : String) (q : List Envelope)
      → lookup string_discrete node_id h.conns ≡ some out
      → out.closed ≡ false
      → lookup string_discrete node_id h.inflight ≡ some ids
      → Unique ids
      → contains id ids ≡ true
      → lookup string_discrete id h.router ≡ some q
      → has_room q ≡ true
      → (h' : Hub) × (disconnect node_id h ≡ returns h')
        × (lookup string_discrete node_id h'.conns ≡ none)
        × (lookup string_discrete id h'.router ≡ some (q ++ (orphaned id ∷ [])))
  unfolding disconnect
  disconnect_fails ids id q conn live set unique member waits room = (
    record (removed node_id h) { router = fail_all ids h.router },
    rw (conn, live, set, disconnect) refl,
    lookup-erase_self string_discrete node_id h.conns,
    fail_all_lem id ids h.router q unique member waits room,
  )

  -- `CloseNode` of a node whose channel is open, as the stale sweep calls it, leaves the queues of the waiting
  -- handlers as they are, and the node's own disconnect after it panics.
  pub close_node-disconnect :
      lookup string_discrete node_id h.conns ≡ some out
      → out.closed ≡ false
      → (h' : Hub) × (close_node node_id h ≡ returns h')
        × (disconnect node_id h' ≡ panics)
        × (h'.router ≡ h.router)
  unfolding close_node disconnect
  close_node-disconnect conn live = (
    record h { conns = insert string_discrete node_id (record out { closed = true }) h.conns },
    rw (conn, close_node) (rw live refl),
    rw
        (
          lookup-insert_self string_discrete node_id (record out { closed = true }) h.conns,
          disconnect,
        )
        refl,
    refl,
  )

add_id-Unique : (id : String) (ids : List String) → Unique ids → Unique (add_id id ids)
unfolding add_id
add_id-Unique id ids u = elim (Bool-cases (contains id ids)) [
  | inl e ↦ rw e u
  | inr e ↦ rw e (e, u)
]

contains-add_id : (id : String) (ids : List String) → contains id (add_id id ids) ≡ true
unfolding add_id contains
contains-add_id id ids = elim (Bool-cases (contains id ids)) [
  | inl e ↦ rw e e
  | inr e ↦ rw e (if_pos (string_discrete id id) refl _ _)
]

-- The request that the gateway sends for an id.
abbrev pub request_of : String → String → Envelope
request_of id text = record {
  type = inference_request;
  request_id = some id;
  queue_depth = none;
  text = text;
}

module _ (node_id id text : String) (h : Hub) (out : Outbound) (ids : List String) where
  abbrev pub waiting : Hub
  waiting = record h { router = create id h.router }

  abbrev sent : Hub
  sent = record waiting {
    conns =
        insert string_discrete node_id
          (record out { queue = out.queue ++ (request_of id text ∷ []) }) h.conns;
    inflight = insert string_discrete node_id (add_id id ids) h.inflight;
  }

  send_lem :
      lookup string_discrete node_id h.conns ≡ some out
      → out.closed ≡ false
      → has_room out.queue ≡ true
      → lookup string_discrete node_id h.inflight ≡ some ids
      → send node_id (request_of id text) waiting ≡ returns (true, sent)
  unfolding send track
  send_lem conn live room set = rw (conn, set, live, room, send)

  -- A request whose event queue is created before it is sent to a connected provider with room is not lost when
  -- that provider disconnects right after: its handler finds the error of the request, and nothing else, in
  -- its queue.
  pub send-disconnect :
      lookup string_discrete node_id h.conns ≡ some out
      → out.closed ≡ false
      → has_room out.queue ≡ true
      → lookup string_discrete node_id h.inflight ≡ some ids
      → Unique ids
      → (h1 : Hub) × (h2 : Hub) × (send node_id (request_of id text) waiting ≡ returns (true, h1))
        × (disconnect node_id h1 ≡ returns h2)
        × (lookup string_discrete id h2.router ≡ some (orphaned id ∷ []))
  unfolding create
  send-disconnect conn live room set unique =
      let (h2, gone, _, event) =
        disconnect_fails node_id sent
          (record out { queue = out.queue ++ (request_of id text ∷ []) }) (add_id id ids) id []
          (lookup-insert_self string_discrete node_id _ h.conns) live
          (lookup-insert_self string_discrete node_id _ h.inflight) (add_id-Unique id ids unique)
          (contains-add_id id ids) (lookup-insert_self string_discrete id [] h.router) refl in
      (sent, h2, send_lem conn live room set, gone, event)
