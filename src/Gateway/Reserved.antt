-- ===== src/Gateway/Reserved.antt =====
-- What a request leaves in the hub when it is over (`handleChatCompletions` of coordinator/internal/server/gateway.go).
use idlegrid.Prelude.{
  ℕ, ◌≡◌, ◌⊎◌, inl, inr, refl, subst, ◌∙◌, ℤ, Bool, true, false, Bool-cases, Option, Option-cases,
  none, some, List, String, lookup, string_discrete, lookup-erase_self,
}
use idlegrid.Registry.{Node, Registry, reserve}
use idlegrid.Limit.{Caller}
use idlegrid.Hub.{
  Hub, Envelope, Outbound, Run, returns, panics, send, track, push, has_room, is_request,
  tracked_ids, resolve,
}
use idlegrid.Store.Tables.{Db}
use idlegrid.Store.Tx.{Tx, ok}
use idlegrid.Store.Tx.Yields.{Yields, Yields-pure, Yields-bind}
use idlegrid.Gateway.Admit.{Config, ChatRequest, Admission, rejected, admitted, admit}
use idlegrid.Gateway.Usage.{Request}
use idlegrid.Gateway.Await.{Response, Frame, End}
use idlegrid.Gateway.Chat.{
  Reaction, status, body, frames, waiting, Surroundings, request_envelope, cancel_envelope,
  tokens_of, reserved, resolved, usage_request, cancelled, Ending, after_cancel, finish, collected,
  streamed, relay_loop, dispatched, scheduled, after_admission, handle_chat_completions,
}

-- The registry is still the given one.
abbrev SameRegistry : Registry → Run (Bool × Hub) → Type 0
SameRegistry r panics = Unit
SameRegistry r (returns (b, h)) = h.registry ≡ r

abbrev KeepsRegistry : Registry → Run Hub → Type 0
KeepsRegistry r panics = Unit
KeepsRegistry r (returns h) = h.registry ≡ r

push-registry :
    (id : String) (env : Envelope) (out : Outbound) (h : Hub) (r : Registry)
    → h.registry ≡ r
    → SameRegistry r (push id env out h)
push-registry id env out h r e = elim (Bool-cases out.closed) [
  | inl c ↦ rw c tt
  | inr c ↦ elim (Bool-cases (has_room out.queue)) [ inl f ↦ rw c (rw f e) | inr f ↦ rw c (rw f e) ]
]

tracked-registry :
    (id j : String) (h : Hub) (o : Option (List String))
    → KeepsRegistry h.registry (tracked_ids id j h o)
tracked-registry id j h none = tt
tracked-registry id j h (some ids) = refl

track-registry :
    (id : String) (env : Envelope) (h : Hub) → KeepsRegistry h.registry (track id env h)
unfolding track
track-registry id env h = elim (Option-cases env.request_id) [
  | inl e ↦ rw (e, track) refl
  | inr (j, e) ↦ elim (Bool-cases (is_request env.type)) [
    | inl t ↦ rw (e, track) (rw t (tracked-registry id j h _))
    | inr t ↦ rw (e, track) (rw t refl)
  ]
]

pushed-registry :
    (id : String) (env : Envelope) (out : Outbound) (r : Registry) (t : Run Hub)
    → KeepsRegistry r t
    → SameRegistry r (elim t [ panics ↦ panics | returns h' ↦ push id env out h' ])
pushed-registry id env out r panics k = tt
pushed-registry id env out r (returns h) k = push-registry id env out h r k

send-registry : (id : String) (env : Envelope) (h : Hub) → SameRegistry h.registry (send id env h)
unfolding send
send-registry id env h = elim (Option-cases (lookup string_discrete id h.conns)) [
  | inl e ↦ rw (e, send) refl
  | inr (out, e) ↦
      rw (e, send)
        (pushed-registry id env out h.registry (track id env h) (track-registry id env h))
]

-- The registry is the reserved one and, unless the handler still waits, the request has no event channel; nothing is
-- said after a panic.
abbrev pub Charged : String → Registry → Ending → Type 0
Charged id r (reaction, panics) = Unit
Charged id r (reaction, returns h) =
    (h.registry ≡ r) × ((reaction ≡ waiting) ⊎ (lookup string_discrete id h.router ≡ none))

module _ (g : Config) (fee : ℤ) (e : Surroundings) (q : Request) (r : Registry) where
  abbrev Over : Ending → Type 0
  Over = Charged e.request_id r

  over_lem :
      (reaction : Reaction) (h : Hub)
      → h.registry ≡ r
      → Over (reaction, returns (resolved e.request_id h))
  unfolding resolve
  over_lem reaction h k = (k, inr (lookup-erase_self string_discrete e.request_id h.router))

  ended-Yields :
      (end : End) (reaction : Reaction) (t : Run Hub)
      → KeepsRegistry r t
      → Yields Over (after_cancel g fee e q end reaction t)
  ended-Yields end reaction panics k = Yields-pure Over _ tt
  ended-Yields end reaction (returns h) k =
      Yields-bind Over _ (λ _. Yields-pure Over _ (over_lem reaction h k))

  sent_registry :
      (t : Run (Bool × Hub))
      → SameRegistry r t
      → KeepsRegistry r (elim t [ panics ↦ panics | returns x ↦ returns x.1 ])
  sent_registry panics k = tt
  sent_registry (returns (b, h)) k = k

  cancel_registry :
      (b : Bool) (id : String) (h : Hub)
      → h.registry ≡ r
      → KeepsRegistry r (cancelled b id e.request_id h)
  cancel_registry false id h k = k
  cancel_registry true id h k = sent_registry (send id (cancel_envelope e.request_id) h) (
      subst (λ (x : Registry). SameRegistry x (send id (cancel_envelope e.request_id) h)) k
        (send-registry id (cancel_envelope e.request_id) h))

  finish-Yields :
      (h : Hub) (end : End) (reaction : Reaction)
      → h.registry ≡ r
      → Yields Over (finish g fee e q h end reaction)
  finish-Yields h end reaction k =
      ended-Yields end reaction _ (cancel_registry end.sends_cancel q.node_id h k)

  collected-Yields :
      (h : Hub) (o : Option (End × Response))
      → h.registry ≡ r
      → Yields Over (collected g fee e q h o)
  collected-Yields h none k = Yields-pure Over _ (k, inl refl)
  collected-Yields h (some (end, resp)) k = finish-Yields h end (body resp) k

  streamed-Yields :
      (h : Hub) (o : Option (End × List Frame))
      → h.registry ≡ r
      → Yields Over (streamed g fee e q h o)
  streamed-Yields h none k = Yields-pure Over _ (k, inl refl)
  streamed-Yields h (some (end, fr)) k = finish-Yields h end (frames fr) k

  relay-Yields :
      (stream : Bool) (h : Hub) → h.registry ≡ r → Yields Over (relay_loop g fee e q stream h)
  unfolding relay_loop
  relay-Yields true h k = streamed-Yields h _ k
  relay-Yields false h k = collected-Yields h _ k

  dispatched-Yields :
      (stream : Bool) (t : Run (Bool × Hub))
      → ((x : Hub) → (e.meanwhile x).registry ≡ x.registry)
      → SameRegistry r t
      → Yields Over (dispatched g fee e q stream t)
  dispatched-Yields stream panics calm k = Yields-pure Over _ tt
  dispatched-Yields stream (returns (true, h)) calm k =
      relay-Yields stream (e.meanwhile h) (calm h ∙ k)
  dispatched-Yields stream (returns (false, h)) calm k =
      Yields-bind Over _ (λ _. Yields-pure Over _ (over_lem (status 502) h k))

module _ (g : Config) (fee : ℤ) (e : Surroundings) (caller : Caller) (req : ChatRequest) (h : Hub)
    (calm : (x : Hub) → (e.meanwhile x).registry ≡ x.registry) where
  -- The hub is as it was, or a reservation was made that still stands.
  abbrev pub Leaves : Ending → Type 0
  Leaves o =
      (o.1 ≡ returns h)
      ⊎ ((est : ℤ) × (n : Node) × (r : Registry) × (reserve e.now req.model (tokens_of est)
              h.registry
            ≡ (some n, r))
          × Charged e.request_id r o)

  over-Leaves :
      (est : ℤ) (n : Node) (r : Registry)
      → reserve e.now req.model (tokens_of est) h.registry ≡ (some n, r)
      → (m : Tx Ending) → Yields (Charged e.request_id r) m
      → Yields Leaves m
  over-Leaves est n r k m y = record {
    from = λ fs db a ends. inr (est, n, r, k, y.from fs db a ends);
  }

  scheduled-Yields :
      (est : ℤ) (chars : ℕ) (t : Option Node × Registry)
      → reserve e.now req.model (tokens_of est) h.registry ≡ t
      → Yields Leaves (scheduled g fee e caller req chars h t)
  scheduled-Yields est chars (none, r) k = Yields-pure Leaves _ (inl refl)
  scheduled-Yields est chars (some n, r) k = over-Leaves est n r k _ (
      dispatched-Yields g fee e (usage_request e caller req n chars) r req.stream _ calm
        (send-registry n.id (request_envelope e.request_id) (reserved r e.request_id h)))

  admitted-Yields : (a : Admission) → Yields Leaves (after_admission g fee e caller req h a)
  admitted-Yields (rejected code) = Yields-pure Leaves _ (inl refl)
  admitted-Yields (admitted est chars) = scheduled-Yields est chars _ refl

  -- Whatever fails in the driver and however the request ends, with the other goroutines leaving the registry alone:
  -- the hub is as it was before the request, or the registry still has the reservation that was made for it, and
  -- the request has no event channel unless the handler still waits. After a panic nothing is said.
  pub handle_chat_completions-Leaves :
      (fs : List Bool) (db : Db) (o : Ending)
      → (handle_chat_completions g fee e caller (some req) h fs db).0 ≡ ok o
      → Leaves o
  unfolding handle_chat_completions
  handle_chat_completions-Leaves fs db o ends =
      (Yields-bind Leaves (admit g caller (some req)) admitted-Yields).from fs db o ends
