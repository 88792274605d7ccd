-- ===== src/Hub/Register.antt =====
-- The first frame of a provider (`HandleWS` of coordinator/internal/server/hub.go), and what its heartbeats tell the
-- store.
use idlegrid.Prelude.{
  ℕ, Bool, true, false, not, ◌&&◌, Option, none, some, ℤ, String, ite, if◌then◌else◌,
  string_discrete,
}
use idlegrid.Registry.{Profile}
use idlegrid.Hub.{Hub, Envelope, MessageType, heartbeats, connect, read_event}
use idlegrid.Store.Tx.{Tx, Result, ok, err, ◌>>=◌, pure}
use idlegrid.Store.Tx.Quiet.{attempt}
use idlegrid.Store.Enroll.{bind_node}
use idlegrid.Store.Accounts.{enroll_node, touch_node}
use idlegrid.Store.Device.{resolve_provider_token}

-- `protocol.Register`.
pub record Registration : Type 0 where
  pub node_id : String
  pub profile : Profile
  pub join_code : String
  pub auth_token : String
  pub enrollment_code : String

-- The reply: `RegisterDenied`, or `RegisterOK` with `EnrolledTo`; or the connection is closed without one.
pub data Welcome : Type 0 where
  hung_up denied : Welcome
  accepted : String → String → Welcome

abbrev pub is_blank : String → Bool
is_blank s = ite (string_discrete s "") true false

abbrev pub bound : String → Result (Unit {0}) → Tx String
bound email (ok _) = pure email
bound email (err e) = pure ""

abbrev pub with_token : ℕ → String → String → Result ((ℕ × String) × Bool) → Tx String
with_token now node_id token_hash (ok ((owner, email), true)) =
    attempt (bind_node now owner node_id token_hash) >>= bound email
with_token now node_id token_hash (ok ((owner, email), false)) = pure ""
with_token now node_id token_hash (err e) = pure ""

-- The switch that binds the node to an account: the email for a provider token, the empty text else.
unfoldable pub enroll : (String → String) → Bool → ℕ → String → Registration → Tx String
unfolding resolve_provider_token bind_node enroll_node attempt pure ◌>>=◌
enroll hash_key billing now node_id reg =
    if not billing
    then pure ""
    else if not (is_blank reg.auth_token)
    then (attempt (resolve_provider_token (hash_key reg.auth_token))
        >>= with_token now node_id (hash_key reg.auth_token))
    else if not (is_blank reg.enrollment_code)
    then (attempt (enroll_node now reg.enrollment_code node_id) >>= λ _. pure "")
    else pure ""

abbrev pub node_id_of : String → Registration → String
node_id_of new_id reg = if is_blank reg.node_id then new_id else reg.node_id

abbrev pub admit_node :
    (String → String) → Bool → ℕ → ℕ → String → Registration → Hub → Tx (Welcome × Hub)
admit_node hash_key billing now seconds node_id reg h =
    enroll hash_key billing seconds node_id reg >>= λ email.
    pure (accepted node_id email, connect now node_id reg.profile h)

-- `HandleWS` up to its read loop, of a first frame that decodes as a register (`none` for another); `new_id` is a new
-- random id. The table of nodes gets the node before the store is asked, the other maps after that.
unfoldable pub handle_ws :
    (String → String)
    → Bool
    → String
    → ℕ
    → ℕ
    → String
    → Option Registration
    → Hub
    → Tx (Welcome × Hub)
unfolding enroll connect pure ◌>>=◌
handle_ws hash_key billing join_code now seconds new_id none h = pure (hung_up, h)
handle_ws hash_key billing join_code now seconds new_id (some reg) h =
    if not (is_blank join_code) && not (ite (string_discrete reg.join_code join_code) true false)
    then pure (denied, h)
    else admit_node hash_key billing now seconds (node_id_of new_id reg) reg h

abbrev touches : MessageType → Option ℤ → Bool
touches heartbeats (some depth) = true
touches _ _ = false

-- One round of `readLoop` with the store: a heartbeat that decodes refreshes the node's row, an error is dropped.
unfoldable pub read_round : Bool → ℕ → ℕ → String → Envelope → Hub → Tx Hub
unfolding touch_node attempt pure ◌>>=◌
read_round billing now seconds node_id env h =
    if billing && touches env.type env.queue_depth
    then (attempt (touch_node seconds node_id) >>= λ _. pure (read_event now node_id env h))
    else pure (read_event now node_id env h)
