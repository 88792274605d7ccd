-- ===== src/Hub/Tests.antt =====
-- Runs of the hub with one connected provider.
use idlegrid.Prelude.{◌≡◌, refl, true, false, some, [], ◌∷◌, lookup, string_discrete}
use idlegrid.Registry.{contains}
use idlegrid.Hub.{Hub, Outbound, returns, panics, send, disconnect, close_node, orphaned}
use idlegrid.Hub.Failure.{close_node-disconnect, send-disconnect, request_of, waiting}
use idlegrid.Prelude.{pos}
use idlegrid.Store.Tables.{Db}
use idlegrid.Store.Tx.{query, recover, statement, pure, ◌>>=◌}
use idlegrid.Store.Tx.Quiet.{attempt}
use idlegrid.Store.Device.{token_user, resolve_provider_token}
use idlegrid.Hub.{connect}
use idlegrid.Hub.Register.{Registration, Welcome, accepted, enroll, handle_ws}
use idlegrid.Hub.Welcomed.{Welcomed, handle_ws-Welcomed}

abbrev idle : Outbound
idle = record { queue = []; closed = false }

abbrev hub : Hub
hub = record {
  registry = [];
  router = ("r", []) ∷ [];
  conns = ("n", idle) ∷ [];
  inflight = ("n", "r" ∷ []) ∷ [];
}

close_node-disconnect_example :
    (h' : Hub) × (close_node "n" hub ≡ returns h')
    × (disconnect "n" h' ≡ panics)
    × (h'.router ≡ hub.router)
unfolding lookup string_discrete
close_node-disconnect_example = close_node-disconnect "n" hub idle refl refl

send-disconnect_example :
    (h1 : Hub) × (h2 : Hub) × (send "n"
        (request_of "s" "{}")
        (waiting "n" "s" "{}" hub idle ("r" ∷ []))
      ≡ returns (true, h1))
    × (disconnect "n" h1 ≡ returns h2)
    × (lookup string_discrete "s" h2.router ≡ some (orphaned "s" ∷ []))
unfolding lookup string_discrete contains
send-disconnect_example =
    send-disconnect "n" "s" "{}" hub idle ("r" ∷ []) refl refl refl refl (refl, tt)

abbrev empty : Db
empty = record {
  users = [];
  next_user = 1;
  api_keys = [];
  next_key = 1;
  nodes = [];
  usage = [];
  accounts = [];
  ledger = [];
  prices = [];
  payouts = [];
  next_payout = 1;
  payments = [];
  device_codes = [];
  tokens = [];
  sessions = [];
}

abbrev hello : Registration
hello = record {
  node_id = "m";
  profile = record {
    name = "mac";
    chip = "M2";
    version = "1";
    memory_gb = pos 16;
    models = [];
    public_key = "";
    sign_key = "";
  };
  join_code = "join";
  auth_token = "unknown";
  enrollment_code = "";
}

abbrev let_in : Welcome × Hub
let_in = (accepted "m" "", connect 5 "m" hello.profile hub)

-- The join code is right and the token is not known.
handle_ws-Welcomed_example : Welcomed (λ s. s) "join" 5 "new" (some hello) hub empty let_in
unfolding handle_ws enroll resolve_provider_token token_user attempt query recover statement pure
    ◌>>=◌ lookup string_discrete
handle_ws-Welcomed_example =
    handle_ws-Welcomed (λ s. s) true "join" 5 0 "new" hello hub [] empty let_in refl
