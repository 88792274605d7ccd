-- ===== src/Lib.antt =====
-- Verification of the idlegrid coordinator: a marketplace that routes OpenAI-compatible chat requests to
-- provider machines, meters them and settles the money in a double-entry ledger.
--
-- The parts, and the files that model them. Paths are from the repository's root.
--   Money       coordinator/store/billing.go: PriceFor, GrossMicro, SplitProviderFee, EstimateTokens and
--               CountsMatch, on 64-bit integers with their wrap-around written out.
--   Registry    coordinator/internal/registry: the node table and its operations; the scheduler's
--               Reserve and Release. Time and the iteration order of the map are arguments.
--   Store       coordinator/store/postgres.go: the tables as association lists by their unique columns
--               (Tables), a call of the database as a function of a list of driver faults and the tables
--               (Tx), accounts and entries (Ledger), SettleRequest (Settle), BindNode (Enroll),
--               DodoCredit (Deposit), payouts (Payout), device codes and provider tokens (Device), users,
--               keys, sessions, prices and enrollment codes (Accounts), the lists that the console shows
--               (Listing), migrate of postgres.go (Migrate), and MemoryBilling of billing.go (Memory).
--               Settle/Books is the abstract view of a settlement: balances and settled requests, with
--               entries and tables forgotten.
--   Limit       coordinator/internal/server/ratelimit.go: the token buckets and the key of a caller. Amounts are
--               whole units of 1e-10 of a token, so the model has none of the rounding of float64.
--   E2e         coordinator/internal/e2e/e2e.go: Seal, Open, Sign, Verify and the texts of keys, over the
--               primitives as a record of functions with their laws.
--   Hub         coordinator/internal/server/hub.go and router.go: the maps of connections, of requests in
--               flight and of event queues, with what panics in Go (Hub); failures of a provider (Failure);
--               HandleWS up to the read loop, and heartbeats with the store (Register, Welcomed).
--   Gateway     coordinator/internal/server/gateway.go: withAuth and the admission of a request (Admit),
--               handleChatCompletions as a whole (Chat, Served, Reserved, Gone), unwrapE2E (Unwrap), the loops
--               of collectResponse and streamResponse (Await), finishUsage (Usage, Metering), and the
--               handlers for models, users, prices, usage and balances (Api).
--   Http        what the handlers share: replies, consoleStore, and the functions of other packages.
--   Console     coordinator/internal/server/console.go: sessions, login and the guards (Session, Access,
--               Password), a user's own account (Account, Isolation), and the admin's handlers (Admin, NewUser).
--   DeviceFlow  coordinator/internal/server/device.go: the endpoints of the device login (Api, Linking)
--               and the codes that users type (Code).
--   Topup       coordinator/internal/server/dodo.go: the checkout (Checkout) and the webhook (Webhook, Credits).
--   OpenRouter  coordinator/internal/server/openrouter.go: the catalogue and its prices as decimals.
--   Prelude     shared helpers: 64-bit integers, the rounding of float64, association lists, decisions on texts.
-- The gateway calls the registry to choose a node, the hub to reach it, and the store to record and settle
-- the request; a settlement credits the owner that an enrollment bound to the node, or the platform's
-- escrow. The hub binds a node by the provider token that a device login issued. The console and the webhook
-- change the same tables as the gateway does.
--
-- A statement of SQL is a function on the tables that the constraints of coordinator/store/migrations may
-- refuse. Any statement may fail in the driver: a list of faults says which do, and `Runs` states what holds
-- for every such list: the call ends with its postcondition, or with an error that a driver fault caused.
-- A transaction that ends in an error leaves the tables as they were. `Quiet` is for calls whose errors the
-- program drops: with no failure of the driver, the postcondition holds. `Under F` is for calls that recover from
-- a failure: a postcondition may say that a lookup was lost only where `F`, that some statement may fail,
-- holds. Calls are run one after another;
-- the interleaving of transactions is left to the database. What other goroutines do to the hub while a
-- request waits is an argument of that request. Every function ends by recursion on a list or a number; the
-- only fuel is the 7 digits beyond the 12 that a price is padded to, as an int64 has 19, the 7 bits by which
-- a product with 100 is longer than a float64, and 30 bits for the values of a cost, which are below 2^83.
--
-- Not modelled: JSON and HTTP, the route table and the start of the process, the SQL driver, the primitives
-- of cryptography, the canary loop, which is an HTTP client of the coordinator, the goroutines that move
-- bytes of one connection, the fake provider of the tests, the web console and
-- the Swift provider. The text of an error is modelled where the code writes it itself.
pub mod Prelude
pub mod Money
pub mod Registry
pub mod Store
pub mod Limit
pub mod E2e
pub mod Hub
pub mod Http
pub mod Gateway
pub mod Console
pub mod DeviceFlow
pub mod Topup
pub mod OpenRouter
