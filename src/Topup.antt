-- ===== src/Topup.antt =====
-- Payments through Dodo: coordinator/internal/server/dodo.go. JSON and HMAC-SHA256 with base64, and the call of Dodo's
-- API, are parameters.
pub mod Checkout
pub mod Webhook
pub mod Credits
mod Tests
