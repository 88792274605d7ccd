-- ===== src/Gateway.antt =====
-- The developer-facing API of coordinator/internal/server/gateway.go.
pub mod Usage
pub mod Metering
pub mod Await
pub mod Admit
pub mod Api
pub mod Unwrap
pub mod Chat
pub mod Served
pub mod Gone
pub mod Reserved
mod Tests
mod UnwrapTests
