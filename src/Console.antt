-- ===== src/Console.antt =====
-- The console API of coordinator/internal/server/console.go: the guards on sessions, and the handlers behind
-- them. A request body arrives decoded, `none` where that fails; `now` is in nanoseconds.
pub mod Session
pub mod Account
pub mod Admin
pub mod Access
pub mod Password
pub mod Isolation
pub mod NewUser
mod Tests
