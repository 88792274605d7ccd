-- ===== src/DeviceFlow.antt =====
-- The device login of coordinator/internal/server/device.go.
pub mod Code
pub mod Api
pub mod Linking
mod Tests
