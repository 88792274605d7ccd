-- ===== src/OpenRouter.antt =====
-- The catalogue for OpenRouter: coordinator/internal/server/openrouter.go.
pub mod Cost
pub mod Catalogue
mod Tests
