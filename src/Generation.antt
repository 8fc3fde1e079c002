-- ===== src/Generation.antt =====
-- The generation of cards (internal/generation).
pub mod Types
pub mod Catalog
pub mod Validation
pub mod Create
pub mod Prompt
pub mod Persistence
pub mod Cleanup
pub mod Worker
