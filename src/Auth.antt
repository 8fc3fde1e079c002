-- ===== src/Auth.antt =====
-- The accounts of the service (internal/auth).
pub mod Types
pub mod Registration
pub mod Verification
pub mod Sessions
pub mod Passwords
pub mod Calls
pub mod Atomic
pub mod Attempts
pub mod Verified
