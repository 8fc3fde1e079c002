-- ===== src/Scenarios.antt =====
-- Runs on concrete data: one shop, its users and payments, and the theorems applied to them.
mod Shop
mod Webhooks
mod Limits
mod Checkouts
mod Accounts
mod Generations
