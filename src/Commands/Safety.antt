-- ===== src/Commands/Safety.antt =====
-- No handler of src/vault/commands.ts comes to a new withdrawal, a whitelist change or a cancellation without
-- the user's second factor.
pub mod Acts
pub mod Accounts
pub mod Funds
pub mod Answers
pub mod Inputs
