-- ===== src/Withdraw/Safety.antt =====
-- The invariant of src/vault/withdrawalExecutor.ts that keeps it from paying a withdrawal twice, step by step.
pub mod Invariant
pub mod Unpaid
pub mod Books
pub mod Paid
pub mod Process
pub mod Rounds
pub mod Histories
