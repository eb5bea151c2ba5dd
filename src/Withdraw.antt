-- ===== src/Withdraw.antt =====
-- Withdrawals: src/vault/withdrawalExecutor.ts and the store operations of src/vault/operatorCommands.ts
-- that meet it.
pub mod Others
pub mod Executor
pub mod Frame
pub mod Safety
mod Tests
