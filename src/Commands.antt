-- ===== src/Commands.antt =====
-- src/vault/commands.ts: `CommandHandlers`, what a depositor can ask of the bot, and src/vault/enrollment.ts.
-- Keyboards and the wording of replies are left out: a reply is a constructor with the values in its text.
pub mod Chat
pub mod Enrollment
pub mod Gate
pub mod Account
pub mod Withdrawals
pub mod Whitelist
pub mod Messages
pub mod Keyboards
pub mod Router
pub mod Buttons
pub mod Inputs
pub mod Safety
mod Tests
