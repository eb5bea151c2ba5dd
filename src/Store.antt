-- ===== src/Store.antt =====
-- src/vault/depositorStore.ts, over the tables of src/stateStore.ts.
mod Rows
mod Monad
mod Users
mod Shares
mod Journal
mod Deposits
mod Withdrawals
mod Whitelist
unfoldable pub use Rows.*
unfoldable pub use Monad.*
unfoldable pub use Users.*
unfoldable pub use Shares.*
unfoldable pub use Journal.*
unfoldable pub use Deposits.*
unfoldable pub use Withdrawals.*
unfoldable pub use Whitelist.*
