-- ===== src/Lib.antt =====
-- Verification of bert-mm-bot: a Telegram bot that runs a liquidity position on Solana and a vault in
-- which depositors hold shares of it.
--
-- The program's parts. A deposit goes from the watcher through the pipeline (sweep, then credit) into
-- the store. A message reaches a handler through the
-- commander, which checks the sender. A withdrawal is queued by a command, behind a code of the user's
-- authenticator, then drained in a tick of the main loop by the executor, which pays on the
-- chain and settles the books. Whitelist changes wait for a cooldown. Beside the vault, the strategy
-- decides from prices and the position whether the rebalancer moves the position. All state is in one
-- SQLite file; the vault's tables belong to the depositor store, the others to the state store.
--
-- Which file models what:
--   Prelude, Prelude/*     shared names, Boolean tests, tables as lists with their SQL statements
--   Amounts                JavaScript numbers, a parameter (`Arith`); Amounts/Fixed an instance to run
--   Store, Store/*         src/vault/depositorStore.ts, src/vault/types.ts, SCHEMA_SQL and withTransaction
--                          of src/stateStore.ts; one file for each group of tables
--   StoreLaws, StoreKeeps  rules for actions: what one does if it returns, what it keeps however it ends
--   ShareMath              src/vault/shareMath.ts, computeNav, computeVaultStats of src/vault/navSnapshot.ts
--   RateLimiter            src/vault/rateLimiter.ts
--   CreditEngine           src/vault/creditEngine.ts
--   Withdraw/Executor      src/vault/withdrawalExecutor.ts
--   Withdraw/Others        what other tasks do at an await, with handleForceProcess of
--                          src/vault/operatorCommands.ts
--   OperatorCommands       the other commands of src/vault/operatorCommands.ts
--   Tick                   src/vault/tick.ts, src/vault/flags.ts
--   DepositWatcher         src/vault/depositWatcher.ts
--   Text, Totp             JavaScript texts; src/vault/totp.ts
--   Commands/Chat          the state of src/vault/commands.ts and what it uses of the outside
--   Commands/Enrollment    src/vault/enrollment.ts
--   Commands/Gate          the lockout, the codes and the unlock of src/vault/commands.ts; Gate/Guards,
--                          Forward, Rules, Answers, Checks and Needs are the rules for what needs a second factor
--   Commands/Account, Withdrawals, Whitelist, Messages   its handlers
--   Commands/Router, Keyboards   src/vault/uiCallbacks.ts, src/vault/uiKeyboards.ts
--   Commands/Inputs        the wiring of the handlers in src/main.ts
--   Commands/Safety        the handlers and the second factor
--   Commands/Buttons       the buttons and the router
--   Commander, Commander/Polling   src/telegramCommander.ts
--   TxSubmitter            src/txSubmitter.ts
--   Withdraw/Frame, Safety the invariant of the executor: what each step may change, then each stage
--   Sweeper                src/vault/sweeper.ts
--   DepositPipeline        src/vault/depositPipeline.ts
--   Cooldowns              src/vault/cooldowns.ts
--   Strategy, PriceOracle, Reconciler   src/strategy.ts, computeTrustedMid of src/priceOracle.ts,
--                          src/reconciler.ts
--   StateStore             the bot's own tables of src/stateStore.ts
--   Rebalancer             src/rebalancer.ts
-- Functions keep their names in snake_case, records those of the source's interfaces. A function that
-- is long in the source is a chain of helpers, each named for the stage that it is.
--
-- How the code is modelled. An operation on the store is an action: from a world (database, schedule
-- of failing statements, transfers seen by the chain) to a value or an exception and the new world. A
-- transaction that throws restores the database; what an action wrote outside one stays. The answers
-- of the network, the oracle, the clock and the libraries are parameters, in one record for each
-- component, and so is the list of what other tasks do at each await of the vault's code. Times are
-- natural numbers of milliseconds. Doubles are a type with the operations that the code calls and no
-- laws. No recursion needs fuel: loops run over lists of rows.
--
-- A chat handler is such an action on the chat's state (the pending actions, the unlocks, the rate
-- limiter, the world, the replies); a moment counts its clock readings and awaits, and what the rest
-- of the process does to the world at an await is a parameter. A reply is a constructor with the
-- values in its text.
--
-- Not modelled: texts and labels for people, logging, network clients, encryption, the parsing of numbers
-- in operator commands, start-up, configuration and the main loop. A price oracle's null, the exceptions
-- of calls to the outside and the refusal of a statement that writes are modelled. A read may throw in the
-- model of src/vault/tick.ts; elsewhere reads do not fail. A crash of the process between two statements is
-- not modelled. A submission of the executor and of the rebalancer is a run of src/txSubmitter.ts: it says
-- what it answered and how often the transaction landed, and neither is tied to the other. What
-- other tasks do at an await of a chat handler is not tied to the models of those tasks.
pub mod Prelude
pub mod Amounts
pub mod ShareMath
pub mod Store
pub mod StoreLaws
pub mod RateLimiter
pub mod CreditEngine
pub mod Sweeper
pub mod StoreKeeps
pub mod DepositPipeline
pub mod Cooldowns
pub mod Strategy
pub mod Reconciler
pub mod PriceOracle
pub mod StateStore
pub mod Rebalancer
pub mod Withdraw
pub mod Text
pub mod Totp
pub mod Commands
pub mod Commander
pub mod Tick
pub mod OperatorCommands
pub mod TxSubmitter
pub mod DepositWatcher
