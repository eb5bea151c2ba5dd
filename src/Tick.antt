-- ===== src/Tick.antt =====
-- src/vault/tick.ts and src/vault/flags.ts. The deposit watcher and the withdrawal executor are what `deps` passes
-- in; of the flags table the key and the value count.
pub mod Laws
mod Tests
use bert_mm_bot.Prelude.{
  ℕ, String, Bool, not, ◌&&◌, List, [], ◌∷◌, Option, none, some, str_eq, if◌then◌else◌,
}
use bert_mm_bot.Store.{
  Db, Action, Result, Thrown, exec, gets, pure, throw, of_result, try_catch, for_each, when, ◌>>=◌,
  ◌>>◌, VaultUser, PendingWhitelistChange, whitelist_activated, list_users, write_audit,
}
use bert_mm_bot.Cooldowns.{activate_due}

abbrev pub vault_paused_flag : String
vault_paused_flag = "vault_paused"

abbrev pub value_of : String → List (String × String) → Option String
value_of key [] = none
value_of key (f ∷ fs) = if str_eq f.0 key then some f.1 else value_of key fs

abbrev pub without : String → List (String × String) → List (String × String)
without key [] = []
without key (f ∷ fs) = let rest = without key fs in if str_eq f.0 key then rest else f ∷ rest

abbrev pub is_one : Option String → Bool
is_one none = str_eq "" "1"
is_one (some v) = str_eq v "1"

module _ {F : Type 0} where
  -- `StateStore.getFlag` and `StateStore.setFlag`
  unfoldable pub get_flag : String → Db F → Option String
  get_flag key d = value_of key d.flags

  unfoldable pub set_flag : (key value : String) → Action F (Unit {0})
  set_flag key value = exec (λ d. record d { flags = (key, value) ∷ without key d.flags })

  unfoldable pub is_vault_paused : Db F → Bool
  unfolding get_flag
  is_vault_paused d = is_one (get_flag vault_paused_flag d)

-- The reads of SQLite outside every `try` may throw: `list_users_throws` and `get_flag_throws` are what `listUsers`
-- and `getFlag` throw, if they do, and `is_degraded` is what `isDegraded` answers or throws. `isKilled` reads a
-- variable. `now` is read once for the activation and once for each row that it logs.
pub record VaultTickDeps (F : Type 0) : Type 0 where
  pub list_users_throws : Option Thrown
  pub get_flag_throws : Option Thrown
  pub is_degraded : Result Bool
  pub is_killed : Bool
  pub poll_address : String → Action F (Unit {0})
  pub drain : Action F (Unit {0})
  pub now : ℕ
  pub logged_at : ℕ

module _ {F : Type 0} where
  -- A read that may throw.
  abbrev pub read : {A : Type 0} → Option Thrown → (Db F → A) → Action F A
  read none f = gets f
  read (some e) f = throw e

  -- `try { m } catch { log }`
  abbrev pub swallow : Action F (Unit {0}) → Action F (Unit {0})
  swallow m = try_catch m (λ _. pure tt)

  unfoldable pub run_vault_pre_rebalance : VaultTickDeps F → Action F (Unit {0})
  run_vault_pre_rebalance deps = do
    users ← read deps.list_users_throws list_users
    for_each (λ u. swallow (deps.poll_address u.deposit_address)) users

  abbrev pub is_healthy : VaultTickDeps F → (degraded paused : Bool) → Bool
  is_healthy deps degraded paused = not degraded && not deps.is_killed && not paused

  unfoldable pub drain_when_healthy : VaultTickDeps F → Action F (Unit {0})
  drain_when_healthy deps = do
    paused ← read deps.get_flag_throws is_vault_paused
    degraded ← of_result deps.is_degraded
    when (is_healthy deps degraded paused) (swallow deps.drain)

  abbrev pub log_activated : ℕ → PendingWhitelistChange → Action F (Unit {0})
  log_activated at row =
      write_audit at (some row.telegram_id)
        (whitelist_activated row.id row.old_address row.new_address)

  unfoldable pub activate_and_log : VaultTickDeps F → Action F (Unit {0})
  activate_and_log deps =
      swallow
        (do activated ← activate_due deps.now; for_each (log_activated deps.logged_at) activated)

  unfoldable pub run_vault_post_rebalance : VaultTickDeps F → Action F (Unit {0})
  run_vault_post_rebalance deps = do drain_when_healthy deps; activate_and_log deps

  unfoldable pub run_vault_tick : VaultTickDeps F → Action F (Unit {0})
  run_vault_tick deps = do
    users ← read deps.list_users_throws list_users
    for_each (λ u. swallow (deps.poll_address u.deposit_address)) users
    drain_when_healthy deps
    activate_and_log deps
