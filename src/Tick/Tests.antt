-- ===== src/Tick/Tests.antt =====
-- Ticks at concrete inputs: a poll that throws, and a vault that is paused.
use bert_mm_bot.Prelude.{ℕ, ◌≡◌, ◌⊎◌, refl, false, [], none, some}
use bert_mm_bot.Store.{
  World, Db, Thrown, ok, err, ◌>>◌, throw, sqlite, statement, fails, later, write_audit, and_then,
}
use bert_mm_bot.Tick.{
  VaultTickDeps, set_flag, run_vault_pre_rebalance, activate_and_log, run_vault_post_rebalance,
  run_vault_tick,
}
use bert_mm_bot.Tick.Laws.{
  ReadThrew, Drains, run_vault_tick_ends, drain_only_when_healthy, pause_stops_drain,
}
use bert_mm_bot.OperatorCommands.{handle_pause}

abbrev empty : Db ℕ
empty = record {
  users = [];
  shares = [];
  deposits = [];
  withdrawals = [];
  changes = [];
  navs = [];
  audit = [];
  flags = [];
  next_deposit = 1;
  next_withdrawal = 1;
  next_change = 1;
}

abbrev world : World ℕ
world = record { db = empty; faults = []; paid = [] }

abbrev throwing : VaultTickDeps ℕ
throwing = record {
  list_users_throws = none;
  get_flag_throws = none;
  is_degraded = ok false;
  is_killed = false;
  poll_address = λ a. throw sqlite;
  drain = throw sqlite;
  now = 10;
  logged_at = 11;
}

run_vault_tick_ends_example :
    (run_vault_tick throwing world
      ≡ (run_vault_pre_rebalance throwing >> run_vault_post_rebalance throwing) world)
    × (((run_vault_tick throwing world).0 ≡ ok tt)
        ⊎ ((e : Thrown) × ((throwing.list_users_throws ≡ some e) ⊎ ReadThrew throwing e)
            × ((run_vault_tick throwing world).0 ≡ err e)))
run_vault_tick_ends_example = run_vault_tick_ends throwing world

drain_only_when_healthy_example :
    ((e : Thrown) × ReadThrew throwing e
      × (run_vault_post_rebalance throwing world ≡ (err e, world)))
    ⊎ (throwing.get_flag_throws ≡ none) × Drains throwing world
drain_only_when_healthy_example = drain_only_when_healthy throwing world

pause_returns : (handle_pause 5 10 world).0 ≡ ok tt
unfolding handle_pause set_flag write_audit statement fails later and_then
pause_returns = refl

pause_stops_drain_example :
    (run_vault_post_rebalance throwing (handle_pause 5 10 world).1
      ≡ activate_and_log throwing (handle_pause 5 10 world).1)
    ⊎ ((e : Thrown) × ReadThrew throwing e
        × (run_vault_post_rebalance throwing (handle_pause 5 10 world).1
            ≡ (err e, (handle_pause 5 10 world).1)))
pause_stops_drain_example = pause_stops_drain 5 10 throwing world pause_returns
