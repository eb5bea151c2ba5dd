-- ===== src/StateStore/Tests.antt =====
-- Flags and rebalances at concrete inputs.
use bert_mm_bot.Prelude.{ℕ, ◌+◌, ◌/◌, ◌≡◌, ◌≢◌, ◌⊎◌, true, [], ◌∷◌, none}
use bert_mm_bot.StateStore.{
  BotDb, RebalanceRecord, is_degraded, set_degraded, get_rebalances_today, record_rebalance, day_ms,
}
use bert_mm_bot.StateStore.Laws.{is_degraded-set, rebalances-record}

abbrev noon : ℕ
noon = 43200000

abbrev first_move : RebalanceRecord ℕ
first_move = record { ts = noon; old_center_usd = 0; new_center_usd = 5; fees_collected_usd = 0 }

abbrev bot_db : BotDb ℕ
bot_db = record {
  position_state = none;
  rebalance_log = first_move ∷ [];
  flags = record { key = "degraded"; value = "1"; updated_at = 3; reason = none } ∷ [];
  operator_actions = [];
}

is_degraded-set_example : is_degraded (set_degraded true "drawdown" 9 bot_db) ≡ true
is_degraded-set_example = is_degraded-set true "drawdown" 9 bot_db

rebalances-record_example :
    let before = get_rebalances_today (noon + 5) bot_db in
    let after = get_rebalances_today (noon + 5) (record_rebalance first_move bot_db) in
    ((noon + 5) / day_ms ≡ noon / day_ms) × (after ≡ before + 1)
    ⊎ ((noon + 5) / day_ms ≢ noon / day_ms) × (after ≡ before)
rebalances-record_example = rebalances-record (noon + 5) first_move bot_db
