-- ===== src/Rebalancer/Tests.antt =====
-- A rebalance of a concrete position.
use bert_mm_bot.Prelude.{ℕ, true, false, [], none}
use bert_mm_bot.Amounts.Fixed.{fixed_arith}
use bert_mm_bot.Store.{ok}
use bert_mm_bot.Strategy.{MidPrice, PositionSnapshot}
use bert_mm_bot.Rebalancer.{RebalanceConfig, RebalanceAnswers, Bot}

abbrev cfg : RebalanceConfig ℕ
cfg = record {
  max_rebalances_per_day = 3;
  max_drawdown_pct = 15000000;
  range_width_pct = 40000000;
  max_position_usd = 500000000;
  min_sol_floor_lamports = 100000000;
  dry_run = false;
}

abbrev mid : MidPrice ℕ
mid = record { bert_per_sol = 0; bert_usd = 20000; sol_usd = 150000000; ts = 5; sources = [] }

abbrev position : PositionSnapshot ℕ
position = record {
  nft_mint = "Old";
  range = record {
    lower_bert_usd = 8000;
    upper_bert_usd = 12000;
    center_bert_usd = 10000;
    width_pct = 40000000;
  };
  bert_amount = 1;
  sol_amount = 1;
  uncollected_fees_bert = 0;
  uncollected_fees_sol = 0;
  total_value_usd = 150000000;
  opened_at = 1;
}

abbrev ans : RebalanceAnswers ℕ
ans = record {
  now = 1000;
  simulate_close = ok (record { effective_price_usd = 20000; bert_out = 0; sol_out = 1000000000 });
  build_close = ok tt;
  submit_close = record { answer = ok "Close"; attempts = 1; landings = 1; slept_ms = 0 };
  balances = ok (record { sol_lamports = 1100000000; bert_raw = 0 });
  build_swap = ok true;
  submit_swap = record { answer = ok "Swap"; attempts = 1; landings = 1; slept_ms = 0 };
  final_balances = ok (record { sol_lamports = 600000000; bert_raw = 3750000000 });
  build_open = ok "New";
  submit_open = record { answer = ok "Open"; attempts = 1; landings = 1; slept_ms = 0 };
  build_orphan_close = ok tt;
  submit_orphan_close = record { answer = ok "Orphan"; attempts = 1; landings = 1; slept_ms = 0 };
  set_position_fails = false;
  record_rebalance_fails = false;
  set_degraded_fails = false;
  degraded_at = 1001;
}

abbrev bot : Bot ℕ
bot = record {
  state = record { position_state = none; rebalance_log = []; flags = []; operator_actions = [] };
  calls = [];
}
