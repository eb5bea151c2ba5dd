-- ===== src/Strategy/Tests.antt =====
-- A decision on concrete samples.
use bert_mm_bot.Prelude.{ℕ, false, [], ◌∷◌, none, some}
use bert_mm_bot.Amounts.Fixed.{fixed_arith}
use bert_mm_bot.Strategy.{BotState, StrategyParams, MidPrice, PositionSnapshot}

abbrev sample : ℕ → MidPrice ℕ
sample ts = record {
  bert_per_sol = 0;
  bert_usd = 20000;
  sol_usd = 150000000;
  ts = ts;
  sources = [];
}

abbrev position : PositionSnapshot ℕ
position = record {
  nft_mint = "Mint";
  range = record {
    lower_bert_usd = 8000;
    upper_bert_usd = 12000;
    center_bert_usd = 10000;
    width_pct = 40000000;
  };
  bert_amount = 1;
  sol_amount = 1;
  uncollected_fees_bert = 0;
  uncollected_fees_sol = 0;
  total_value_usd = 1000000;
  opened_at = 1;
}

abbrev state : BotState ℕ
state = record {
  price = some (sample 1000000);
  price_history = sample 940000 ∷ sample 1000000 ∷ [];
  position = some position;
  last_rebalance_at = none;
  rebalances_today = 0;
  kill_switch_tripped = false;
  degraded = false;
  now = 1000000;
}

abbrev params : StrategyParams
params = record {
  sustained_minutes = 2;
  min_rebalance_interval_min = 60;
  max_rebalances_per_day = 3;
  oracle_stale_minutes = 5;
}
