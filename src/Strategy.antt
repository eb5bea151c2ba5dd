-- ===== src/Strategy.antt =====
-- src/strategy.ts: `decide`. A reason is the case of the text that it starts; the numbers in the texts
-- are left out. Times are epoch milliseconds, and `a - b > c` is written `b + c < a`.
pub mod Laws
mod Tests
use bert_mm_bot.Prelude.{
  ℕ, ◌+◌, ◌-◌, ◌*◌, String, Bool, true, false, not, ◌&&◌, ◌||◌, List, Option, none, some, ltb, leb,
  if◌then◌else◌, length, select, all,
}
use bert_mm_bot.Amounts.{Arith}

-- Without the two fields that `decide` does not read.
pub record StrategyParams : Type 0 where
  pub sustained_minutes : ℕ
  pub min_rebalance_interval_min : ℕ
  pub max_rebalances_per_day : ℕ
  pub oracle_stale_minutes : ℕ

pub record MidPrice (F : Type 0) : Type 0 where
  pub bert_per_sol : F
  pub bert_usd : F
  pub sol_usd : F
  pub ts : ℕ
  pub sources : List String

pub record Range (F : Type 0) : Type 0 where
  pub lower_bert_usd : F
  pub upper_bert_usd : F
  pub center_bert_usd : F
  pub width_pct : F

pub record PositionSnapshot (F : Type 0) : Type 0 where
  pub nft_mint : String
  pub range : Range F
  pub bert_amount : ℕ
  pub sol_amount : ℕ
  pub uncollected_fees_bert : ℕ
  pub uncollected_fees_sol : ℕ
  pub total_value_usd : F
  pub opened_at : ℕ

pub record BotState (F : Type 0) : Type 0 where
  pub price : Option (MidPrice F)
  pub price_history : List (MidPrice F)
  pub position : Option (PositionSnapshot F)
  pub last_rebalance_at : Option ℕ
  pub rebalances_today : ℕ
  pub kill_switch_tripped : Bool
  pub degraded : Bool
  pub now : ℕ

pub data Why : Type 0 where
  kill_switch_tripped degraded_flag_set oracle_stale : Why
  oracle_returned_null no_position_yet price_in_range not_enough_history not_sustained : Why
  cooldown_active daily_cap_reached : Why

pub data Decision (F : Type 0) : Type 0 where
  hold pause alert_only : Why → Decision F
  rebalance : (new_center_usd : F) → Decision F

abbrev pub minute_ms : ℕ
minute_ms = 60000

abbrev pub cooling_down : (min_interval now : ℕ) → Option ℕ → Bool
cooling_down min_interval now none = false
cooling_down min_interval now (some last) = ltb now (last + min_interval * minute_ms)

module _ {F : Type 0} where
  abbrev pub is_stale : BotState F → StrategyParams → MidPrice F → Bool
  is_stale s p price = ltb (price.ts + p.oracle_stale_minutes * minute_ms) s.now

  -- The samples of the last `sustainedMinutes`.
  abbrev pub recent : BotState F → StrategyParams → List (MidPrice F)
  recent s p = select (λ m. leb (s.now - p.sustained_minutes * minute_ms) m.ts) s.price_history

  abbrev pub within_limits : BotState F → StrategyParams → F → Decision F
  within_limits s p center =
      if cooling_down p.min_rebalance_interval_min s.now s.last_rebalance_at
      then alert_only cooldown_active
      else if leb p.max_rebalances_per_day s.rebalances_today
      then alert_only daily_cap_reached
      else rebalance center

module _ {F : Type 0} ⦃num : Arith F⦄ where
  abbrev pub is_in_range : Range F → F → Bool
  is_in_range r x = num.le r.lower_bert_usd x && num.le x r.upper_bert_usd

  abbrev pub is_out_of_range : Range F → MidPrice F → Bool
  is_out_of_range r m = num.lt m.bert_usd r.lower_bert_usd || num.lt r.upper_bert_usd m.bert_usd

  abbrev pub with_position :
      BotState F → StrategyParams → MidPrice F → Option (PositionSnapshot F) → Decision F
  with_position s p price none = hold no_position_yet
  with_position s p price (some position) =
      if is_in_range position.range price.bert_usd
      then hold price_in_range
      else if ltb (length (recent s p)) p.sustained_minutes
      then hold not_enough_history
      else if not (all (is_out_of_range position.range) (recent s p))
      then hold not_sustained
      else within_limits s p price.bert_usd

  abbrev pub with_price : BotState F → StrategyParams → Option (MidPrice F) → Decision F
  with_price s p none = hold oracle_returned_null
  with_price s p (some price) =
      if is_stale s p price then pause oracle_stale else with_position s p price s.position

  unfoldable pub decide : BotState F → StrategyParams → Decision F
  decide s p =
      if s.kill_switch_tripped
      then pause Why.kill_switch_tripped
      else if s.degraded
      then pause degraded_flag_set
      else with_price s p s.price
