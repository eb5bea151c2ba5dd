-- ===== src/Strategy/Laws.antt =====
-- When src/strategy.ts lets the bot rebalance.
use bert_mm_bot.Prelude.{
  ℕ, suc, ◌+◌, ◌-◌, ◌*◌, ◌≤◌, ◌<◌, ◌≡◌, ◌⊎◌, true, false, List, [], ◌∷◌, none, some, All, select,
  if◌then◌else◌, leb,
}
use bert_mm_bot.Amounts.{Arith}
use bert_mm_bot.Strategy.{
  Range, BotState, StrategyParams, MidPrice, PositionSnapshot, Decision, rebalance, minute_ms,
}

abbrev center_or : {F : Type 0} → F → Decision F → F
center_or x (rebalance c) = c
center_or x _ = x

-- The bot has not rebalanced yet, or the last time is an interval ago.
abbrev pub Rested : {F : Type 0} → BotState F → StrategyParams → Type 0
Rested s p =
    (s.last_rebalance_at ≡ none)
    ⊎ ((last : ℕ) × (s.last_rebalance_at ≡ some last)
        × (last + p.min_rebalance_interval_min * minute_ms ≤ s.now))

-- How many samples are at most `window` milliseconds older than `now`.
abbrev pub samples_since : {F : Type 0} → (now window : ℕ) → List (MidPrice F) → ℕ
samples_since now window [] = 0
samples_since now window (m ∷ ms) =
    let rest = samples_since now window ms in if leb now (m.ts + window) then suc rest else rest

module _ {F : Type 0} ⦃num : Arith F⦄ where
  -- The price is not at or above the lower bound and at or below the upper one.
  abbrev pub HasLeft : Range F → F → Type 0
  HasLeft r x = (num.le r.lower_bert_usd x ≡ false) ⊎ (num.le x r.upper_bert_usd ≡ false)

  abbrev pub IsOutside : Range F → F → Type 0
  IsOutside r x = (num.lt x r.lower_bert_usd ≡ true) ⊎ (num.lt r.upper_bert_usd x ≡ true)

  -- The sample is older than the window, or its price was outside the range.
  abbrev pub OldOrOutside : (now window : ℕ) → Range F → MidPrice F → Type 0
  OldOrOutside now window r m = (m.ts + window < now) ⊎ IsOutside r m.bert_usd

  -- All that has to hold before the bot moves its position to `center`.
  pub record IsCleared (s : BotState F) (p : StrategyParams) (center : F) : Type 0 where
    pub alive : s.kill_switch_tripped ≡ false
    pub healthy : s.degraded ≡ false
    pub price : MidPrice F
    pub position : PositionSnapshot F
    pub priced : s.price ≡ some price
    pub positioned : s.position ≡ some position
    pub fresh : s.now ≤ price.ts + p.oracle_stale_minutes * minute_ms
    pub centered : price.bert_usd ≡ center
    pub outside : HasLeft position.range price.bert_usd
    pub observed :
        p.sustained_minutes ≤ samples_since s.now (p.sustained_minutes * minute_ms) s.price_history
    pub sustained :
        All (OldOrOutside s.now (p.sustained_minutes * minute_ms) position.range) s.price_history
    pub rested : Rested s p
    pub under_cap : s.rebalances_today < p.max_rebalances_per_day

  module _ (now window : ℕ) where
    abbrev samples : List (MidPrice F) → List (MidPrice F)
    samples ms = select (λ m. leb (now - window) m.ts) ms
