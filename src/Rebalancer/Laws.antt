-- ===== src/Rebalancer/Laws.antt =====
-- When `executeRebalance` of src/rebalancer.ts goes on, and what it leaves.
use bert_mm_bot.Prelude.{◌+◌, ◌≤◌, ◌≡◌, ◌⊎◌, String, true, false, Option, none, some}
use bert_mm_bot.Prelude.Int.{pos}
use bert_mm_bot.Amounts.{Arith}
use bert_mm_bot.Store.{Thrown, Result, ok, err}
use bert_mm_bot.Strategy.{MidPrice, PositionSnapshot}
use bert_mm_bot.StateStore.{
  BotDb, StoredPosition, is_degraded, get_rebalances_today, get_current_position,
  set_current_position, record_rebalance, RebalanceRecord,
}
use bert_mm_bot.Rebalancer.{
  simulate_failed, drawdown_breaker, daily_cap, RebalanceConfig, RebalanceAnswers, Simulation,
  Detail, RebalanceResult, rebalanced, skipped, failed, Bot, Outcome, landed, close_position,
  submit_close_failed, build_close_failed,
}

abbrev reply_or : RebalanceResult → Result RebalanceResult → RebalanceResult
reply_or r (ok a) = a
reply_or r (err e) = r

module _ {F : Type 0} ⦃num : Arith F⦄ (cfg : RebalanceConfig F) (ans : RebalanceAnswers F)
    (mid : MidPrice F) where
  -- What a close would bring at the simulated price.
  abbrev pub proceeds_usd : Simulation F → F
  proceeds_usd sim =
      num.add
        (num.mul (num.div (num.of_int (pos sim.bert_out)) (num.lit 1000000 0))
          sim.effective_price_usd)
        (num.mul (num.div (num.of_int (pos sim.sol_out)) (num.lit 1000000000 0)) mid.sol_usd)

  -- A close would bring less than the share of the position's value that the drawdown leaves.
  abbrev pub Loses : PositionSnapshot F → Simulation F → Type 0
  Loses p sim =
      (num.lt (num.lit 0 0) p.total_value_usd ≡ true)
      × (num.lt (num.div (proceeds_usd sim) p.total_value_usd)
            (num.sub (num.lit 1 0) (num.div cfg.max_drawdown_pct (num.lit 100 0)))
          ≡ true)

  -- It would not, or the position has no value.
  abbrev pub Holds : PositionSnapshot F → Simulation F → Type 0
  Holds p sim =
      (num.lt (num.lit 0 0) p.total_value_usd ≡ false)
      ⊎ (num.lt (num.div (proceeds_usd sim) p.total_value_usd)
            (num.sub (num.lit 1 0) (num.div cfg.max_drawdown_pct (num.lit 100 0)))
          ≡ false)

  -- Why a rebalance was skipped, and what that leaves of the bot's database.
  abbrev pub Because : Bot F → Option (PositionSnapshot F) → Detail → BotDb F → Type 0
  Because bot position daily_cap after =
      (cfg.max_rebalances_per_day ≤ get_rebalances_today ans.now bot.state) × (after ≡ bot.state)
  Because bot (some p) drawdown_breaker after =
      ((sim : Simulation F) × (ans.simulate_close ≡ ok sim) × Loses p sim)
      × (is_degraded after ≡ true)
  Because bot (some p) (simulate_failed e) after =
      ((ans.simulate_close ≡ err e) ⊎ (ans.set_degraded_fails ≡ true)) × (after ≡ bot.state)
  Because bot position d after = ⊥

  -- The position, if there is one, may be closed: the simulation answered, and a close does not lose too much.
  abbrev pub IsSafe : Option (PositionSnapshot F) → Type 0
  IsSafe none = Unit {0}
  IsSafe (some p) = (sim : Simulation F) × (ans.simulate_close ≡ ok sim) × Holds p sim

  -- Half of the configured width, in percent of the price.
  abbrev pub half_width : F
  half_width =
      num.div (num.mul mid.bert_usd (num.div cfg.range_width_pct (num.lit 100 0))) (num.lit 2 0)

  -- What a rebalance leaves, by its answer: a failure has degraded the bot, and a success on which no
  -- dry run was asked for has stored the new position and one rebalance more.
  abbrev pub Leaves : BotDb F → Outcome F → RebalanceResult → Type 0
  Leaves before x (skipped d) = x.1.state ≡ before
  Leaves before x (failed d) = is_degraded x.1.state ≡ true
  Leaves before x (rebalanced nft_mint) =
      (cfg.dry_run ≡ true) × (x.1.state ≡ before)
      ⊎ (cfg.dry_run ≡ false)
        × (get_rebalances_today ans.now x.1.state ≡ get_rebalances_today ans.now before + 1)
        × ((p : StoredPosition F) × (get_current_position x.1.state ≡ some p)
            × (p.nft_mint ≡ nft_mint)
            × (p.center_usd ≡ mid.bert_usd)
            × (p.lower_usd ≡ num.sub mid.bert_usd half_width)
            × (p.upper_usd ≡ num.add mid.bert_usd half_width)
            × (p.opened_at ≡ ans.now))

  -- The writes of `persist`, if both went through.
  abbrev Wrote : String → BotDb F → Result (Unit {0}) × Bot F → Type 0
  Wrote nft_mint before (err e, bot) = Unit {0}
  Wrote nft_mint before (ok _, bot) =
      (p : StoredPosition F) × (q : RebalanceRecord F) × (bot.state
        ≡ record_rebalance q (set_current_position p before))
      × (p.nft_mint ≡ nft_mint)
      × (p.center_usd ≡ mid.bert_usd)
      × (p.lower_usd ≡ num.sub mid.bert_usd half_width)
      × (p.upper_usd ≡ num.add mid.bert_usd half_width)
      × (p.opened_at ≡ ans.now)
      × (q.ts ≡ ans.now)

  -- The rebalance failed at closing `position`: no more than this close has landed, as often as its submission
  -- says, and the bot's database is as it was.
  abbrev pub Unmoved : Option (PositionSnapshot F) → Bot F → Outcome F → RebalanceResult → Type 0
  Unmoved none bot x r = ⊥
  Unmoved (some p) bot x r =
      ((build : Thrown) × (ans.build_close ≡ err build)
        × (r ≡ failed (build_close_failed build))
        × (x.1 ≡ bot))
      ⊎ ((submit : Thrown) × (ans.submit_close.answer ≡ err submit)
          × (r ≡ failed (submit_close_failed submit))
          × (x.1 ≡ landed ans.submit_close.landings (close_position p.nft_mint) bot))
