-- ===== src/Rebalancer.antt =====
-- src/rebalancer.ts: `executeRebalance`. The venue, the chain and the failures of SQLite are the
-- environment's (`RebalanceAnswers`); a submission is a run of src/txSubmitter.ts, and `calls` lists the
-- transactions that landed, also those whose submission threw, and a dry run's none. Texts
-- for people are left out, and so is what the code only logs.
pub mod Laws
mod Tests
use bert_mm_bot.Prelude.{
  ℕ, zero, suc, ◌-◌, String, Bool, true, false, not, ◌&&◌, List, [], ◌∷◌, ◌++◌, Option, none, some,
  ltb, leb, if◌then◌else◌,
}
use bert_mm_bot.Prelude.Int.{ℤ, pos}
use bert_mm_bot.Amounts.{Arith}
use bert_mm_bot.ShareMath.{whole_sol, whole_bert}
use bert_mm_bot.Store.{Result, ok, err, Thrown, sqlite}
use bert_mm_bot.Strategy.{MidPrice, PositionSnapshot}
use bert_mm_bot.StateStore.{
  BotDb, set_degraded, get_rebalances_today, set_current_position, record_rebalance,
}
use bert_mm_bot.TxSubmitter.{Run}
use bert_mm_bot.Withdraw.Executor.{Balances, bind_result, or_not_integral, spendable}

-- The fields of `BotConfig` that decide something here.
pub record RebalanceConfig (F : Type 0) : Type 0 where
  pub max_rebalances_per_day : ℕ
  pub max_drawdown_pct : F
  pub range_width_pct : F
  pub max_position_usd : F
  pub min_sol_floor_lamports : ℕ
  pub dry_run : Bool

pub record Simulation (F : Type 0) : Type 0 where
  pub effective_price_usd : F
  pub bert_out : ℕ
  pub sol_out : ℕ

pub data Call : Type 0 where
  close_position open_position close_orphan : (nft_mint : String) → Call
  swap_to_ratio : Call

pub record RebalanceAnswers (F : Type 0) : Type 0 where
  pub now : ℕ
  pub simulate_close : Result (Simulation F)
  pub build_close : Result (Unit {0})
  pub submit_close : Run
  pub balances : Result Balances
  -- Whether the swap has an instruction at all.
  pub build_swap : Result Bool
  pub submit_swap : Run
  pub final_balances : Result Balances
  -- The mint of the new position.
  pub build_open : Result String
  pub submit_open : Run
  -- Closing again a position that could not be recorded.
  pub build_orphan_close : Result (Unit {0})
  pub submit_orphan_close : Run
  -- Whether SQLite refuses the write, and the clock of `setDegraded`.
  pub set_position_fails : Bool
  pub record_rebalance_fails : Bool
  pub set_degraded_fails : Bool
  pub degraded_at : ℕ

pub data Detail : Type 0 where
  drawdown_breaker daily_cap : Detail
  simulate_failed build_close_failed submit_close_failed inventory_failed open_failed
        state_write_failed :
      Thrown → Detail

pub data RebalanceResult : Type 0 where
  rebalanced : (new_nft_mint : String) → RebalanceResult
  skipped failed : Detail → RebalanceResult

pub record Bot (F : Type 0) : Type 0 where
  pub state : BotDb F
  pub calls : List Call

-- `executeRebalance` throws only if `setDegraded` does.
abbrev pub Outcome : Type 0 → Type 0
Outcome F = Result RebalanceResult × Bot F

pub record Inventory : Type 0 where
  pub bert_amount_raw : ℤ
  pub sol_amount_lamports : ℤ

module _ {F : Type 0} where
  abbrev pub called : Call → Bot F → Bot F
  called c bot = record bot { calls = bot.calls ++ c ∷ [] }

  -- The transaction landed `n` times.
  abbrev pub landed : ℕ → Call → Bot F → Bot F
  landed zero c bot = bot
  landed (suc n) c bot = called c (landed n c bot)

  abbrev pub old_center : F → Option (PositionSnapshot F) → F
  old_center zero_usd none = zero_usd
  old_center zero_usd (some p) = p.range.center_bert_usd

  -- The handlers after the close: the bot is degraded, and the rebalance failed.
  unfoldable pub fail_degraded : RebalanceAnswers F → String → Detail → Bot F → Outcome F
  fail_degraded ans reason detail bot = if ans.set_degraded_fails then (err sqlite, bot) else (
    ok (failed detail),
    record bot { state = set_degraded true reason ans.degraded_at bot.state },
  )

module _ {F : Type 0} ⦃num : Arith F⦄ (cfg : RebalanceConfig F) (ans : RebalanceAnswers F)
    (mid : MidPrice F) where
  abbrev pub zero_usd : F
  zero_usd = num.lit 0 0

  abbrev pub value_usd : (sol bert : ℕ) → F
  value_usd sol bert =
      num.add (num.mul (whole_sol sol) mid.sol_usd) (num.mul (whole_bert bert) mid.bert_usd)

  abbrev pub breaks : PositionSnapshot F → Simulation F → Bool
  breaks position sim =
      let effective_usd : F =
        num.add (num.mul (whole_bert sim.bert_out) sim.effective_price_usd)
          (num.mul (whole_sol sim.sol_out) mid.sol_usd) in
      num.lt zero_usd position.total_value_usd
      && num.lt (num.div effective_usd position.total_value_usd)
          (num.sub (num.lit 1 0) (num.div cfg.max_drawdown_pct (num.lit 100 0)))

  -- Step 1. `some` is an early return; a throw of `setDegraded` here is caught like one of the venue.
  unfoldable pub check_drawdown : Option (PositionSnapshot F) → Bot F → Option (Outcome F)
  check_drawdown none bot = none
  check_drawdown (some position) bot = elim ans.simulate_close [
    | err e ↦ some (ok (skipped (simulate_failed e)), bot)
    | ok sim ↦
        if not (breaks position sim)
        then none
        else if ans.set_degraded_fails
        then some (ok (skipped (simulate_failed sqlite)), bot)
        else some (
          ok (skipped drawdown_breaker),
          record bot {
            state = set_degraded true "drawdown breaker tripped" ans.degraded_at bot.state;
          },
        )
  ]

  -- Steps 6 and 7: a swap that fails is passed over.
  abbrev pub swap : Bot F → Bot F
  swap bot = elim ans.build_swap [
    | err _ ↦ bot
    | ok false ↦ bot
    | ok true ↦ landed ans.submit_swap.landings swap_to_ratio bot
  ]

  abbrev pub is_unbalanced : (sol bert : ℕ) → Bool
  is_unbalanced sol bert =
      let total : F = value_usd sol bert in
      let ratio : F =
        if num.lt zero_usd total
        then num.div (num.mul (whole_bert bert) mid.bert_usd) total
        else num.lit 5 1 in
      num.lt (num.lit 1 2) (num.abs (num.sub ratio (num.lit 5 1)))

  abbrev pub rounded : F → F → Result Inventory
  rounded bert sol = bind_result (or_not_integral (num.to_int (num.floor bert))) λ b.
      bind_result (or_not_integral (num.to_int (num.floor sol)))
        λ s. ok (record { bert_amount_raw = b; sol_amount_lamports = s })

  -- What to deposit: on a dry run half of the target in each token, else the holdings, capped.
  abbrev pub planned : Balances → Result Inventory
  planned bal =
      let half : F =
        num.div
          (num.minimum
            (value_usd (spendable cfg.min_sol_floor_lamports bal.sol_lamports) bal.bert_raw)
            cfg.max_position_usd)
          (num.lit 2 0) in
      rounded (num.mul (num.div half mid.bert_usd) (num.lit 1000000 0))
        (num.mul (num.div half mid.sol_usd) (num.lit 1000000000 0))

  abbrev pub held : Balances → Result Inventory
  held bal =
      let usable : ℕ = spendable cfg.min_sol_floor_lamports bal.sol_lamports in
      let total : F = value_usd usable bal.bert_raw in
      let scale : F =
        if num.lt zero_usd total
        then num.div (num.minimum total cfg.max_position_usd) total
        else zero_usd in
      rounded (num.mul (num.of_int (pos bal.bert_raw)) scale)
        (num.mul (num.of_int (pos usable)) scale)

  abbrev pub after_balances : Balances → Bot F → Result Inventory × Bot F
  after_balances bal bot = (
    (if cfg.dry_run then planned bal else bind_result ans.final_balances held),
    (if is_unbalanced (spendable cfg.min_sol_floor_lamports bal.sol_lamports) bal.bert_raw
        then swap bot
        else bot),
  )

  unfoldable pub take_inventory : Bot F → Result Inventory × Bot F
  take_inventory bot = elim ans.balances [ err e ↦ (err e, bot) | ok bal ↦ after_balances bal bot ]

  -- Step 9: the two writes, each of which may throw.
  unfoldable pub persist : Option (PositionSnapshot F) → String → Bot F → Result (Unit {0}) × Bot F
  persist position nft_mint bot =
      let half_width : F =
        num.div (num.mul mid.bert_usd (num.div cfg.range_width_pct (num.lit 100 0)))
          (num.lit 2 0) in
      let placed : BotDb F =
        set_current_position
          (record {
            nft_mint = nft_mint;
            lower_usd = num.sub mid.bert_usd half_width;
            upper_usd = num.add mid.bert_usd half_width;
            center_usd = mid.bert_usd;
            opened_at = ans.now;
          })
          bot.state in
      if ans.set_position_fails
      then (err sqlite, bot)
      else if ans.record_rebalance_fails
      then (err sqlite, record bot { state = placed })
      else (
        ok tt,
        record bot {
          state =
              record_rebalance
                (record {
                  ts = ans.now;
                  old_center_usd = old_center zero_usd position;
                  new_center_usd = mid.bert_usd;
                  fees_collected_usd = zero_usd;
                })
                placed;
        },
      )

  abbrev pub close_again : String → Bot F → Bot F
  close_again nft_mint bot = elim ans.build_orphan_close [
    | err _ ↦ bot
    | ok _ ↦ landed ans.submit_orphan_close.landings (close_orphan nft_mint) bot
  ]

  unfoldable pub after_persist : String → Result (Unit {0}) × Bot F → Outcome F
  after_persist nft_mint (ok _, bot) = (ok (rebalanced nft_mint), bot)
  after_persist nft_mint (err e, bot) =
      fail_degraded ans "state persistence failed after open" (state_write_failed e)
        (close_again nft_mint bot)

  unfoldable pub after_open :
      Option (PositionSnapshot F) → String → Bot F → Result String → Outcome F
  after_open position nft_mint bot (err e) =
      fail_degraded ans "close ok, open failed" (open_failed e) bot
  after_open position nft_mint bot (ok _) =
      if cfg.dry_run
      then (ok (rebalanced nft_mint), bot)
      else after_persist nft_mint (persist position nft_mint bot)

  unfoldable pub send_open : Option (PositionSnapshot F) → Bot F → Result String → Outcome F
  send_open position bot (err e) = fail_degraded ans "close ok, open failed" (open_failed e) bot
  send_open position bot (ok nft_mint) =
      after_open position nft_mint (landed ans.submit_open.landings (open_position nft_mint) bot)
        ans.submit_open.answer

  -- Step 8.
  unfoldable pub open_new : Option (PositionSnapshot F) → Result Inventory × Bot F → Outcome F
  open_new position (err e, bot) =
      fail_degraded ans "swap-to-ratio failed after close" (inventory_failed e) bot
  open_new position (ok amounts, bot) = send_open position bot ans.build_open

  abbrev pub after_close : PositionSnapshot F → Bot F → Result String → Outcome F
  after_close position bot (err e) = (ok (failed (submit_close_failed e)), bot)
  after_close position bot (ok _) = open_new (some position) (take_inventory bot)

  abbrev pub after_build : PositionSnapshot F → Bot F → Result (Unit {0}) → Outcome F
  after_build position bot (err e) = (ok (failed (build_close_failed e)), bot)
  after_build position bot (ok _) =
      after_close position (landed ans.submit_close.landings (close_position position.nft_mint) bot)
        ans.submit_close.answer

  -- Step 3, and what follows it.
  unfoldable pub close_and_open : Option (PositionSnapshot F) → Bot F → Outcome F
  close_and_open none bot = open_new none (take_inventory bot)
  close_and_open (some position) bot = after_build position bot ans.build_close

  unfoldable pub execute_rebalance : Option (PositionSnapshot F) → Bot F → Outcome F
  execute_rebalance position bot = elim (check_drawdown position bot) [
    | some early ↦ early
    | none ↦
        if leb cfg.max_rebalances_per_day (get_rebalances_today ans.now bot.state)
        then (ok (skipped daily_cap), bot)
        else close_and_open position bot
  ]
