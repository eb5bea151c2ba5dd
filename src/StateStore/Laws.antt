-- ===== src/StateStore/Laws.antt =====
-- The degraded flag and the count of rebalances of src/stateStore.ts.
use bert_mm_bot.Prelude.{
  ℕ, ◌+◌, ◌/◌, ◌≡◌, ◌≢◌, ◌⊎◌, refl, sym, ap, String, Bool, true, false, count-append, Bool-cases,
  inl, inr, arith,
}
use bert_mm_bot.StateStore.{
  BotDb, RebalanceRecord, is_on_day, get_rebalances_today, record_rebalance, set_flag, get_flag,
  set_degraded, is_degraded, day_ms,
}

module _ {F : Type 0} where
  -- The degraded flag reads as it was last set.
  pub is_degraded-set :
      (value : Bool) (reason : String) (at : ℕ) (d : BotDb F)
      → is_degraded (set_degraded value reason at d) ≡ value
  unfolding is_degraded set_degraded get_flag set_flag
  is_degraded-set true reason at d = refl
  is_degraded-set false reason at d = refl

  -- A rebalance counts on its own UTC day and on no other.
  pub rebalances-record :
      (now : ℕ) (r : RebalanceRecord F) (d : BotDb F)
      → let before = get_rebalances_today now d in
        let after = get_rebalances_today now (record_rebalance r d) in
        (now / day_ms ≡ r.ts / day_ms) × (after ≡ before + 1)
        ⊎ (now / day_ms ≢ r.ts / day_ms) × (after ≡ before)
  unfolding get_rebalances_today record_rebalance
  rebalances-record now r d = rw (count-append) (elim (Bool-cases (is_on_day now r)) [
    | inl on ↦ inl (ground arith, ground arith)
    | inr off ↦ inr ((λ e. ground arith), ground arith)
  ])

  pub rebalances-record_today :
      (now : ℕ) (r : RebalanceRecord F) (d : BotDb F)
      → r.ts ≡ now
      → get_rebalances_today now (record_rebalance r d) ≡ get_rebalances_today now d + 1
  rebalances-record_today now r d e = elim (rebalances-record now r d) [
    | inl (_, more) ↦ more
    | inr (other, _) ↦ elim (other (ap (λ t. t / day_ms) (sym e))) [ ]
  ]
