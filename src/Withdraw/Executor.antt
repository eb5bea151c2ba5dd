-- ===== src/Withdraw/Executor.antt =====
-- src/vault/withdrawalExecutor.ts. The calls to the network are answered by the environment
-- (`Answers`): what each returned or threw, the time, and what other tasks did while it was awaited.
-- `executeTransfer` of src/main.ts submits through src/txSubmitter.ts: a run of `submit` answers a signature or throws,
-- and the transfer may have landed any number of times whichever it does.
use bert_mm_bot.Prelude.{
  ℕ, zero, suc, ◌-◌, String, Bool, true, false, List, [], ◌∷◌, ◌++◌, Option, none, some, not, ltb,
  ◌&&◌, ◌||◌, if◌then◌else◌, find,
}
use bert_mm_bot.Prelude.Int.{ℤ, pos, ◌-ℤ◌, ltb_ℤ}
use bert_mm_bot.Amounts.{Arith}
use bert_mm_bot.ShareMath.{
  compute_nav, compute_nav_per_share, usd_for_shares, split_usd_into_tokens, NavSnapshot,
}
use bert_mm_bot.Store.{
  World, Action, Result, ok, err, pure, throw, gets, of_result, try_catch, attempt, ◌>>=◌, ◌>>◌,
  Payment, VaultWithdrawal, Thrown, not_integral, oracle_unavailable, reserves_insufficient,
  message, unexpected, withdrawal, withdrawal_failed, withdrawal_db_sync_failed,
  withdrawal_completed, is_queued, is_processing, truthy, total_shares, list_withdrawals_by_status,
  get_withdrawal_by_id, set_withdrawal_processing, fail_withdrawal, mark_withdrawal_sent,
  complete_withdrawal, has_id, insert_nav_snapshot, write_audit, with_transaction,
}
use bert_mm_bot.TxSubmitter.{Run}
use bert_mm_bot.Withdraw.Others.{Other, run_others}

pub record Mid (F : Type 0) : Type 0 where
  pub sol_usd : F
  pub bert_usd : F

pub record Balances : Type 0 where
  pub sol_lamports : ℕ
  pub bert_raw : ℕ

-- The environment's part in one round of `drain`.
pub record Answers (F : Type 0) : Type 0 where
  pub now : ℕ
  pub mid : Result (Option (Mid F))
  pub balances : Result Balances
  -- `totalValueUsd` of the position's snapshot, the one field that is read.
  pub position_value : Result F
  pub partial_close : Result (Unit {0})
  pub balances_after_close : Result Balances
  -- The submission of the transfer.
  pub transfer : Run
  -- `deps.now()` in the handler of `drain`.
  pub caught_at : ℕ
  pub during_mid : List (Other F)
  pub during_balances : List (Other F)
  pub during_position : List (Other F)
  pub during_close : List (Other F)
  pub during_balances_after_close : List (Other F)
  pub during_transfer : List (Other F)
  pub after_transfer : List (Other F)

-- What is owed for a withdrawal.
pub record Owed (F : Type 0) : Type 0 where
  pub need_sol : ℤ
  pub need_bert : ℤ
  pub usd_owed : F
  pub nav_per_share : F
  pub net_shares : F

-- The free SOL above the reserve.
abbrev pub spendable : (reserve lamports : ℕ) → ℕ
spendable reserve lamports = if ltb reserve lamports then lamports - reserve else 0

abbrev pub shortfall : ℤ → ℕ → ℤ
shortfall need have = if ltb_ℤ (pos have) need then need -ℤ pos have else pos 0

abbrev pub bind_result : {A B : Type 0} → Result A → (A → Result B) → Result B
bind_result (ok a) f = f a
bind_result (err e) f = err e

-- `BigInt(x)`
abbrev pub or_not_integral : Option ℤ → Result ℤ
or_not_integral none = err not_integral
or_not_integral (some z) = ok z

-- Whether the wallet does not cover what is owed.
abbrev pub is_short : {F : Type 0} → (reserve : ℕ) → Owed F → Balances → Bool
is_short reserve owed bal =
    ltb_ℤ (pos (spendable reserve bal.sol_lamports)) owed.need_sol
    || ltb_ℤ (pos bal.bert_raw) owed.need_bert

module _ {F : Type 0} where
  abbrev pub is_processing_row : ℕ → VaultWithdrawal F → Bool
  is_processing_row id r = is_processing r.status && has_id id r

  abbrev pub sent : Option (VaultWithdrawal F) → Bool
  sent none = false
  sent (some r) = truthy r.tx_sig

  -- One answer for each queued row, in the order in which the rows are read.
  abbrev pub answered :
      (ℕ → Answers F) → List (VaultWithdrawal F) → List (VaultWithdrawal F × Answers F)
  answered env [] = []
  answered env (r ∷ rs) = (r, env r.id) ∷ answered env rs

  -- The handler of `drain`.
  unfoldable pub on_error : (id caught_at : ℕ) → Thrown → Action F (Unit {0})
  unfolding get_withdrawal_by_id
  on_error id caught_at e = do
    current ← gets (get_withdrawal_by_id id)
    if sent current then pure tt else fail_withdrawal id (unexpected e) caught_at

  abbrev pub report_desync : VaultWithdrawal F → ℕ → String → Thrown → Action F (Unit {0})
  report_desync row now sig e =
      write_audit now (some row.telegram_id) (withdrawal_db_sync_failed row.id sig e)

  -- `markWithdrawalSent`, and whether to go on.
  unfoldable pub mark_sent : VaultWithdrawal F → ℕ → String → Action F Bool
  mark_sent row now sig =
      try_catch (mark_withdrawal_sent row.id sig >> pure true)
        λ e. report_desync row now sig e >> pure false

module _ {F : Type 0} ⦃num : Arith F⦄ where
  abbrev pub nav_of : (reserve : ℕ) → Mid F → Balances → F → NavSnapshot F
  nav_of reserve mid bal position_value = compute_nav (record {
    free_sol_lamports = spendable reserve bal.sol_lamports;
    free_bert_raw = bal.bert_raw;
    position_total_value_usd = position_value;
    uncollected_fees_bert = 0;
    uncollected_fees_sol = 0;
    sol_usd = mid.sol_usd;
    bert_usd = mid.bert_usd;
  })

  unfoldable pub compute_owed :
      (reserve : ℕ)
      → Mid F
      → Balances
      → (position_value total : F) → VaultWithdrawal F
      → Result (Owed F)
  compute_owed reserve mid bal position_value total row =
      let nav : NavSnapshot F = nav_of reserve mid bal position_value in
      let nav_per_share : F = compute_nav_per_share nav.total_usd total in
      let net_shares : F = num.sub row.shares_burned row.fee_shares in
      let usd_owed : F = usd_for_shares net_shares nav_per_share in
      bind_result (split_usd_into_tokens usd_owed nav.sol_frac mid.sol_usd mid.bert_usd) λ tokens.
        bind_result (or_not_integral (num.to_int tokens.sol_lamports)) λ need_sol.
          bind_result (or_not_integral (num.to_int tokens.bert_raw)) λ need_bert. ok (record {
            need_sol = need_sol;
            need_bert = need_bert;
            usd_owed = usd_owed;
            nav_per_share = nav_per_share;
            net_shares = net_shares;
          })

  -- `await`: the other tasks run, then the call returns or throws.
  abbrev pub await : {A : Type 0} → List (Other F) → Result A → Action F A
  await others r w = (r, run_others others w)

  -- The funds that a transfer moved are on the chain, whatever the database says afterwards.
  abbrev pub landed : Payment → World F → World F
  landed p w = record w { paid = w.paid ++ p ∷ [] }

  abbrev pub land : ℕ → Payment → World F → World F
  land zero p w = w
  land (suc n) p w = landed p (land n p w)

  abbrev pub pay : VaultWithdrawal F → Owed F → Answers F → Run → Action F String
  pay row owed ans run w =
      let p : Payment = record {
        withdrawal = row.id;
        destination = row.destination;
        sol_lamports = owed.need_sol;
        bert_raw = owed.need_bert;
      } in
      (
        run.answer,
        run_others ans.after_transfer (land run.landings p (run_others ans.during_transfer w)),
      )

  -- The last `try` block of `processOne`, and its handler.
  unfoldable pub settle_books : VaultWithdrawal F → Owed F → String → ℕ → Action F (Unit {0})
  settle_books row owed sig now = do
    before ← gets total_shares
    with_transaction (do
      complete_withdrawal row.id sig owed.need_sol owed.need_bert owed.nav_per_share now
      after ← gets total_shares
      insert_nav_snapshot (record {
        ts = now;
        total_value_usd = num.mul (num.sub before owed.net_shares) owed.nav_per_share;
        total_shares = after;
        nav_per_share = owed.nav_per_share;
        source = withdrawal;
      })
      write_audit now (some row.telegram_id) (
          withdrawal_completed row.id sig row.shares_burned row.fee_shares owed.usd_owed
            owed.nav_per_share))

  unfoldable pub keep_books : VaultWithdrawal F → Owed F → ℕ → String → Action F (Unit {0})
  unfolding settle_books
  keep_books row owed now sig =
      try_catch (settle_books row owed sig now) λ e. report_desync row now sig e >> throw e

  unfoldable pub record_transfer : VaultWithdrawal F → Owed F → ℕ → String → Action F (Unit {0})
  unfolding mark_sent keep_books
  record_transfer row owed now sig = do
    marked ← mark_sent row now sig
    if marked then keep_books row owed now sig else pure tt

  -- What follows the transfer, by how it ended.
  unfoldable pub after_pay : VaultWithdrawal F → Owed F → ℕ → Result String → Action F (Unit {0})
  unfolding record_transfer
  after_pay row owed now (err e) = do
    fail_withdrawal row.id (message e) now
    write_audit now (some row.telegram_id) (withdrawal_failed row.id (message e))
  after_pay row owed now (ok sig) = record_transfer row owed now sig

  unfoldable pub execute : VaultWithdrawal F → Owed F → Answers F → Action F (Unit {0})
  unfolding after_pay
  execute row owed ans = do
    outcome ← attempt (pay row owed ans ans.transfer)
    after_pay row owed ans.now outcome

  abbrev pub close_for : Answers F → (sol_short bert_short : ℤ) → Action F (Unit {0})
  close_for ans sol_short bert_short =
      if ltb_ℤ (pos 0) sol_short || ltb_ℤ (pos 0) bert_short
      then await ans.during_close ans.partial_close
      else pure tt

  -- Whether the wallet covers what is owed, closing a part of the position if it does not yet.
  unfoldable pub cover : (reserve : ℕ) → Owed F → Balances → Answers F → Action F Bool
  cover reserve owed bal ans = if not (is_short reserve owed bal) then pure true else do
    close_for ans (shortfall owed.need_sol (spendable reserve bal.sol_lamports))
        (shortfall owed.need_bert bal.bert_raw)
    bal2 ← await ans.during_balances_after_close ans.balances_after_close
    pure (not (is_short reserve owed bal2))

  abbrev pub with_row :
      (reserve : ℕ) → Mid F → Answers F → Option (VaultWithdrawal F) → Action F (Unit {0})
  with_row reserve mid ans none = pure tt
  with_row reserve mid ans (some row) = do
    bal ← await ans.during_balances ans.balances
    position_value ← await ans.during_position ans.position_value
    total ← gets total_shares
    owed ← of_result (compute_owed reserve mid bal position_value total row)
    covered ← cover reserve owed bal ans
    if covered then execute row owed ans else fail_withdrawal row.id reserves_insufficient ans.now

  abbrev pub with_mid : (reserve id : ℕ) → Answers F → Option (Mid F) → Action F (Unit {0})
  with_mid reserve id ans none = fail_withdrawal id oracle_unavailable ans.now
  with_mid reserve id ans (some mid) = do
    row ← gets (λ d. find (is_processing_row id) d.withdrawals)
    with_row reserve mid ans row

  unfoldable pub process_one : (reserve id : ℕ) → Answers F → Action F (Unit {0})
  unfolding cover execute
  process_one reserve id ans = do mid ← await ans.during_mid ans.mid; with_mid reserve id ans mid

  unfoldable pub drain_one : (reserve : ℕ) → VaultWithdrawal F × Answers F → Action F (Unit {0})
  unfolding process_one on_error
  drain_one reserve (w, ans) = do
    set_withdrawal_processing w.id
    try_catch (process_one reserve w.id ans) (on_error w.id ans.caught_at)

  unfoldable pub drain_rows :
      (reserve : ℕ) → List (VaultWithdrawal F × Answers F) → Action F (Unit {0})
  unfolding drain_one
  drain_rows reserve [] = pure tt
  drain_rows reserve (x ∷ xs) = do drain_one reserve x; drain_rows reserve xs

  unfoldable pub drain : (reserve : ℕ) → (ℕ → Answers F) → Action F (Unit {0})
  unfolding drain_rows
  drain reserve env = do
    rows ← gets (list_withdrawals_by_status is_queued)
    drain_rows reserve (answered env rows)
