-- ===== src/Withdraw/Tests.antt =====
-- Runs of the withdrawal executor, and the theorems about it at concrete inputs.
use bert_mm_bot.Prelude.{
  ℕ, ◌≤◌, ◌≡◌, refl, ap, subst, true, false, List, [], ◌∷◌, some, none, arith, inl, String,
}
use bert_mm_bot.Amounts.Fixed.{fixed_arith}
use bert_mm_bot.Store.{
  World, Db, Result, ok, err, external, fails, VaultWithdrawal, queued, UserRow, depositor, truthy,
}
use bert_mm_bot.Withdraw.Others.{force_process}
use bert_mm_bot.Withdraw.Executor.{Answers, drain}
use bert_mm_bot.Withdraw.Frame.{payments}
use bert_mm_bot.Withdraw.Safety.Invariant.{Inv}
use bert_mm_bot.Withdraw.Safety.Process.{LandsOnce}
use bert_mm_bot.Withdraw.Safety.Histories.{
  drain-Inv, Event, other, drains, history, history_pays_once,
}
use bert_mm_bot.Store.{
  and_then, list_withdrawals_by_status, set_withdrawal_processing, statement, recover, total_shares,
  mark_withdrawal_sent, credit_deposit, insert_nav_snapshot, write_audit, later, settle,
  with_transaction, add_shares, complete_withdrawal, enqueue_withdrawal, fail_withdrawal,
  get_withdrawal_by_id, requeue_failed_withdrawal,
}
use bert_mm_bot.Withdraw.Others.{handle_force_process, run_others}
use bert_mm_bot.ShareMath.{
  split_usd_into_tokens, usd_for_shares, compute_nav_per_share, compute_nav,
}
use bert_mm_bot.Prelude.Int.{◌-ℤ◌}
use bert_mm_bot.Withdraw.Executor.{
  compute_owed, after_pay, cover, drain_one, drain_rows, execute, keep_books, mark_sent, on_error,
  process_one, record_transfer, settle_books,
}

abbrev alice : UserRow
alice = record {
  telegram_id = 7;
  role = depositor;
  deposit_address = "DepositAddr";
  deposit_secret_enc = [];
  deposit_secret_iv = [];
  totp_secret_enc = none;
  totp_secret_iv = none;
  totp_enrolled_at = some 5;
  totp_last_used_counter = none;
  whitelist_address = some "Wallet";
  whitelist_set_at = some 6;
  disclaimer_at = 1;
  created_at = 1;
}

abbrev request : VaultWithdrawal ℕ
request = record {
  id = 1;
  telegram_id = 7;
  status = queued;
  destination = "Wallet";
  shares_burned = 50000000;
  fee_shares = 1000000;
  nav_per_share_at = none;
  sol_lamports_out = none;
  bert_raw_out = none;
  tx_sig = none;
  failure_reason = none;
  queued_at = 10;
  processed_at = none;
}

abbrev vault : Db ℕ
vault = record {
  users = alice ∷ [];
  shares = (7, 100000000) ∷ [];
  deposits = [];
  withdrawals = request ∷ [];
  changes = [];
  navs = [];
  audit = [];
  flags = [];
  next_deposit = 1;
  next_withdrawal = 2;
  next_change = 1;
}

-- The third statement fails, which is the one that records the transfer.
abbrev world : World ℕ
world = record { db = vault; faults = false ∷ true ∷ false ∷ []; paid = [] }

abbrev answers : Answers ℕ
answers = record {
  now = 100;
  mid = ok (some (record { sol_usd = 100000000; bert_usd = 1000000 }));
  balances = ok (record { sol_lamports = 5000000000; bert_raw = 100000000 });
  position_value = ok 0;
  partial_close = ok tt;
  balances_after_close = err (external "rpc");
  transfer = record { answer = ok "Signature"; attempts = 1; landings = 1; slept_ms = 0 };
  caught_at = 101;
  during_mid = [];
  during_balances = [];
  during_position = force_process 1 9 99 ∷ [];
  during_close = [];
  during_balances_after_close = [];
  during_transfer = force_process 1 9 100 ∷ [];
  after_transfer = [];
}

abbrev signature : Result String → String
signature (ok s) = s
signature (err e) = ""

answers-LandsOnce : LandsOnce answers
answers-LandsOnce = record {
  named = λ sig e. subst (λ s. truthy (some s) ≡ true) (ap signature e) refl;
  lands = λ sig e. refl;
  refused = λ thrown e. cc;
}

world-Inv : Inv world
unfolding fails
world-Inv = record {
  rising = omega arith;
  sparse = (refl, (refl, (refl, tt)));
  once = λ j. inl (refl, ground arith);
}

drain-Inv_example : Inv (drain 1000000000 (λ id. answers) world).1
drain-Inv_example = drain-Inv 1000000000 (λ id. answers) world (λ id. answers-LandsOnce) world-Inv

abbrev events : List (Event ℕ)
events =
    drains 1000000000 (λ id. answers)
    ∷ other (force_process 1 9 200)
    ∷ drains 1000000000 (λ id. answers)
    ∷ []

history_pays_once_example : payments 1 (history events world) ≤ 1
history_pays_once_example =
    history_pays_once events world 1 (λ id. answers-LandsOnce, (tt, (λ id. answers-LandsOnce, tt)))
      world-Inv

-- The second and the third statement fail: the one that records the transfer, and the audit row that
-- its handler writes. The row is marked failed without a signature, the operator queues it again.
abbrev twice_failing : World ℕ
twice_failing = record { db = vault; faults = false ∷ true ∷ true ∷ []; paid = [] }

-- Two statements in a row that fail are enough for a second payment.
pays_twice : payments 1 (history events twice_failing) ≡ 2
unfolding history drain fails and_then list_withdrawals_by_status set_withdrawal_processing
    statement recover total_shares mark_withdrawal_sent credit_deposit insert_nav_snapshot
    write_audit later settle with_transaction add_shares complete_withdrawal enqueue_withdrawal
    fail_withdrawal get_withdrawal_by_id requeue_failed_withdrawal handle_force_process run_others
    split_usd_into_tokens usd_for_shares compute_nav_per_share compute_nav ◌-ℤ◌ compute_owed
    after_pay cover drain_one drain_rows execute keep_books mark_sent on_error process_one
    record_transfer settle_books
pays_twice = refl

-- The transfer landed, but its confirmation was lost, so that it threw.
abbrev lost : Answers ℕ
lost = record answers {
  transfer = record { answer = err (external "rpc"); attempts = 3; landings = 1; slept_ms = 6000 };
}

abbrev healthy : World ℕ
healthy = record { db = vault; faults = []; paid = [] }

-- A transfer that threw although it landed is paid again after /forceprocess.
lost_pays_twice :
    payments 1 (
      history
        (drains 1000000000 (λ id. lost)
          ∷ other (force_process 1 9 200)
          ∷ drains 1000000000 (λ id. answers)
          ∷ [])
        healthy)
    ≡ 2
unfolding history drain fails and_then list_withdrawals_by_status set_withdrawal_processing
    statement recover total_shares mark_withdrawal_sent credit_deposit insert_nav_snapshot
    write_audit later settle with_transaction add_shares complete_withdrawal enqueue_withdrawal
    fail_withdrawal get_withdrawal_by_id requeue_failed_withdrawal handle_force_process run_others
    split_usd_into_tokens usd_for_shares compute_nav_per_share compute_nav ◌-ℤ◌ compute_owed
    after_pay cover drain_one drain_rows execute keep_books mark_sent on_error process_one
    record_transfer settle_books
lost_pays_twice = refl
