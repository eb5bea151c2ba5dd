-- ===== src/Store/Withdrawals.antt =====
-- The withdrawals of src/vault/depositorStore.ts.
use bert_mm_bot.Prelude.{
  ℕ, suc, ◌-◌, ◌*◌, String, Bool, true, false, not, List, [], ◌∷◌, ◌++◌, Option, none, some, leb,
  ◌==◌, ◌&&◌, ◌||◌, if◌then◌else◌, str_eq, find, update, select, count, map,
}
use bert_mm_bot.Prelude.Int.{ℤ}
use bert_mm_bot.Amounts.{Arith}
use bert_mm_bot.Store.Rows.{
  Db, VaultWithdrawal, WithdrawalStatus, queued, processing, completed, failed, is_queued,
  is_processing, is_completed, is_failed, Reason, not_found, wrong_status, has_tx_sig,
  no_row_updated,
}
use bert_mm_bot.Store.Monad.{
  Action, statement, exec, gets, throw, pure, with_transaction, ◌>>=◌, ◌>>◌,
}
use bert_mm_bot.Store.Shares.{add_shares}
use bert_mm_bot.Store.Journal.{latest_nav_snapshot}

-- A JavaScript value of type `string | null` counts as true unless it is null or empty.
abbrev pub truthy : Option String → Bool
truthy none = false
truthy (some s) = not (str_eq s "")

abbrev pub is_null : {A : Type 0} → Option A → Bool
is_null none = true
is_null (some _) = false

abbrev pub day_ms : ℕ
day_ms = 24 * 3600 * 1000

module _ {F : Type 0} where
  abbrev pub set_withdrawals : (List (VaultWithdrawal F) → List (VaultWithdrawal F)) → Db F → Db F
  set_withdrawals f d = record d { withdrawals = f d.withdrawals }

  abbrev pub has_id : ℕ → VaultWithdrawal F → Bool
  has_id id r = r.id == id

  unfoldable pub enqueue_withdrawal :
      (telegram_id : ℕ) (destination : String) (shares_burned fee_shares : F) (queued_at : ℕ)
      → Action F ℕ
  enqueue_withdrawal telegram_id destination shares_burned fee_shares queued_at =
      statement (λ _. none) (λ d. d.next_withdrawal)
        (λ d. record d {
          withdrawals =
              d.withdrawals
              ++ record {
                id = d.next_withdrawal;
                telegram_id = telegram_id;
                status = queued;
                destination = destination;
                shares_burned = shares_burned;
                fee_shares = fee_shares;
                nav_per_share_at = none;
                sol_lamports_out = none;
                bert_raw_out = none;
                tx_sig = none;
                failure_reason = none;
                queued_at = queued_at;
                processed_at = none;
              }
                ∷ [];
          next_withdrawal = suc d.next_withdrawal;
        })

  unfoldable pub set_withdrawal_processing : ℕ → Action F (Unit {0})
  set_withdrawal_processing id = exec (
      set_withdrawals
        (update (λ r. has_id id r && is_queued r.status) (λ r. record r { status = processing })))

  abbrev pub unsent : ℕ → VaultWithdrawal F → Bool
  unsent id r = has_id id r && is_null r.tx_sig

  unfoldable pub mark_withdrawal_sent : (id : ℕ) (tx_sig : String) → Action F (Unit {0})
  mark_withdrawal_sent id tx_sig = do
    changes ←
        statement (λ _. none) (λ d. count (unsent id) d.withdrawals)
          (set_withdrawals (update (unsent id) (λ r. record r { tx_sig = some tx_sig })))
    if changes == 1 then pure tt else throw no_row_updated

  unfoldable pub fail_withdrawal :
      (id : ℕ) (reason : Reason) (processed_at : ℕ) → Action F (Unit {0})
  fail_withdrawal id reason processed_at = exec (
      set_withdrawals (
        update (has_id id) (λ r. record r {
          status = failed;
          failure_reason = some reason;
          processed_at = some processed_at;
        })))

  unfoldable pub list_withdrawals_by_status :
      (WithdrawalStatus → Bool) → Db F → List (VaultWithdrawal F)
  list_withdrawals_by_status is d = select (λ r. is r.status) d.withdrawals

  unfoldable pub get_withdrawal_by_id : ℕ → Db F → Option (VaultWithdrawal F)
  get_withdrawal_by_id id d = find (has_id id) d.withdrawals

  abbrev pub requeue_row : ℕ → Option (VaultWithdrawal F) → Action F (Unit {0})
  requeue_row id none = throw not_found
  requeue_row id (some row) =
      if not (is_failed row.status)
      then throw wrong_status
      else if truthy row.tx_sig
      then throw has_tx_sig
      else exec (
          set_withdrawals (
            update (has_id id)
              (λ r. record r { status = queued; failure_reason = none; processed_at = none })))

  unfoldable pub requeue_failed_withdrawal : ℕ → Action F (Unit {0})
  unfolding get_withdrawal_by_id
  requeue_failed_withdrawal id = do row ← gets (get_withdrawal_by_id id); requeue_row id row

  unfoldable pub count_pending_withdrawals : Db F → ℕ
  count_pending_withdrawals d =
      count (λ r. is_queued r.status || is_processing r.status) d.withdrawals

  -- Of one user, not failed, queued in the last 24 hours: what counts against the daily caps.
  abbrev pub counts_today : (telegram_id now : ℕ) → VaultWithdrawal F → Bool
  counts_today telegram_id now r =
      r.telegram_id == telegram_id
      && (is_queued r.status || is_processing r.status || is_completed r.status)
      && leb (now - day_ms) r.queued_at

  unfoldable pub count_user_withdrawals_last_24h : (telegram_id now : ℕ) → Db F → ℕ
  count_user_withdrawals_last_24h telegram_id now d =
      count (counts_today telegram_id now) d.withdrawals

module _ {F : Type 0} ⦃num : Arith F⦄ where
  abbrev pub complete_row :
      (id : ℕ) (tx_sig : String) (sol_out bert_out : ℤ) (nav_per_share_at : F) (processed_at : ℕ)
      → Option (VaultWithdrawal F)
      → Action F (Unit {0})
  complete_row id tx_sig sol_out bert_out nav_per_share_at processed_at none = throw not_found
  complete_row id tx_sig sol_out bert_out nav_per_share_at processed_at (some w) = do
    exec (
        set_withdrawals (
          update (has_id id) (λ r. record r {
            status = completed;
            tx_sig = some tx_sig;
            sol_lamports_out = some sol_out;
            bert_raw_out = some bert_out;
            nav_per_share_at = some nav_per_share_at;
            processed_at = some processed_at;
          })))
    add_shares w.telegram_id (num.neg w.shares_burned)

  unfoldable pub complete_withdrawal :
      (id : ℕ) (tx_sig : String) (sol_out bert_out : ℤ) (nav_per_share_at : F) (processed_at : ℕ)
      → Action F (Unit {0})
  unfolding get_withdrawal_by_id
  complete_withdrawal id tx_sig sol_out bert_out nav_per_share_at processed_at =
      with_transaction (do
        w ← gets (get_withdrawal_by_id id)
        complete_row id tx_sig sol_out bert_out nav_per_share_at processed_at w)

  abbrev pub value_or : F → Option F → F
  value_or d none = d
  value_or d (some v) = v

  abbrev pub latest_price : Db F → F
  latest_price d = elim (latest_nav_snapshot d) [ none ↦ num.lit 1 0 | some s ↦ s.nav_per_share ]

  abbrev pub usd_of : F → VaultWithdrawal F → F
  usd_of price r =
      num.mul (num.sub r.shares_burned r.fee_shares) (value_or price r.nav_per_share_at)

  unfoldable pub sum_user_withdrawal_usd_last_24h : (telegram_id now : ℕ) → Db F → F
  sum_user_withdrawal_usd_last_24h telegram_id now d =
      num.sum (map (usd_of (latest_price d)) (select (counts_today telegram_id now) d.withdrawals))

  abbrev pub done_today : (telegram_id now : ℕ) → VaultWithdrawal F → Bool
  done_today telegram_id now r =
      r.telegram_id == telegram_id
      && is_completed r.status
      && (elim r.processed_at [ none ↦ false | some t ↦ leb (now - day_ms) t ])

  -- A completed row always has its price; SQL leaves a row without one out of the sum.
  unfoldable pub sum_completed_withdrawal_usd_last_24h : (telegram_id now : ℕ) → Db F → F
  sum_completed_withdrawal_usd_last_24h telegram_id now d = num.sum (
      map (usd_of (num.lit 0 0)) (
        select (λ r. done_today telegram_id now r && not (is_null r.nav_per_share_at))
          d.withdrawals))
