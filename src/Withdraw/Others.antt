-- ===== src/Withdraw/Others.antt =====
-- What the bot's other tasks do to the database while `processOne` waits for the network: a user
-- queues a withdrawal (`src/vault/commands.ts`), the operator runs /forceprocess
-- (`handleForceProcess` of src/vault/operatorCommands.ts), a deposit is credited. An exception ends
-- the task, not the process.
use bert_mm_bot.Prelude.{ℕ, String, List, [], ◌∷◌, Option, none, some, not, if◌then◌else◌}
use bert_mm_bot.Amounts.{Arith}
use bert_mm_bot.Store.{
  World, Action, pure, gets, ◌>>=◌, ◌>>◌, VaultWithdrawal, VaultDeposit, withdrawal_requeued,
  is_failed, truthy, get_withdrawal_by_id, requeue_failed_withdrawal, write_audit,
  enqueue_withdrawal, credit_deposit,
}

-- What the operator reads after /forceprocess.
pub data ForceReply : Type 0 where
  not_found has_tx_sig wrong_status requeued : ForceReply

module _ {F : Type 0} where
  abbrev pub force_process_row :
      (id operator now : ℕ) → Option (VaultWithdrawal F) → Action F ForceReply
  force_process_row id operator now none = pure not_found
  force_process_row id operator now (some w) =
      if truthy w.tx_sig
      then pure has_tx_sig
      else if not (is_failed w.status)
      then pure wrong_status
      else do
        requeue_failed_withdrawal id
        write_audit now (some operator) (withdrawal_requeued id w.failure_reason)
        pure requeued

  -- The part of `handleForceProcess` that follows the parsing of the id.
  unfoldable pub handle_force_process : (id operator now : ℕ) → Action F ForceReply
  unfolding get_withdrawal_by_id
  handle_force_process id operator now = do
    w ← gets (get_withdrawal_by_id id)
    force_process_row id operator now w

pub data Other (F : Type 0) : Type 0 where
  enqueue :
      (telegram_id : ℕ) (destination : String) (shares_burned fee_shares : F) (queued_at : ℕ)
      → Other F
  force_process : (id operator now : ℕ) → Other F
  credit : VaultDeposit F → Other F

module _ {F : Type 0} ⦃num : Arith F⦄ where
  abbrev pub run_other : Other F → World F → World F
  run_other (enqueue user destination burned fee at) w =
      (enqueue_withdrawal user destination burned fee at w).1
  run_other (force_process id operator now) w = (handle_force_process id operator now w).1
  run_other (credit r) w = (credit_deposit r w).1

  unfoldable pub run_others : List (Other F) → World F → World F
  run_others [] w = w
  run_others (o ∷ os) w = run_others os (run_other o w)
