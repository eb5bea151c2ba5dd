-- ===== src/OperatorCommands.antt =====
-- src/vault/operatorCommands.ts, but for /forceprocess, which is in Withdraw/Others.antt. Arguments are parsed already
-- where the source parses a number; a reply is what an action answers.
pub mod Laws
mod Tests
use bert_mm_bot.Prelude.{
  ℕ, String, Bool, true, false, not, ◌&&◌, ◌||◌, List, [], ◌∷◌, Option, none, some, str_eq, find,
  if◌then◌else◌,
}
use bert_mm_bot.Amounts.{Arith}
use bert_mm_bot.ShareMath.{compute_nav_per_share}
use bert_mm_bot.CreditEngine.{CreditParams, credit}
use bert_mm_bot.Tick.{vault_paused_flag, set_flag, is_vault_paused}
use bert_mm_bot.Withdraw.Executor.{Mid}
use bert_mm_bot.Store.{
  Db, Action, Result, ok, err, Thrown, unique_violation, is_null, pure, gets, attempt, ◌>>=◌, ◌>>◌,
  AuditEvent, AuditRow, NavSnapshotRow, VaultUser, VaultDeposit, vault_paused, vault_resumed,
  totp_reset, deposit_detected, deposit_swept, deposit_recredited, get_user, clear_user_totp,
  has_deposit, list_deposits_for_user, latest_nav_snapshot, total_shares, count_pending_withdrawals,
  count_pending_whitelist_changes, list_recent_audit_events, write_audit,
}

pub data ResetReply : Type 0 where
  no_such_user reset : ResetReply

-- What the scan of the audit log has found of a deposit: its amounts, its sweep's signature, amounts and
-- `confirmedAt`, and its user.
pub record Found : Type 0 where
  pub detected : Option (ℕ × ℕ)
  pub swept : Option (String × ℕ × ℕ × ℕ)
  pub telegram_id : Option ℕ

pub data RecreditReply (F : Type 0) : Type 0 where
  already_credited not_detected not_swept no_user no_sweep_sig oracle_is_down
        already_credited_race :
      RecreditReply F
  recredit_failed : Thrown → RecreditReply F
  recredited : (shares_minted : F) → (telegram_id : ℕ) → (nav_per_share : F) → RecreditReply F

pub record VaultStatus (F : Type 0) : Type 0 where
  pub paused : Bool
  pub last_nav : Option (NavSnapshotRow F)
  pub total_shares : F
  pub queued_withdrawals : ℕ
  pub pending_changes : ℕ
  pub recent : List (AuditRow F)

abbrev pub nothing_found : Found
nothing_found = record { detected = none; swept = none; telegram_id = none }

abbrev pub or_else : {A : Type 0} → Option A → Option A → Option A
or_else none b = b
or_else (some a) b = some a

abbrev pub is_unique_violation : Thrown → Bool
is_unique_violation unique_violation = true
is_unique_violation _ = false

module _ {F : Type 0} where
  unfoldable pub handle_pause : (operator now : ℕ) → Action F (Unit {0})
  handle_pause operator now = do
    set_flag vault_paused_flag "1"
    write_audit now (some operator) vault_paused

  -- An empty value stands for a flag that is not set.
  unfoldable pub handle_resume : (operator now : ℕ) → Action F (Unit {0})
  handle_resume operator now = do
    set_flag vault_paused_flag ""
    write_audit now (some operator) vault_resumed

  abbrev pub reset_user : (operator target now : ℕ) → Option VaultUser → Action F ResetReply
  reset_user operator target now none = pure no_such_user
  reset_user operator target now (some u) = do
    clear_user_totp target
    write_audit now (some operator) (totp_reset target)
    pure reset

  unfoldable pub handle_reset_totp : (operator target now : ℕ) → Action F ResetReply
  handle_reset_totp operator target now = do
    u ← gets (get_user target)
    reset_user operator target now u

  -- The row counts for the first `deposit_detected` and the first `deposit_swept` of the signature alone; the
  -- user is that of the former's row as soon as it comes by.
  abbrev pub scan_event : (sig : String) → Option ℕ → AuditEvent F → Found → Found
  scan_event sig user (deposit_detected s sol bert) f =
      if str_eq s sig && is_null f.detected
      then record { detected = some (sol, bert); swept = f.swept; telegram_id = user }
      else f
  scan_event sig user (deposit_swept s sweep sol bert at) f =
      if str_eq s sig && is_null f.swept
      then record {
        detected = f.detected;
        swept = some (sweep, sol, bert, at);
        telegram_id = or_else f.telegram_id user;
      }
      else f
  scan_event sig user e f = f

  abbrev pub scan_row : (sig : String) → AuditRow F → Found → Found
  scan_row sig r f =
      if is_null f.detected || is_null f.swept then scan_event sig r.telegram_id r.event f else f

  unfoldable pub scan : (sig : String) → List (AuditRow F) → Found → Found
  scan sig [] f = f
  scan sig (r ∷ rs) f = scan sig rs (scan_row sig r f)

module _ {F : Type 0} ⦃num : Arith F⦄ where
  unfoldable pub handle_status : Db F → VaultStatus F
  handle_status d = record {
    paused = is_vault_paused d;
    last_nav = latest_nav_snapshot d;
    total_shares = total_shares d;
    queued_withdrawals = count_pending_withdrawals d;
    pending_changes = count_pending_whitelist_changes d;
    recent = list_recent_audit_events 5 d;
  }

  -- `computeNavPerShare({ totalUsd: snap?.totalValueUsd ?? 0, totalShares })`
  abbrev pub recredit_price : Db F → F
  recredit_price d =
      compute_nav_per_share
        (elim (latest_nav_snapshot d) [ none ↦ num.lit 0 0 | some s ↦ s.total_value_usd ])
        (total_shares d)

  abbrev pub minted_of : (sig : String) → List (VaultDeposit F) → F
  minted_of sig ds = elim (find (λ r. str_eq r.inbound_tx_sig sig) ds) [
    | none ↦ num.lit 0 0
    | some r ↦ r.shares_minted
  ]

  abbrev pub after_credit :
      (operator now : ℕ) → CreditParams F → Result (Unit {0}) → Action F (RecreditReply F)
  after_credit operator now p (err e) =
      if is_unique_violation e then pure already_credited_race else pure (recredit_failed e)
  after_credit operator now p (ok _) = do
    minted ← gets (λ d. minted_of p.inbound_tx_sig (list_deposits_for_user p.telegram_id d))
    write_audit now (some operator) (
        deposit_recredited p.inbound_tx_sig p.sweep_tx_sig p.telegram_id minted
          p.nav_per_share_at_deposit)
    pure (recredited minted p.telegram_id p.nav_per_share_at_deposit)

  abbrev pub recredit_params :
      (sig : String) (now user : ℕ) (amounts : ℕ × ℕ) (sweep : String × ℕ × ℕ × ℕ)
      → Mid F
      → (nav_per_share : F) → CreditParams F
  recredit_params sig now user (sol, bert) (sweep, _, _, at) mid nav_per_share = record {
    telegram_id = user;
    inbound_tx_sig = sig;
    sweep_tx_sig = sweep;
    sol_lamports = sol;
    bert_raw = bert;
    sol_usd = mid.sol_usd;
    bert_usd = mid.bert_usd;
    nav_per_share_at_deposit = nav_per_share;
    confirmed_at = at;
    swept_at = now;
    now = now;
  }

  abbrev pub recredit_at :
      (operator now : ℕ) (mid : Option (Mid F)) (sig : String) (user : ℕ) (amounts : ℕ × ℕ)
      (sweep : String × ℕ × ℕ × ℕ)
      → Action F (RecreditReply F)
  recredit_at operator now none sig user amounts sweep = pure oracle_is_down
  recredit_at operator now (some mid) sig user amounts sweep = do
    nav_per_share ← gets recredit_price
    r ← attempt (credit (recredit_params sig now user amounts sweep mid nav_per_share))
    after_credit operator now (recredit_params sig now user amounts sweep mid nav_per_share) r

  abbrev pub recredit_user :
      (operator now : ℕ) (mid : Option (Mid F)) (sig : String) (amounts : ℕ × ℕ)
      (sweep : String × ℕ × ℕ × ℕ)
      → Option ℕ
      → Action F (RecreditReply F)
  recredit_user operator now mid sig amounts sweep none = pure no_user
  recredit_user operator now mid sig amounts sweep (some user) =
      if str_eq sweep.0 ""
      then pure no_sweep_sig
      else recredit_at operator now mid sig user amounts sweep

  abbrev pub recredit_found :
      (operator now : ℕ) (mid : Option (Mid F)) (sig : String)
      → (detected : Option (ℕ × ℕ)) → (swept : Option (String × ℕ × ℕ × ℕ)) → (user : Option ℕ)
      → Action F (RecreditReply F)
  recredit_found operator now mid sig none swept user = pure not_detected
  recredit_found operator now mid sig (some amounts) none user = pure not_swept
  recredit_found operator now mid sig (some amounts) (some sweep) user =
      recredit_user operator now mid sig amounts sweep user

  -- With the credit engine wired, and what `getMid` answers.
  unfoldable pub handle_recredit_deposit :
      (operator now : ℕ) (mid : Option (Mid F)) (sig : String) → Action F (RecreditReply F)
  handle_recredit_deposit operator now mid sig = do
    known ← gets (has_deposit sig)
    f ← gets (λ d. scan sig (list_recent_audit_events 5000 d) nothing_found)
    if known
        then pure already_credited
        else recredit_found operator now mid sig f.detected f.swept f.telegram_id
