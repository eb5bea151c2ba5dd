-- ===== src/Store/Rows.antt =====
-- The tables of src/stateStore.ts (`SCHEMA_SQL`) and the rows of src/vault/types.ts. Times are
-- epoch milliseconds; encrypted secrets are lists of bytes; a nullable column is an `Option`. A JSON
-- text that the code stores in `details_json` is the value that it encodes.
use bert_mm_bot.Prelude.{ℕ, String, Bool, true, false, List, Option}
use bert_mm_bot.Prelude.Int.{ℤ}

pub data Role : Type 0 where
  operator depositor : Role

-- A row of `vault_users`.
pub record UserRow : Type 0 where
  pub telegram_id : ℕ
  pub role : Role
  pub deposit_address : String
  pub deposit_secret_enc : List ℕ
  pub deposit_secret_iv : List ℕ
  pub totp_secret_enc : Option (List ℕ)
  pub totp_secret_iv : Option (List ℕ)
  pub totp_enrolled_at : Option ℕ
  pub totp_last_used_counter : Option ℕ
  pub whitelist_address : Option String
  pub whitelist_set_at : Option ℕ
  pub disclaimer_at : ℕ
  pub created_at : ℕ

-- What callers see of a user.
pub record VaultUser : Type 0 where
  pub telegram_id : ℕ
  pub role : Role
  pub deposit_address : String
  pub totp_enrolled_at : Option ℕ
  pub totp_last_used_counter : Option ℕ
  pub whitelist_address : Option String
  pub whitelist_set_at : Option ℕ
  pub disclaimer_at : ℕ
  pub created_at : ℕ

pub record VaultDeposit (F : Type 0) : Type 0 where
  pub id : ℕ
  pub telegram_id : ℕ
  pub inbound_tx_sig : String
  pub sweep_tx_sig : Option String
  pub sol_lamports : ℕ
  pub bert_raw : ℕ
  pub sol_usd : F
  pub bert_usd : F
  pub nav_per_share_at : F
  pub shares_minted : F
  pub confirmed_at : ℕ
  pub swept_at : Option ℕ

pub data WithdrawalStatus : Type 0 where
  queued processing completed failed : WithdrawalStatus

abbrev pub is_queued : WithdrawalStatus → Bool
is_queued queued = true
is_queued _ = false

abbrev pub is_failed : WithdrawalStatus → Bool
is_failed failed = true
is_failed _ = false

abbrev pub is_processing : WithdrawalStatus → Bool
is_processing processing = true
is_processing _ = false

abbrev pub is_completed : WithdrawalStatus → Bool
is_completed completed = true
is_completed _ = false

-- An exception: a statement that SQLite refuses, or one that the code or a library throws.
pub data Thrown : Type 0 where
  sqlite unique_violation foreign_key_violation : Thrown
  no_row_updated not_found wrong_status has_tx_sig : Thrown
  bad_nav bad_prices not_integral nothing_to_transfer insufficient_sol : Thrown
  external : String → Thrown

-- Why a withdrawal failed. `message` is an exception's message, `unexpected` one that `drain` caught.
pub data Reason : Type 0 where
  oracle_unavailable reserves_insufficient : Reason
  message unexpected : Thrown → Reason

pub record VaultWithdrawal (F : Type 0) : Type 0 where
  pub id : ℕ
  pub telegram_id : ℕ
  pub status : WithdrawalStatus
  pub destination : String
  pub shares_burned : F
  pub fee_shares : F
  pub nav_per_share_at : Option F
  pub sol_lamports_out : Option ℤ
  pub bert_raw_out : Option ℤ
  pub tx_sig : Option String
  pub failure_reason : Option Reason
  pub queued_at : ℕ
  pub processed_at : Option ℕ

pub data ChangeStatus : Type 0 where
  pending activated cancelled : ChangeStatus

abbrev pub is_pending : ChangeStatus → Bool
is_pending pending = true
is_pending _ = false

pub record PendingWhitelistChange : Type 0 where
  pub id : ℕ
  pub telegram_id : ℕ
  pub old_address : Option String
  pub new_address : String
  pub requested_at : ℕ
  pub activates_at : ℕ
  pub status : ChangeStatus
  pub cancel_reason : Option String

pub data NavSource : Type 0 where
  hourly deposit withdrawal bootstrap : NavSource

pub record NavSnapshotRow (F : Type 0) : Type 0 where
  pub ts : ℕ
  pub total_value_usd : F
  pub total_shares : F
  pub nav_per_share : F
  pub source : NavSource

-- Why a deposit was not swept or not credited, with the exception behind it.
pub data SweepFailure : Type 0 where
  decrypt_failed oracle_unavailable_after_sweep : SweepFailure
  sweep_build_failed sweep_submit_failed credit_failed : Thrown → SweepFailure

-- What a code was asked for.
pub data Operation : Type 0 where
  totp_setup_confirm op_deposit_reveal op_balance_reveal op_withdraw : Operation
  op_setwhitelist_first op_setwhitelist_change op_cancelwhitelist : Operation

-- The audit events that the modelled code writes, each with its details.
pub data AuditEvent (F : Type 0) : Type 0 where
  deposit_credited : String → F → F → F → AuditEvent F
  deposit_detected : String → ℕ → ℕ → AuditEvent F
  deposit_deferred_oracle_unavailable : String → AuditEvent F
  deposit_swept : String → String → ℕ → ℕ → ℕ → AuditEvent F
  deposit_sweep_failed : String → SweepFailure → AuditEvent F
  withdrawal_failed : ℕ → Reason → AuditEvent F
  withdrawal_db_sync_failed : ℕ → String → Thrown → AuditEvent F
  withdrawal_completed : ℕ → String → F → F → F → F → AuditEvent F
  withdrawal_requeued : ℕ → Option Reason → AuditEvent F
  whitelist_activated : ℕ → Option String → String → AuditEvent F
  vault_paused vault_resumed disclaimer_accepted totp_enrolled deposit_reveal : AuditEvent F
  totp_reset : ℕ → AuditEvent F
  totp_verify_failed : (op : Operation) → (failures : Option ℕ) → AuditEvent F
  totp_rate_limited : (until : ℕ) → AuditEvent F
  balance_reveal : (shares nav_per_share usd : F) → AuditEvent F
  withdrawal_queued :
      (id : ℕ) → (amount_usd shares_burned fee_shares : F) → (destination : String) → AuditEvent F
  whitelist_set : (address : String) → (immediate : Bool) → (activates_at : ℕ) → AuditEvent F
  whitelist_cancel : (cancelled : Bool) → AuditEvent F
  deposit_recredited :
      (inbound_tx_sig sweep_tx_sig : String) (target : ℕ) (shares_minted nav_per_share : F)
      → AuditEvent F

pub record AuditRow (F : Type 0) : Type 0 where
  pub ts : ℕ
  pub telegram_id : Option ℕ
  pub event : AuditEvent F

-- The database. The three counters are SQLite's AUTOINCREMENT sequences.
pub record Db (F : Type 0) : Type 0 where
  pub users : List UserRow
  pub shares : List (ℕ × F)
  pub deposits : List (VaultDeposit F)
  pub withdrawals : List (VaultWithdrawal F)
  pub changes : List PendingWhitelistChange
  pub navs : List (NavSnapshotRow F)
  pub audit : List (AuditRow F)
  pub flags : List (String × String)
  pub next_deposit : ℕ
  pub next_withdrawal : ℕ
  pub next_change : ℕ

-- A transfer that landed on the chain, with the withdrawal for which it was made.
pub record Payment : Type 0 where
  pub withdrawal : ℕ
  pub destination : String
  pub sol_lamports : ℤ
  pub bert_raw : ℤ
