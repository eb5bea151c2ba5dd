-- ===== src/DepositPipeline.antt =====
-- src/vault/depositPipeline.ts. What the network, the oracle and the decryption answered is the
-- environment's (`Environment`), and so is what other tasks did while a call was awaited.
use bert_mm_bot.DepositWatcher.{InflowEvent}
use bert_mm_bot.Prelude.{ℕ, String, List, [], ◌∷◌, Option, none, some}
use bert_mm_bot.Amounts.{Arith}
use bert_mm_bot.Store.{
  Action, Result, ok, err, pure, gets, try_catch, attempt, ◌>>=◌, ◌>>◌, VaultUser, SweepFailure,
  decrypt_failed, oracle_unavailable_after_sweep, sweep_build_failed, sweep_submit_failed,
  credit_failed, deposit_detected, deposit_deferred_oracle_unavailable, deposit_swept,
  deposit_sweep_failed, get_user_by_deposit_address, get_user_secrets, Secrets, write_audit,
}
use bert_mm_bot.Sweeper.{SweepParams, Instruction, build_sweep_instructions}
use bert_mm_bot.CreditEngine.{CreditParams, credit}
use bert_mm_bot.Withdraw.Others.{Other}
use bert_mm_bot.Withdraw.Executor.{Mid, await}

pub record PipelineDeps : Type 0 where
  pub payer : String
  pub bert_mint : String
  pub rent_reserve_lamports : ℕ
  -- `getAssociatedTokenAddressSync` of the SPL library.
  pub ata : (mint owner : String) → String

pub record Environment (F : Type 0) : Type 0 where
  -- `deps.now()` at its calls.
  pub detected_at : ℕ
  pub deferred_at : ℕ
  pub failed_at : ℕ
  pub swept_at : ℕ
  -- The public key of the key pair that `decrypt` and `Keypair.fromSecretKey` yield.
  pub keypair : Secrets → Result String
  pub preflight_mid : Result (Option (Mid F))
  pub blockhash : Result (Unit {0})
  -- The signature of the sweep that `submitTx` sent.
  pub submit_tx : List Instruction → Result String
  pub mid : Result (Option (Mid F))
  pub nav_per_share : Result F
  pub during_preflight : List (Other F)
  pub during_blockhash : List (Other F)
  pub during_submit : List (Other F)
  pub during_mid : List (Other F)
  pub during_nav : List (Other F)

module _ {F : Type 0} ⦃num : Arith F⦄ (deps : PipelineDeps) (env : Environment F)
    (event : InflowEvent) where
  unfoldable pub record_failure : ℕ → SweepFailure → Action F (Unit {0})
  record_failure telegram_id reason =
      write_audit env.failed_at (some telegram_id)
        (deposit_sweep_failed event.inbound_tx_sig reason)

  abbrev pub credit_params : ℕ → String → Mid F → F → CreditParams F
  credit_params telegram_id sweep_sig mid nav_per_share = record {
    telegram_id = telegram_id;
    inbound_tx_sig = event.inbound_tx_sig;
    sweep_tx_sig = sweep_sig;
    sol_lamports = event.sol_lamports;
    bert_raw = event.bert_raw;
    sol_usd = mid.sol_usd;
    bert_usd = mid.bert_usd;
    nav_per_share_at_deposit = nav_per_share;
    confirmed_at = event.confirmed_at;
    swept_at = env.swept_at;
    now = env.swept_at;
  }

  -- The oracle's answer after the sweep decides.
  unfoldable pub credit_swept : ℕ → String → Option (Mid F) → Action F (Unit {0})
  credit_swept telegram_id sweep_sig none =
      record_failure telegram_id oracle_unavailable_after_sweep
  credit_swept telegram_id sweep_sig (some mid) = do
    nav_per_share ← await env.during_nav env.nav_per_share
    try_catch (credit (credit_params telegram_id sweep_sig mid nav_per_share))
        λ e. record_failure telegram_id (credit_failed e)

  unfoldable pub after_submit : ℕ → Result String → Action F (Unit {0})
  after_submit telegram_id (err e) = record_failure telegram_id (sweep_submit_failed e)
  after_submit telegram_id (ok sweep_sig) = do
    write_audit env.swept_at (some telegram_id) (
        deposit_swept event.inbound_tx_sig sweep_sig event.sol_lamports event.bert_raw
          event.confirmed_at)
    mid ← await env.during_mid env.mid
    credit_swept telegram_id sweep_sig mid

  unfoldable pub submit_sweep : ℕ → Result (List Instruction) → Action F (Unit {0})
  submit_sweep telegram_id (err e) = record_failure telegram_id (sweep_build_failed e)
  submit_sweep telegram_id (ok []) = pure tt
  submit_sweep telegram_id (ok (ix ∷ ixs)) = do
    await env.during_blockhash env.blockhash
    sweep_sig ← attempt (await env.during_submit (env.submit_tx (ix ∷ ixs)))
    after_submit telegram_id sweep_sig

  abbrev pub sweep_params : String → SweepParams
  sweep_params from_pubkey = record {
    from_pubkey = from_pubkey;
    to_wallet = deps.payer;
    sol_lamports = event.sol_lamports;
    bert_raw = event.bert_raw;
    bert_mint = deps.bert_mint;
    rent_reserve_lamports = deps.rent_reserve_lamports;
  }

  unfoldable pub sweep : ℕ → Result String → Action F (Unit {0})
  sweep telegram_id (err e) = record_failure telegram_id decrypt_failed
  sweep telegram_id (ok from_pubkey) =
      submit_sweep telegram_id (build_sweep_instructions deps.ata (sweep_params from_pubkey))

  unfoldable pub with_secrets : ℕ → Option Secrets → Action F (Unit {0})
  with_secrets telegram_id none = pure tt
  with_secrets telegram_id (some secrets) = sweep telegram_id (env.keypair secrets)

  -- The oracle's answer before the sweep decides.
  unfoldable pub when_healthy : ℕ → Option (Mid F) → Action F (Unit {0})
  when_healthy telegram_id none =
      write_audit env.deferred_at (some telegram_id)
        (deposit_deferred_oracle_unavailable event.inbound_tx_sig)
  when_healthy telegram_id (some _) = do
    secrets ← gets (get_user_secrets telegram_id)
    with_secrets telegram_id secrets

  unfoldable pub for_user : Option VaultUser → Action F (Unit {0})
  for_user none = pure tt
  for_user (some user) = do
    write_audit env.detected_at (some user.telegram_id)
        (deposit_detected event.inbound_tx_sig event.sol_lamports event.bert_raw)
    mid ← await env.during_preflight env.preflight_mid
    when_healthy user.telegram_id mid

  unfoldable pub on_inflow : Action F (Unit {0})
  on_inflow = do user ← gets (get_user_by_deposit_address event.deposit_address); for_user user
