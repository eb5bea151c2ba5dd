-- ===== src/CreditEngine.antt =====
-- src/vault/creditEngine.ts
pub mod Laws
mod Tests
use bert_mm_bot.Prelude.{ℕ, String, some}
use bert_mm_bot.Amounts.{Arith}
use bert_mm_bot.ShareMath.{compute_shares_for_deposit, whole_sol, whole_bert}
use bert_mm_bot.Store.{
  Action, Result, of_result, gets, with_transaction, ◌>>=◌, ◌>>◌, VaultDeposit, deposit,
  deposit_credited, credit_deposit, total_shares, insert_nav_snapshot, write_audit,
}

pub record CreditParams (F : Type 0) : Type 0 where
  pub telegram_id : ℕ
  pub inbound_tx_sig : String
  pub sweep_tx_sig : String
  pub sol_lamports : ℕ
  pub bert_raw : ℕ
  pub sol_usd : F
  pub bert_usd : F
  pub nav_per_share_at_deposit : F
  pub confirmed_at : ℕ
  pub swept_at : ℕ
  pub now : ℕ

module _ {F : Type 0} ⦃num : Arith F⦄ where
  abbrev pub deposit_usd : CreditParams F → F
  deposit_usd p =
      num.add (num.mul (whole_sol p.sol_lamports) p.sol_usd)
        (num.mul (whole_bert p.bert_raw) p.bert_usd)

  -- The row for the deposits table, whose id the database assigns.
  abbrev pub deposit_row : CreditParams F → F → VaultDeposit F
  deposit_row p shares_minted = record {
    id = 0;
    telegram_id = p.telegram_id;
    inbound_tx_sig = p.inbound_tx_sig;
    sweep_tx_sig = some p.sweep_tx_sig;
    sol_lamports = p.sol_lamports;
    bert_raw = p.bert_raw;
    sol_usd = p.sol_usd;
    bert_usd = p.bert_usd;
    nav_per_share_at = p.nav_per_share_at_deposit;
    shares_minted = shares_minted;
    confirmed_at = p.confirmed_at;
    swept_at = some p.swept_at;
  }

  unfoldable pub credit_minted : CreditParams F → F → Action F (Unit {0})
  credit_minted p shares_minted = do
    id ← credit_deposit (deposit_row p shares_minted)
    total ← gets total_shares
    insert_nav_snapshot (record {
      ts = p.now;
      total_value_usd = num.mul total p.nav_per_share_at_deposit;
      total_shares = total;
      nav_per_share = p.nav_per_share_at_deposit;
      source = deposit;
    })
    write_audit p.now (some p.telegram_id)
        (deposit_credited p.inbound_tx_sig (deposit_usd p) shares_minted p.nav_per_share_at_deposit)

  unfoldable pub credit : CreditParams F → Action F (Unit {0})
  unfolding credit_minted
  credit p = do
    shares_minted ←
        of_result (compute_shares_for_deposit (deposit_usd p) p.nav_per_share_at_deposit)
    with_transaction (credit_minted p shares_minted)
