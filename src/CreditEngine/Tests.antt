-- ===== src/CreditEngine/Tests.antt =====
-- A credit at concrete amounts.
use bert_mm_bot.Prelude.{ℕ, ◌≡◌, ◌⊎◌, false, [], ◌∷◌, none}
use bert_mm_bot.Amounts.Fixed.{fixed_arith}
use bert_mm_bot.ShareMath.{compute_shares_for_deposit}
use bert_mm_bot.Store.{World, Db, Thrown, ok, err, UserRow, depositor, has_deposit}
use bert_mm_bot.CreditEngine.{CreditParams, deposit_usd, credit}
use bert_mm_bot.CreditEngine.Laws.{with_audit, with_snapshot, with_deposit, credit_refines}

abbrev carol : UserRow
carol = record {
  telegram_id = 9;
  role = depositor;
  deposit_address = "CarolAddr";
  deposit_secret_enc = [];
  deposit_secret_iv = [];
  totp_secret_enc = none;
  totp_secret_iv = none;
  totp_enrolled_at = none;
  totp_last_used_counter = none;
  whitelist_address = none;
  whitelist_set_at = none;
  disclaimer_at = 1;
  created_at = 1;
}

abbrev empty_vault : Db ℕ
empty_vault = record {
  users = carol ∷ [];
  shares = [];
  deposits = [];
  withdrawals = [];
  changes = [];
  navs = [];
  audit = [];
  flags = [];
  next_deposit = 1;
  next_withdrawal = 1;
  next_change = 1;
}

abbrev world : World ℕ
world = record { db = empty_vault; faults = []; paid = [] }

abbrev params : CreditParams ℕ
params = record {
  telegram_id = 9;
  inbound_tx_sig = "Inbound";
  sweep_tx_sig = "Sweep";
  sol_lamports = 2000000000;
  bert_raw = 0;
  sol_usd = 150000000;
  bert_usd = 10000;
  nav_per_share_at_deposit = 1000000;
  confirmed_at = 10;
  swept_at = 20;
  now = 20;
}

credit_refines_example :
    let x = credit params world in
    ((e : Thrown) × (x.0 ≡ err e) × (x.1.db ≡ empty_vault))
    ⊎ ((m : ℕ) × (compute_shares_for_deposit (deposit_usd params) 1000000 ≡ ok m)
        × (has_deposit "Inbound" empty_vault ≡ false)
        × (x.0 ≡ ok tt)
        × (x.1.db ≡ with_audit params m (with_snapshot params (with_deposit params m empty_vault))))
credit_refines_example = credit_refines params world
