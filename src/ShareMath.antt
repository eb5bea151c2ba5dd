-- ===== src/ShareMath.antt =====
-- src/vault/shareMath.ts, and `computeNav` and `computeVaultStats` of src/vault/navSnapshot.ts.
use bert_mm_bot.Prelude.{ℕ, ◌^◌, Option, none, some, ◌||◌, if◌then◌else◌}
use bert_mm_bot.Prelude.Int.{pos}
use bert_mm_bot.Amounts.{Arith}
use bert_mm_bot.Store.{Result, ok, err, bad_nav, bad_prices, NavSnapshotRow}

abbrev pub sol_decimals : ℕ
sol_decimals = 9

abbrev pub bert_decimals : ℕ
bert_decimals = 6

pub record FeeSplit (F : Type 0) : Type 0 where
  pub fee_shares : F
  pub net_shares : F

pub record TokenSplit (F : Type 0) : Type 0 where
  pub sol_lamports : F
  pub bert_raw : F

pub record NavInputs (F : Type 0) : Type 0 where
  pub free_sol_lamports : ℕ
  pub free_bert_raw : ℕ
  pub position_total_value_usd : F
  pub uncollected_fees_bert : ℕ
  pub uncollected_fees_sol : ℕ
  pub sol_usd : F
  pub bert_usd : F

pub record NavSnapshot (F : Type 0) : Type 0 where
  pub total_usd : F
  pub free_usd : F
  pub position_usd : F
  pub fees_usd : F
  pub sol_frac : F

pub record VaultStats (F : Type 0) : Type 0 where
  pub depositor_count : ℕ
  pub tvl_usd : F
  pub total_shares : F
  pub nav_per_share : F
  pub nav_per_share_delta_24h_pct : F
  pub queued_withdrawals : ℕ

module _ {F : Type 0} ⦃num : Arith F⦄ where
  open num use {add, sub, mul, div, lt, le, floor, lit, of_int}

  unfoldable pub compute_nav_per_share : (total_usd total_shares : F) → F
  compute_nav_per_share total_usd total_shares =
      if le total_shares (lit 0 0) then lit 1 0 else div total_usd total_shares

  unfoldable pub compute_shares_for_deposit : (deposit_usd nav_per_share : F) → Result F
  compute_shares_for_deposit deposit_usd nav_per_share =
      if le nav_per_share (lit 0 0) then err bad_nav else ok (div deposit_usd nav_per_share)

  unfoldable pub split_fee : (shares_burned fee_bps : F) → FeeSplit F
  split_fee shares_burned fee_bps =
      let fee = mul shares_burned (div fee_bps (lit 10000 0)) in
      record { fee_shares = fee; net_shares = sub shares_burned fee }

  unfoldable pub usd_for_shares : (net_shares nav_per_share : F) → F
  usd_for_shares net_shares nav_per_share = mul net_shares nav_per_share

  unfoldable pub split_usd_into_tokens : (usd sol_frac sol_usd bert_usd : F) → Result (TokenSplit F)
  split_usd_into_tokens usd sol_frac sol_usd bert_usd =
      if le sol_usd (lit 0 0) || le bert_usd (lit 0 0)
      then err bad_prices
      else ok (record {
        sol_lamports = floor (mul (div (mul usd sol_frac) sol_usd) (lit (10 ^ sol_decimals) 0));
        bert_raw =
            floor
              (mul (div (mul usd (sub (lit 1 0) sol_frac)) bert_usd) (lit (10 ^ bert_decimals) 0));
      })

  -- Lamports, or raw BERT units, as a number of whole tokens.
  abbrev pub whole_sol : ℕ → F
  whole_sol lamports = div (of_int (pos lamports)) (lit (10 ^ sol_decimals) 0)

  abbrev pub whole_bert : ℕ → F
  whole_bert raw = div (of_int (pos raw)) (lit (10 ^ bert_decimals) 0)

  unfoldable pub compute_nav : NavInputs F → NavSnapshot F
  compute_nav i =
      let free_sol_usd : F = mul (whole_sol i.free_sol_lamports) i.sol_usd in
      let free_usd : F = add free_sol_usd (mul (whole_bert i.free_bert_raw) i.bert_usd) in
      let fees_usd : F =
        add (mul (whole_bert i.uncollected_fees_bert) i.bert_usd)
          (mul (whole_sol i.uncollected_fees_sol) i.sol_usd) in
      record {
        total_usd = add (add free_usd i.position_total_value_usd) fees_usd;
        free_usd = free_usd;
        position_usd = i.position_total_value_usd;
        fees_usd = fees_usd;
        sol_frac = if lt (lit 0 0) free_usd then div free_sol_usd free_usd else lit 5 1;
      }

  abbrev pub delta_pct : F → Option (NavSnapshotRow F) → F
  delta_pct now none = lit 0 0
  delta_pct now (some s) =
      if lt (lit 0 0) s.nav_per_share
      then mul (div (sub now s.nav_per_share) s.nav_per_share) (lit 100 0)
      else lit 0 0

  unfoldable pub compute_vault_stats :
      (depositor_count : ℕ) (total_shares tvl_usd : F) (queued_withdrawals : ℕ)
      (snapshot_24h_ago : Option (NavSnapshotRow F))
      → VaultStats F
  unfolding compute_nav_per_share
  compute_vault_stats depositor_count total_shares tvl_usd queued_withdrawals snapshot_24h_ago =
      let nav_per_share : F = compute_nav_per_share tvl_usd total_shares in
      record {
        depositor_count = depositor_count;
        tvl_usd = tvl_usd;
        total_shares = total_shares;
        nav_per_share = nav_per_share;
        nav_per_share_delta_24h_pct = delta_pct nav_per_share snapshot_24h_ago;
        queued_withdrawals = queued_withdrawals;
      }
