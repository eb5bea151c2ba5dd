-- ===== src/Commands/Safety/Acts.antt =====
-- What src/vault/commands.ts does once the second factor was shown, and the clock.
use bert_mm_bot.Prelude.{ℕ, String}
use bert_mm_bot.Prelude.Int.{ℤ}
use bert_mm_bot.Amounts.{Arith}
use bert_mm_bot.Commands.Chat.{Outside, CommandsConfig}
use bert_mm_bot.Commands.Gate.Forward.{IsForward, forward_rules}
use bert_mm_bot.Commands.Account.{do_deposit_reveal, do_balance_reveal}
use bert_mm_bot.Commands.Withdrawals.{do_withdraw}
use bert_mm_bot.Commands.Whitelist.{do_set_whitelist, do_cancel_whitelist}

module _ {F : Type 0} (out : Outside F) where
  pub IsForward-do_deposit_reveal :
      (user : ℕ) (chat_id : ℤ) → IsForward (do_deposit_reveal out user chat_id)
  unfolding do_deposit_reveal
  IsForward-do_deposit_reveal user chat_id = search forward_rules depth 20 fits 2000

  pub IsForward-do_set_whitelist :
      (cooldown_ms user : ℕ) (chat_id : ℤ) (address : String)
      → IsForward (do_set_whitelist out cooldown_ms user chat_id address)
  unfolding do_set_whitelist
  IsForward-do_set_whitelist cooldown_ms user chat_id address =
      search forward_rules depth 20 fits 2000

  pub IsForward-do_cancel_whitelist :
      (cooldown_ms user : ℕ) (chat_id : ℤ)
      → IsForward (do_cancel_whitelist out cooldown_ms user chat_id)
  unfolding do_cancel_whitelist
  IsForward-do_cancel_whitelist cooldown_ms user chat_id = search forward_rules depth 20 fits 2000

  pub IsForward-do_balance_reveal :
      ⦃num : Arith F⦄ (user : ℕ) (chat_id : ℤ) → IsForward (do_balance_reveal out user chat_id)
  unfolding do_balance_reveal
  IsForward-do_balance_reveal user chat_id = search forward_rules depth 20 fits 2000

  pub IsForward-do_withdraw :
      ⦃num : Arith F⦄ (config : CommandsConfig F) (user : ℕ) (chat_id : ℤ) (amount_usd : F)
      → IsForward (do_withdraw out config user chat_id amount_usd)
  unfolding do_withdraw
  IsForward-do_withdraw config user chat_id amount_usd = search forward_rules depth 30 fits 2000

pub ruleset act_rules = (
  IsForward-do_deposit_reveal, IsForward-do_balance_reveal, IsForward-do_withdraw,
  IsForward-do_set_whitelist, IsForward-do_cancel_whitelist,
)
