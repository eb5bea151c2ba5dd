-- ===== src/Commands/Messages.antt =====
-- src/vault/commands.ts: `handleMessage`, which hands a plain text to what waits for it.
use bert_mm_bot.Prelude.{ℕ, String}
use bert_mm_bot.Prelude.Int.{ℤ}
use bert_mm_bot.Amounts.{Arith}
use bert_mm_bot.Store.{op_setwhitelist_first, op_setwhitelist_change}
use bert_mm_bot.RateLimiter.{get}
use bert_mm_bot.Text.{trim}
use bert_mm_bot.Commands.Chat.{
  Handler, Outside, CommandsConfig, PendingAction, disclaimer, totp_setup, deposit_reveal_code,
  balance_reveal_code, withdraw_amount_entry, withdraw_code, setwhitelist_address_entry,
  setwhitelist_first, setwhitelist_change, cancelwhitelist, ◌>>=◌, pure, asks, match_option,
}
use bert_mm_bot.Commands.Gate.{unless_locked}
use bert_mm_bot.Commands.Account.{
  respond_totp_setup_confirm, respond_deposit_reveal, respond_balance_reveal,
}
use bert_mm_bot.Commands.Withdrawals.{respond_withdraw_amount_entry, respond_withdraw}
use bert_mm_bot.Commands.Whitelist.{
  respond_set_whitelist_address_entry, respond_set_whitelist, respond_cancel_whitelist,
}

module _ {F : Type 0} ⦃num : Arith F⦄ (out : Outside F) (config : CommandsConfig F) where
  abbrev pub respond :
      (chat_id : ℤ) (user : ℕ) (text : String) → PendingAction F → Handler F (Unit {0})
  respond chat_id user text disclaimer = pure tt
  respond chat_id user text totp_setup = respond_totp_setup_confirm out chat_id user (trim text)
  respond chat_id user text deposit_reveal_code =
      respond_deposit_reveal out chat_id user (trim text)
  respond chat_id user text balance_reveal_code =
      respond_balance_reveal out chat_id user (trim text)
  respond chat_id user text withdraw_amount_entry =
      respond_withdraw_amount_entry out config chat_id user text
  respond chat_id user text (withdraw_code amount_usd) =
      respond_withdraw out config chat_id user (trim text) amount_usd
  respond chat_id user text setwhitelist_address_entry =
      respond_set_whitelist_address_entry out config.cooldown_ms chat_id user text
  respond chat_id user text (setwhitelist_first address) =
      respond_set_whitelist out config.cooldown_ms chat_id user (trim text) op_setwhitelist_first
        address
  respond chat_id user text (setwhitelist_change address) =
      respond_set_whitelist out config.cooldown_ms chat_id user (trim text) op_setwhitelist_change
        address
  respond chat_id user text cancelwhitelist =
      respond_cancel_whitelist out config.cooldown_ms chat_id user (trim text)

  abbrev pub respond_unless_locked :
      (chat_id : ℤ) (user : ℕ) (text : String) → PendingAction F → Handler F (Unit {0})
  respond_unless_locked chat_id user text disclaimer = pure tt
  respond_unless_locked chat_id user text action =
      unless_locked out chat_id user (respond chat_id user text action)

  unfoldable pub handle_message : (chat_id : ℤ) (user : ℕ) (text : String) → Handler F (Unit {0})
  handle_message chat_id user text = do
    action ← asks (λ c. get user c.pending)
    match_option action (pure tt) (respond_unless_locked chat_id user text)
