-- ===== src/Commands/Safety/Funds.antt =====
-- The handlers of withdrawals and of the whitelist in src/vault/commands.ts.
use bert_mm_bot.Prelude.{ℕ, String, true, Option}
use bert_mm_bot.Prelude.Int.{ℤ}
use bert_mm_bot.Amounts.{Arith}
use bert_mm_bot.Store.{Operation, VaultUser}
use bert_mm_bot.Commands.Chat.{Chat, Outside, CommandsConfig}
use bert_mm_bot.Commands.Safety.Acts.{act_rules}
use bert_mm_bot.Commands.Gate.Guards.{IsQuiet, Guards}
use bert_mm_bot.Commands.Gate.Checks.{handler_rules}
use bert_mm_bot.Commands.Withdrawals.{
  within_caps, handle_withdraw, respond_withdraw_amount_entry, respond_withdraw,
}
use bert_mm_bot.Commands.Whitelist.{
  set_whitelist_argument, handle_set_whitelist, respond_set_whitelist_address_entry,
  respond_set_whitelist, handle_cancel_whitelist, respond_cancel_whitelist,
}

module _ {F : Type 0} ⦃num : Arith F⦄ {out : Outside F} {user : ℕ} {code : String} {start : Chat F}
    ⦃quiet : IsQuiet out⦄ (config : CommandsConfig F) where
  pub handle_withdraw-Guards :
      (chat_id : ℤ) (text : String)
      → Guards out user code start true (handle_withdraw out config chat_id user text)
  unfolding handle_withdraw within_caps
  handle_withdraw-Guards chat_id text = search (handler_rules, act_rules) depth 40 fits 2000

  pub respond_withdraw_amount_entry-Guards :
      (chat_id : ℤ) (text : String)
      → Guards out user code start true (respond_withdraw_amount_entry out config chat_id user text)
  unfolding respond_withdraw_amount_entry
  respond_withdraw_amount_entry-Guards chat_id text =
      search (handler_rules, act_rules) depth 20 fits 2000

  pub respond_withdraw-Guards :
      (chat_id : ℤ) (amount_usd : F)
      → Guards out user code start true (respond_withdraw out config chat_id user code amount_usd)
  unfolding respond_withdraw
  respond_withdraw-Guards chat_id amount_usd = search (handler_rules, act_rules)

module _ {F : Type 0} {out : Outside F} {user : ℕ} {code : String} {start : Chat F}
    ⦃quiet : IsQuiet out⦄ (cooldown_ms : ℕ) where
  pub set_whitelist_argument-Guards :
      (chat_id : ℤ) (argument : Option String) (row : VaultUser)
      → Guards out user code start true
          (set_whitelist_argument out cooldown_ms chat_id user argument row)
  unfolding set_whitelist_argument
  set_whitelist_argument-Guards chat_id argument row =
      search (handler_rules, act_rules) depth 20 fits 2000

  pub handle_set_whitelist-Guards :
      (chat_id : ℤ) (text : String)
      → Guards out user code start true (handle_set_whitelist out cooldown_ms chat_id user text)
  unfolding handle_set_whitelist
  handle_set_whitelist-Guards chat_id text =
      search (handler_rules, act_rules, set_whitelist_argument-Guards)

  pub respond_set_whitelist_address_entry-Guards :
      (chat_id : ℤ) (text : String)
      → Guards out user code start true
          (respond_set_whitelist_address_entry out cooldown_ms chat_id user text)
  unfolding respond_set_whitelist_address_entry
  respond_set_whitelist_address_entry-Guards chat_id text =
      search (handler_rules, act_rules, handle_set_whitelist-Guards)

  pub respond_set_whitelist-Guards :
      (chat_id : ℤ) (op : Operation) (address : String)
      → Guards out user code start true
          (respond_set_whitelist out cooldown_ms chat_id user code op address)
  unfolding respond_set_whitelist
  respond_set_whitelist-Guards chat_id op address = search (handler_rules, act_rules)

  pub handle_cancel_whitelist-Guards :
      (chat_id : ℤ)
      → Guards out user code start true (handle_cancel_whitelist out cooldown_ms chat_id user)
  unfolding handle_cancel_whitelist
  handle_cancel_whitelist-Guards chat_id = search (handler_rules, act_rules) depth 10

  pub respond_cancel_whitelist-Guards :
      (chat_id : ℤ)
      → Guards out user code start true (respond_cancel_whitelist out cooldown_ms chat_id user code)
  unfolding respond_cancel_whitelist
  respond_cancel_whitelist-Guards chat_id = search (handler_rules, act_rules)
