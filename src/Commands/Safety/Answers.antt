-- ===== src/Commands/Safety/Answers.antt =====
-- What is sent after a prompt, and what is tapped, in src/vault/commands.ts and src/vault/uiCallbacks.ts.
use bert_mm_bot.Prelude.{ℕ, String, true, false, some}
use bert_mm_bot.Prelude.Int.{ℤ}
use bert_mm_bot.Amounts.{Arith}
use bert_mm_bot.Store.{op_setwhitelist_first, op_setwhitelist_change}
use bert_mm_bot.Text.{trim}
use bert_mm_bot.Commands.Chat.{
  Outside, CommandsConfig, PendingAction, disclaimer, totp_setup, deposit_reveal_code,
  balance_reveal_code, withdraw_amount_entry, withdraw_code, setwhitelist_address_entry,
  setwhitelist_first, setwhitelist_change, cancelwhitelist,
}
use bert_mm_bot.Commands.Gate.Guards.{IsQuiet}
use bert_mm_bot.Commands.Gate.Rules.{Guards-pure, Guards-reply}
use bert_mm_bot.Commands.Gate.Checks.{Guards-unless_locked, handler_rules}
use bert_mm_bot.Commands.Messages.{respond_unless_locked, handle_message}
use bert_mm_bot.Commands.Router.{
  Button, press, nav_home, nav_create_account, nav_settings, enr_accept, enr_decline, act_deposit,
  act_balance, act_stats, act_withdraw, wd_p25, wd_p50, wd_p75, wd_p100, wd_custom, wl_set,
  wl_cancel, cancel,
}
use bert_mm_bot.Commands.Safety.Accounts.{
  handle_account-Guards, handle_accept-Guards, handle_decline-Guards, handle_deposit-Guards,
  handle_balance-Guards, handle_stats-Guards, handle_menu-Guards, respond_totp_setup_confirm-Guards,
  respond_deposit_reveal-Guards, respond_balance_reveal-Guards,
}
use bert_mm_bot.Commands.Safety.Funds.{
  handle_withdraw-Guards, respond_withdraw_amount_entry-Guards, respond_withdraw-Guards,
  respond_set_whitelist_address_entry-Guards, respond_set_whitelist-Guards,
  handle_cancel_whitelist-Guards, respond_cancel_whitelist-Guards,
}
use bert_mm_bot.Commands.Gate.Needs.{
  NeedsFactor, Guards-NeedsFactor, asks-NeedsFactor, match_option-NeedsFactor,
}

module _ {F : Type 0} ⦃num : Arith F⦄ {out : Outside F} {user : ℕ} ⦃quiet : IsQuiet out⦄
    (config : CommandsConfig F) where
  respond-NeedsFactor :
      (chat_id : ℤ) (s : String) (a : PendingAction F)
      → NeedsFactor out user (trim s) (respond_unless_locked out config chat_id user s a)
  respond-NeedsFactor chat_id s disclaimer = Guards-NeedsFactor true _ (λ start. Guards-pure tt)
  respond-NeedsFactor chat_id s totp_setup =
      Guards-NeedsFactor false _ (λ start.
        Guards-unless_locked chat_id _ (respond_totp_setup_confirm-Guards chat_id (trim s)))
  respond-NeedsFactor chat_id s deposit_reveal_code =
      Guards-NeedsFactor true _
        (λ start. Guards-unless_locked chat_id _ (respond_deposit_reveal-Guards chat_id))
  respond-NeedsFactor chat_id s balance_reveal_code =
      Guards-NeedsFactor true _
        (λ start. Guards-unless_locked chat_id _ (respond_balance_reveal-Guards chat_id))
  respond-NeedsFactor chat_id s withdraw_amount_entry = Guards-NeedsFactor true _ (λ start.
      Guards-unless_locked chat_id _ (respond_withdraw_amount_entry-Guards config chat_id s))
  respond-NeedsFactor chat_id s (withdraw_code amount_usd) =
      Guards-NeedsFactor true _ (λ start.
        Guards-unless_locked chat_id _ (respond_withdraw-Guards config chat_id amount_usd))
  respond-NeedsFactor chat_id s setwhitelist_address_entry = Guards-NeedsFactor true _ (λ start.
      Guards-unless_locked chat_id _
        (respond_set_whitelist_address_entry-Guards config.cooldown_ms chat_id s))
  respond-NeedsFactor chat_id s (setwhitelist_first address) = Guards-NeedsFactor true _ (λ start.
      Guards-unless_locked chat_id _
        (respond_set_whitelist-Guards config.cooldown_ms chat_id op_setwhitelist_first address))
  respond-NeedsFactor chat_id s (setwhitelist_change address) = Guards-NeedsFactor true _ (λ start.
      Guards-unless_locked chat_id _
        (respond_set_whitelist-Guards config.cooldown_ms chat_id op_setwhitelist_change address))
  respond-NeedsFactor chat_id s cancelwhitelist = Guards-NeedsFactor true _ (λ start.
      Guards-unless_locked chat_id _ (respond_cancel_whitelist-Guards config.cooldown_ms chat_id))

  pub handle_message-NeedsFactor :
      (chat_id : ℤ) (s : String)
      → NeedsFactor out user (trim s) (handle_message out config chat_id user s)
  unfolding handle_message
  handle_message-NeedsFactor chat_id s =
      asks-NeedsFactor _ _ λ o. match_option-NeedsFactor o _ (respond-NeedsFactor chat_id s)

  pub press-NeedsFactor :
      (chat_id : ℤ) (code : String) (b : Button)
      → NeedsFactor out user code (press out config chat_id user b)
  unfolding press
  press-NeedsFactor chat_id code nav_home =
      Guards-NeedsFactor false _ (λ start. handle_menu-Guards chat_id)
  press-NeedsFactor chat_id code nav_create_account =
      Guards-NeedsFactor false _ (λ start. handle_account-Guards chat_id)
  press-NeedsFactor chat_id code nav_settings =
      Guards-NeedsFactor true _ (λ start. Guards-reply chat_id _)
  press-NeedsFactor chat_id code enr_accept =
      Guards-NeedsFactor false _ (λ start. handle_accept-Guards chat_id)
  press-NeedsFactor chat_id code enr_decline =
      Guards-NeedsFactor false _ (λ start. handle_decline-Guards chat_id)
  press-NeedsFactor chat_id code act_deposit =
      Guards-NeedsFactor true _ (λ start. handle_deposit-Guards chat_id)
  press-NeedsFactor chat_id code act_balance =
      Guards-NeedsFactor true _ (λ start. handle_balance-Guards chat_id)
  press-NeedsFactor chat_id code act_stats =
      Guards-NeedsFactor false _ (λ start. handle_stats-Guards chat_id (some user))
  press-NeedsFactor chat_id code act_withdraw =
      Guards-NeedsFactor true _ (λ start. handle_withdraw-Guards config chat_id _)
  press-NeedsFactor chat_id code wd_p25 =
      Guards-NeedsFactor true _ (λ start. handle_withdraw-Guards config chat_id _)
  press-NeedsFactor chat_id code wd_p50 =
      Guards-NeedsFactor true _ (λ start. handle_withdraw-Guards config chat_id _)
  press-NeedsFactor chat_id code wd_p75 =
      Guards-NeedsFactor true _ (λ start. handle_withdraw-Guards config chat_id _)
  press-NeedsFactor chat_id code wd_p100 =
      Guards-NeedsFactor true _ (λ start. handle_withdraw-Guards config chat_id _)
  press-NeedsFactor chat_id code wd_custom =
      Guards-NeedsFactor true _ (λ start. search handler_rules)
  press-NeedsFactor chat_id code wl_set = Guards-NeedsFactor true _ (λ start. search handler_rules)
  press-NeedsFactor chat_id code wl_cancel =
      Guards-NeedsFactor true _ (λ start. handle_cancel_whitelist-Guards config.cooldown_ms chat_id)
  press-NeedsFactor chat_id code cancel = Guards-NeedsFactor true _ (λ start. search handler_rules)
