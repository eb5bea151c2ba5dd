-- ===== src/Commands/Router.antt =====
-- src/vault/uiCallbacks.ts: what a tap on a button does.
use bert_mm_bot.Prelude.{ℕ, String, List, [], ◌∷◌, Option, none, some, str_eq, if◌then◌else◌}
use bert_mm_bot.Prelude.Int.{ℤ}
use bert_mm_bot.Amounts.{Arith}
use bert_mm_bot.Commands.Chat.{
  Handler, Outside, CommandsConfig, withdraw_amount_entry, setwhitelist_address_entry,
  settings_menu, enter_usd_amount, paste_address, cancelled_action, ◌>>◌, pure, set_pending,
  clear_pending, match_option, reply,
}
use bert_mm_bot.Commands.Account.{
  handle_account, handle_accept, handle_decline, handle_deposit, handle_balance, handle_stats,
  handle_menu,
}
use bert_mm_bot.Commands.Withdrawals.{handle_withdraw}
use bert_mm_bot.Commands.Whitelist.{handle_cancel_whitelist}

pub data Button : Type 0 where
  nav_home nav_create_account nav_settings enr_accept enr_decline act_deposit act_balance
        act_stats :
      Button
  act_withdraw wd_p25 wd_p50 wd_p75 wd_p100 wd_custom wl_set wl_cancel cancel : Button

-- The `case`s of the router.
abbrev pub cases : List (String × Button)
cases =
    ("nav:home", nav_home)
    ∷ ("nav:create_account", nav_create_account)
    ∷ ("nav:settings", nav_settings)
    ∷ ("enr:accept", enr_accept)
    ∷ ("enr:decline", enr_decline)
    ∷ ("act:deposit", act_deposit)
    ∷ ("act:balance", act_balance)
    ∷ ("act:stats", act_stats)
    ∷ ("act:withdraw", act_withdraw)
    ∷ ("wd:p25", wd_p25)
    ∷ ("wd:p50", wd_p50)
    ∷ ("wd:p75", wd_p75)
    ∷ ("wd:p100", wd_p100)
    ∷ ("wd:custom", wd_custom)
    ∷ ("wl:set", wl_set)
    ∷ ("wl:cancel", wl_cancel)
    ∷ ("cancel", cancel)
    ∷ []

abbrev pub button_in : List (String × Button) → String → Option Button
button_in [] callback_data = none
button_in (c ∷ cs) callback_data =
    if str_eq c.0 callback_data then some c.1 else button_in cs callback_data

unfoldable pub button_of : String → Option Button
button_of callback_data = button_in cases callback_data

module _ {F : Type 0} ⦃num : Arith F⦄ (out : Outside F) (config : CommandsConfig F) where
  unfoldable pub press : (chat_id : ℤ) (user : ℕ) → Button → Handler F (Unit {0})
  press chat_id user nav_home = handle_menu out chat_id user
  press chat_id user nav_create_account = handle_account out chat_id user
  press chat_id user nav_settings = reply out chat_id settings_menu
  press chat_id user enr_accept = handle_accept out chat_id user
  press chat_id user enr_decline = handle_decline out chat_id user
  press chat_id user act_deposit = handle_deposit out chat_id user
  press chat_id user act_balance = handle_balance out chat_id user
  press chat_id user act_stats = handle_stats out chat_id (some user)
  press chat_id user act_withdraw = handle_withdraw out config chat_id user "/withdraw"
  press chat_id user wd_p25 = handle_withdraw out config chat_id user "/withdraw 25%"
  press chat_id user wd_p50 = handle_withdraw out config chat_id user "/withdraw 50%"
  press chat_id user wd_p75 = handle_withdraw out config chat_id user "/withdraw 75%"
  press chat_id user wd_p100 = handle_withdraw out config chat_id user "/withdraw 100%"
  press chat_id user wd_custom = do
    set_pending user withdraw_amount_entry
    reply out chat_id enter_usd_amount
  press chat_id user wl_set = do
    set_pending user setwhitelist_address_entry
    reply out chat_id paste_address
  press chat_id user wl_cancel = handle_cancel_whitelist out config.cooldown_ms chat_id user
  press chat_id user cancel = do clear_pending user; reply out chat_id cancelled_action

  unfoldable pub route : (chat_id : ℤ) (user : ℕ) (callback_data : String) → Handler F (Unit {0})
  route chat_id user callback_data =
      match_option (button_of callback_data) (pure tt) (press chat_id user)
