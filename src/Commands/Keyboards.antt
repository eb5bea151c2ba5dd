-- ===== src/Commands/Keyboards.antt =====
-- src/vault/uiKeyboards.ts: the buttons there are. A keyboard is the list of its buttons' `callback_data`, row
-- after row; labels are left out.
use bert_mm_bot.Prelude.{String, List, [], ◌∷◌, Option, none, some}

abbrev pub welcome_keyboard : List String
welcome_keyboard = "nav:create_account" ∷ "act:stats" ∷ []

abbrev pub main_menu_keyboard : List String
main_menu_keyboard =
    "act:deposit" ∷ "act:balance" ∷ "act:withdraw" ∷ "wl:set" ∷ "nav:settings" ∷ "act:stats" ∷ []

abbrev pub cancel_keyboard : List String
cancel_keyboard = "cancel" ∷ []

abbrev pub disclaimer_keyboard : List String
disclaimer_keyboard = "enr:accept" ∷ "enr:decline" ∷ []

abbrev pub settings_keyboard : List String
settings_keyboard = "wl:set" ∷ "wl:cancel" ∷ "nav:home" ∷ []

abbrev pub withdraw_amount_keyboard : List String
withdraw_amount_keyboard = "wd:p25" ∷ "wd:p50" ∷ "wd:p75" ∷ "wd:p100" ∷ "wd:custom" ∷ "cancel" ∷ []

abbrev pub post_deposit_keyboard : List String
post_deposit_keyboard = "act:balance" ∷ "nav:home" ∷ []

abbrev pub post_balance_keyboard : List String
post_balance_keyboard = "act:withdraw" ∷ "act:deposit" ∷ "nav:home" ∷ []

abbrev pub post_action_keyboard : List String
post_action_keyboard = "nav:home" ∷ []

abbrev pub error_keyboard : (retry : Option String) → List String
error_keyboard none = "nav:home" ∷ []
error_keyboard (some retry) = retry ∷ "nav:home" ∷ []
