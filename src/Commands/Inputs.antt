-- ===== src/Commands/Inputs.antt =====
-- src/main.ts: the depositors' commands that it registers, and what comes in through src/telegramCommander.ts.
use bert_mm_bot.Prelude.{ℕ, String, List, [], ◌∷◌, some}
use bert_mm_bot.Prelude.Int.{ℤ}
use bert_mm_bot.Amounts.{Arith}
use bert_mm_bot.Store.{get_user}
use bert_mm_bot.Commander.{IncomingMessage, Entry, vault, public, enrollment, dispatch}
use bert_mm_bot.Commands.Chat.{Handler, Outside, CommandsConfig, ◌>>=◌, pure, reads}
use bert_mm_bot.Commands.Account.{
  is_some, handle_account, handle_accept, handle_decline, handle_deposit, handle_balance,
  handle_stats, handle_menu,
}
use bert_mm_bot.Commands.Withdrawals.{handle_withdraw}
use bert_mm_bot.Commands.Whitelist.{handle_set_whitelist, handle_cancel_whitelist}
use bert_mm_bot.Commands.Messages.{handle_message}
use bert_mm_bot.Commands.Router.{route}

pub data Input : Type 0 where
  text : IncomingMessage → Input
  tap : (chat_id : ℤ) → (user : ℕ) → (callback_data : String) → Input

abbrev pub user_of : Input → ℕ
user_of (text m) = m.user_id
user_of (tap chat_id user callback_data) = user

abbrev pub text_of : Input → String
text_of (text m) = m.text
text_of (tap chat_id user callback_data) = ""

module _ {F : Type 0} ⦃num : Arith F⦄ (out : Outside F) (config : CommandsConfig F)
    (operator_user_id : ℕ) where
  abbrev pub user_commands : List (Entry (Handler F (Unit {0})))
  user_commands =
      record {
        name = "account";
        kind = enrollment;
        fn = λ m. handle_account out m.chat_id m.user_id;
      }
      ∷ record {
        name = "accept";
        kind = enrollment;
        fn = λ m. handle_accept out m.chat_id m.user_id;
      }
      ∷ record {
        name = "decline";
        kind = enrollment;
        fn = λ m. handle_decline out m.chat_id m.user_id;
      }
      ∷ record { name = "deposit"; kind = vault; fn = λ m. handle_deposit out m.chat_id m.user_id }
      ∷ record { name = "balance"; kind = vault; fn = λ m. handle_balance out m.chat_id m.user_id }
      ∷ record {
        name = "withdraw";
        kind = vault;
        fn = λ m. handle_withdraw out config m.chat_id m.user_id m.text;
      }
      ∷ record {
        name = "setwhitelist";
        kind = vault;
        fn = λ m. handle_set_whitelist out config.cooldown_ms m.chat_id m.user_id m.text;
      }
      ∷ record {
        name = "cancelwhitelist";
        kind = vault;
        fn = λ m. handle_cancel_whitelist out config.cooldown_ms m.chat_id m.user_id;
      }
      ∷ record { name = "menu"; kind = enrollment; fn = λ m. handle_menu out m.chat_id m.user_id }
      ∷ record {
        name = "stats";
        kind = public;
        fn = λ m. handle_stats out m.chat_id (some m.user_id);
      }
      ∷ []

  abbrev pub plain_text : IncomingMessage → Handler F (Unit {0})
  plain_text m = handle_message out config m.chat_id m.user_id m.text

  -- A message is dispatched, and a tap goes to the router.
  unfoldable pub handle_input : Input → Handler F (Unit {0})
  handle_input (text m) = do
    known ← reads (λ d. is_some (get_user m.user_id d))
    dispatch operator_user_id user_commands (some plain_text) (pure tt) known m
  handle_input (tap chat_id user callback_data) = route out config chat_id user callback_data
