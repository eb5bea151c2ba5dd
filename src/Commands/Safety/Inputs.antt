-- ===== src/Commands/Safety/Inputs.antt =====
-- Whatever a user sends or taps: src/vault/commands.ts behind src/telegramCommander.ts and
-- src/vault/uiCallbacks.ts.
use bert_mm_bot.Prelude.{ℕ, All, subst, ◌≡◌, ◌⊎◌, true, false, some}
use bert_mm_bot.Amounts.{Arith}
use bert_mm_bot.Text.{trim}
use bert_mm_bot.Commander.{IncomingMessage}
use bert_mm_bot.Commander.Laws.{dispatch-induction}
use bert_mm_bot.Commands.Chat.{Chat, Handler, Outside, CommandsConfig, pure}
use bert_mm_bot.Commands.Gate.Guards.{requests, IsQuiet, HasFactor}
use bert_mm_bot.Commands.Gate.Rules.{Guards-pure}
use bert_mm_bot.Commands.Router.{button_of, route}
use bert_mm_bot.Commands.Inputs.{
  Input, text, tap, user_commands, plain_text, handle_input, user_of, text_of,
}
use bert_mm_bot.Commands.Safety.Accounts.{
  handle_account-Guards, handle_accept-Guards, handle_decline-Guards, handle_deposit-Guards,
  handle_balance-Guards, handle_stats-Guards, handle_menu-Guards,
}
use bert_mm_bot.Commands.Safety.Funds.{
  handle_withdraw-Guards, handle_set_whitelist-Guards, handle_cancel_whitelist-Guards,
}
use bert_mm_bot.Commands.Gate.Needs.{
  NeedsFactor, Guards-NeedsFactor, reads-NeedsFactor, match_option-NeedsFactor,
}
use bert_mm_bot.Commands.Safety.Answers.{handle_message-NeedsFactor, press-NeedsFactor}

module _ {F : Type 0} ⦃num : Arith F⦄ {out : Outside F} ⦃quiet : IsQuiet out⦄
    (config : CommandsConfig F) (operator_user_id : ℕ) where
  commands-NeedFactor :
      (m : IncomingMessage)
      → All
          (λ e. NeedsFactor out m.user_id (trim m.text) (e.fn m))
          (user_commands out config operator_user_id)
  commands-NeedFactor m = (
    Guards-NeedsFactor false _ (λ start. handle_account-Guards m.chat_id),
    (
      Guards-NeedsFactor false _ (λ start. handle_accept-Guards m.chat_id),
      (
        Guards-NeedsFactor false _ (λ start. handle_decline-Guards m.chat_id),
        (
          Guards-NeedsFactor true _ (λ start. handle_deposit-Guards m.chat_id),
          (
            Guards-NeedsFactor true _ (λ start. handle_balance-Guards m.chat_id),
            (
              Guards-NeedsFactor true _ (λ start. handle_withdraw-Guards config m.chat_id m.text),
              (
                Guards-NeedsFactor true _
                    (λ start. handle_set_whitelist-Guards config.cooldown_ms m.chat_id m.text),
                (
                  Guards-NeedsFactor true _
                      (λ start. handle_cancel_whitelist-Guards config.cooldown_ms m.chat_id),
                  (
                    Guards-NeedsFactor false _ (λ start. handle_menu-Guards m.chat_id),
                    (
                      Guards-NeedsFactor false _
                          (λ start. handle_stats-Guards m.chat_id (some m.user_id)),
                      tt,
                    ),
                  ),
                ),
              ),
            ),
          ),
        ),
      ),
    ),
  )

  plain_text-NeedsFactor :
      (m : IncomingMessage) (fn : IncomingMessage → Handler F (Unit {0}))
      → some (plain_text out config operator_user_id) ≡ some fn
      → NeedsFactor out m.user_id (trim m.text) (fn m)
  plain_text-NeedsFactor m fn same =
      subst (λ f. NeedsFactor out m.user_id (trim m.text) (f m)) injective
        (handle_message-NeedsFactor config m.chat_id m.text)
    where
      injective : plain_text out config operator_user_id ≡ fn
      injective = cc

  input-NeedsFactor :
      (i : Input)
      → NeedsFactor out (user_of i) (trim (text_of i)) (handle_input out config operator_user_id i)
  unfolding handle_input route
  input-NeedsFactor (text m) = reads-NeedsFactor _ _ λ known.
      dispatch-induction operator_user_id (user_commands out config operator_user_id)
        (some (plain_text out config operator_user_id)) (pure tt)
        (NeedsFactor out m.user_id (trim m.text)) known m
        (Guards-NeedsFactor true _ (λ start. Guards-pure tt)) (plain_text-NeedsFactor m)
        (commands-NeedFactor m)
  input-NeedsFactor (tap chat_id user callback_data) =
      match_option-NeedsFactor (button_of callback_data) _ (press-NeedsFactor config chat_id _)

  -- Whatever a user sends or taps, no withdrawal is queued, no whitelist change is requested, none is taken back
  -- and no unlock is given, unless at a reading of the clock during the handling the user's unlock was
  -- alive, or the text was, at that reading and the next one, a code that is right for the user's stored secret and not
  -- used before. The rest of the process is to leave the
  -- requests and the users' factors alone while the handler waits.
  pub handle_input_needs_factor :
      (i : Input) (c : Chat F)
      → (requests (handle_input out config operator_user_id i c).1.world.db ≡ requests c.world.db)
          × ((handle_input out config operator_user_id i c).1.unlocked_until ≡ c.unlocked_until)
        ⊎ HasFactor out
            (user_of i)
            (trim (text_of i))
            c
            (handle_input out config operator_user_id i c).1.moment
  handle_input_needs_factor i c = (input-NeedsFactor i).at c
