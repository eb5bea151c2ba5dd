-- ===== src/Commands/Buttons.antt =====
-- The buttons of src/vault/uiKeyboards.ts and the cases of src/vault/uiCallbacks.ts.
use bert_mm_bot.Prelude.{
  ℕ, ◌≡◌, refl, sym, ap, ◌∙◌, String, str_eq, eq_iff, Bool, true, List, [], ◌∷◌, Option, none, some,
  inl, inr, Bool-cases, all, All, Mem, arith,
}
use bert_mm_bot.Prelude.Int.{ℤ}
use bert_mm_bot.Amounts.{Arith}
use bert_mm_bot.Commands.Chat.{Outside, pure, CommandsConfig, match_option}
use bert_mm_bot.Commands.Account.{is_some}
use bert_mm_bot.Commands.Keyboards.{
  welcome_keyboard, main_menu_keyboard, cancel_keyboard, disclaimer_keyboard, settings_keyboard,
  withdraw_amount_keyboard, post_deposit_keyboard, post_balance_keyboard, post_action_keyboard,
  error_keyboard,
}
use bert_mm_bot.Commands.Router.{
  Button, nav_home, nav_create_account, nav_settings, enr_accept, enr_decline, act_deposit,
  act_balance, act_stats, act_withdraw, wd_p25, wd_p50, wd_p75, wd_p100, wd_custom, wl_set,
  wl_cancel, cancel, cases, button_in, button_of, press, route,
}
use mathlib.Core.Option.{some-injective, some-ne-none}

-- What each button sends.
abbrev pub callback_of : Button → String
callback_of nav_home = "nav:home"
callback_of nav_create_account = "nav:create_account"
callback_of nav_settings = "nav:settings"
callback_of enr_accept = "enr:accept"
callback_of enr_decline = "enr:decline"
callback_of act_deposit = "act:deposit"
callback_of act_balance = "act:balance"
callback_of act_stats = "act:stats"
callback_of act_withdraw = "act:withdraw"
callback_of wd_p25 = "wd:p25"
callback_of wd_p50 = "wd:p50"
callback_of wd_p75 = "wd:p75"
callback_of wd_p100 = "wd:p100"
callback_of wd_custom = "wd:custom"
callback_of wl_set = "wl:set"
callback_of wl_cancel = "wl:cancel"
callback_of cancel = "cancel"

button_in_sound :
    (s : String) (b : Button) (cs : List (String × Button))
    → All (λ c. c.0 ≡ callback_of c.1) cs
    → button_in cs s ≡ some b
    → s ≡ callback_of b
button_in_sound s b [] h e = absurd (some-ne-none b (sym e))
button_in_sound s b (c ∷ cs) (h, hs) e = elim (Bool-cases (str_eq c.0 s)) [
  | inl same ↦
      sym ((eq_iff c.0 s).0 same) ∙ h ∙ ap callback_of (some-injective c.1 b (rw same at e))
  | inr other ↦ button_in_sound s b cs hs (rw other at e)
]

cases-All : All (λ c. c.0 ≡ callback_of c.1) cases
cases-All = (
  refl,
  (
    refl,
    (
      refl,
      (
        refl,
        (
          refl,
          (
            refl,
            (
              refl,
              (refl, (refl, (refl, (refl, (refl, (refl, (refl, (refl, (refl, (refl, tt)))))))))),
            ),
          ),
        ),
      ),
    ),
  ),
)

-- The keyboards of src/vault/uiKeyboards.ts, the error keyboard with each button to retry that
-- src/vault/commands.ts gives it.
abbrev pub sent_keyboards : List (List String)
sent_keyboards =
    welcome_keyboard
    ∷ main_menu_keyboard
    ∷ cancel_keyboard
    ∷ disclaimer_keyboard
    ∷ settings_keyboard
    ∷ withdraw_amount_keyboard
    ∷ post_deposit_keyboard
    ∷ post_balance_keyboard
    ∷ post_action_keyboard
    ∷ error_keyboard none
    ∷ error_keyboard (some "act:balance")
    ∷ error_keyboard (some "act:deposit")
    ∷ error_keyboard (some "act:withdraw")
    ∷ error_keyboard (some "nav:create_account")
    ∷ error_keyboard (some "nav:settings")
    ∷ error_keyboard (some "wl:cancel")
    ∷ error_keyboard (some "wl:set")
    ∷ []

abbrev is_button : String → Bool
is_button s = is_some (button_in cases s)

all-Mem :
    {A : Type 0} (p : A → Bool) (a : A) (xs : List A) → all p xs ≡ true → Mem a xs → p a ≡ true
all-Mem p a [] h m = elim m [ ]
all-Mem p a (x ∷ xs) h m = elim (Bool-cases (p x)) [
  | inl holds ↦ elim m [
    | inl here ↦ ap p here ∙ holds
    | inr there ↦ all-Mem p a xs (rw holds at h) there
  ]
  | inr fails ↦ ground (arith, fails)
]

is_some-some : {A : Type 0} (o : Option A) → is_some o ≡ true → (a : A) × (o ≡ some a)
is_some-some none h = ground arith
is_some-some (some a) h = (a, refl)

module _ {F : Type 0} ⦃num : Arith F⦄ (out : Outside F) (config : CommandsConfig F) where
  -- No keyboard has a dead button: a tap on a button of one of these keyboards presses a button of the
  -- router.
  pub route-press :
      (chat_id : ℤ) (user : ℕ) (s : String) (keyboard : List String)
      → Mem keyboard sent_keyboards
      → Mem s keyboard
      → (b : Button) × (s ≡ callback_of b)
        × (route out config chat_id user s ≡ press out config chat_id user b)
  unfolding route button_of match_option
  route-press chat_id user s keyboard sent m =
      let found = is_some-some (button_in cases s) (
        all-Mem is_button s keyboard (all-Mem (all is_button) keyboard sent_keyboards refl sent)
          m) in
      (
        found.0,
        button_in_sound s found.0 cases cases-All found.1,
        ap (λ o. match_option o (pure tt) (press out config chat_id user)) found.1,
      )
