-- ===== src/Commands/Safety/Accounts.antt =====
-- The handlers of the account, the deposit address and the balance, which make no request at all.
use bert_mm_bot.Prelude.{
  ℕ, ◌≡◌, refl, ◌∙◌, String, true, false, inl, arith, List, Option, none, some,
}
use bert_mm_bot.Prelude.Int.{ℤ}
use bert_mm_bot.Amounts.{Arith}
use bert_mm_bot.Store.{
  World, Action, Thrown, Role, create_user, set_totp, set_totp_last_counter, throw,
}
use bert_mm_bot.StoreKeeps.{statement-Keeps, exec-Keeps}
use bert_mm_bot.Totp.{VerifyResult, accepted, bad_format, invalid, replay}
use bert_mm_bot.Commands.Chat.{Chat, Outside, lift}
use bert_mm_bot.Commands.Enrollment.{
  accept, begin_totp_enrollment, confirm_totp, confirmed, ensure_ata,
}
use bert_mm_bot.Commands.Gate.Forward.{IsForward-lift}
use bert_mm_bot.Commands.Safety.Acts.{act_rules}
use bert_mm_bot.Commands.Gate.Guards.{requests, IsQuiet, Guards}
use bert_mm_bot.Commands.Gate.Rules.{Guards-idle, Guards-pure, Guards-reads}
use bert_mm_bot.Commands.Gate.Checks.{handler_rules}
use bert_mm_bot.Commands.Account.{
  handle_account, handle_accept, handle_decline, handle_deposit, handle_balance, handle_stats,
  handle_menu, respond_totp_setup_confirm, respond_deposit_reveal, respond_balance_reveal,
  is_enrolled_user,
}

module _ {F : Type 0} {out : Outside F} {user : ℕ} {code : String} {start : Chat F}
    ⦃quiet : IsQuiet out⦄ where
  -- What changes the users alone.
  Guards-users :
      {A : Type 0} (m : Action F A)
      → ((w : World F) → requests (m w).1.db ≡ requests w.db)
      → Guards out user code start false (lift m)
  unfolding lift
  Guards-users m kept = record {
    at = λ c h. inl (record {
      same_requests = kept c.world ∙ h.same_requests;
      same_factor = λ off. cc;
      same_unlock = h.same_unlock;
      later = h.later;
    });
    forward = IsForward-lift m;
  }

  Guards-create_user :
      (id : ℕ) (role : Role) (address : String) (enc iv : List ℕ) (disclaimer_at created_at : ℕ)
      → Guards out user code start false
          (lift (create_user id role address enc iv disclaimer_at created_at))
  unfolding create_user requests
  Guards-create_user id role address enc iv disclaimer_at created_at =
      Guards-users (create_user id role address enc iv disclaimer_at created_at)
        λ w. statement-Keeps (λ d. requests d ≡ requests w.db) _ _ _ (λ d _ h. h) w refl

  Guards-set_totp :
      (id : ℕ) (enc iv : List ℕ) (at : ℕ)
      → Guards out user code start false (lift (set_totp id enc iv at))
  unfolding set_totp requests
  Guards-set_totp id enc iv at =
      Guards-users (set_totp id enc iv at)
        λ w. exec-Keeps (λ d. requests d ≡ requests w.db) _ (λ d h. h) w refl

  Guards-set_totp_last_counter :
      (id n : ℕ) → Guards out user code start false (lift (set_totp_last_counter id n))
  unfolding set_totp_last_counter requests
  Guards-set_totp_last_counter id n =
      Guards-users (set_totp_last_counter id n)
        λ w. exec-Keeps (λ d. requests d ≡ requests w.db) _ (λ d h. h) w refl

  Guards-throw :
      {A : Type 0} (e : Thrown) → Guards out user code start false (lift (throw {A = A} e))
  Guards-throw e = Guards-users (throw e) λ w. refl

  Guards-ensure_ata : (address : String) → Guards out user code start false (ensure_ata out address)
  unfolding ensure_ata
  Guards-ensure_ata address = Guards-idle (ensure_ata out address) λ c. (
    quiet.requests_kept c.moment c.world,
    quiet.factors_kept c.moment c.world user,
    refl,
    omega arith,
  )

  ruleset account_rules = (
    handler_rules, Guards-create_user, Guards-set_totp, Guards-set_totp_last_counter, Guards-throw,
    Guards-ensure_ata,
  )

  confirmed-Guards :
      (id now : ℕ) (secret : List ℕ × List ℕ) (v : VerifyResult)
      → Guards out user code start false (confirmed out id now secret v)
  confirmed-Guards id now secret (accepted n) = search account_rules depth 16
  confirmed-Guards id now secret bad_format = Guards-pure false
  confirmed-Guards id now secret invalid = Guards-pure false
  confirmed-Guards id now secret (replay n) = Guards-pure false

  pub handle_decline-Guards :
      (chat_id : ℤ) → Guards out user code start false (handle_decline out chat_id user)
  unfolding handle_decline
  handle_decline-Guards chat_id = search handler_rules

  pub handle_menu-Guards :
      (chat_id : ℤ) → Guards out user code start false (handle_menu out chat_id user)
  unfolding handle_menu
  handle_menu-Guards chat_id = search handler_rules

  pub handle_account-Guards :
      (chat_id : ℤ) → Guards out user code start false (handle_account out chat_id user)
  unfolding handle_account begin_totp_enrollment
  handle_account-Guards chat_id = search account_rules depth 16

  pub handle_accept-Guards :
      (chat_id : ℤ) → Guards out user code start false (handle_accept out chat_id user)
  unfolding handle_accept accept begin_totp_enrollment
  handle_accept-Guards chat_id = search account_rules depth 16

  pub respond_totp_setup_confirm-Guards :
      (chat_id : ℤ) (text : String)
      → Guards out user code start false (respond_totp_setup_confirm out chat_id user text)
  unfolding respond_totp_setup_confirm confirm_totp
  respond_totp_setup_confirm-Guards chat_id text = search (account_rules, confirmed-Guards) depth 16

  pub handle_deposit-Guards :
      (chat_id : ℤ) → Guards out user code start true (handle_deposit out chat_id user)
  unfolding handle_deposit
  handle_deposit-Guards chat_id = search (handler_rules, act_rules)

  pub respond_deposit_reveal-Guards :
      (chat_id : ℤ) → Guards out user code start true (respond_deposit_reveal out chat_id user code)
  unfolding respond_deposit_reveal
  respond_deposit_reveal-Guards chat_id = search (handler_rules, act_rules)

module _ {F : Type 0} ⦃num : Arith F⦄ {out : Outside F} {user : ℕ} {code : String} {start : Chat F}
    ⦃quiet : IsQuiet out⦄ where
  is_enrolled_user-Guards :
      (o : Option ℕ) → Guards out user code start false (is_enrolled_user out o)
  is_enrolled_user-Guards none = Guards-pure false
  is_enrolled_user-Guards (some id) = Guards-reads _

  pub handle_balance-Guards :
      (chat_id : ℤ) → Guards out user code start true (handle_balance out chat_id user)
  unfolding handle_balance
  handle_balance-Guards chat_id = search (handler_rules, act_rules)

  pub respond_balance_reveal-Guards :
      (chat_id : ℤ) → Guards out user code start true (respond_balance_reveal out chat_id user code)
  unfolding respond_balance_reveal
  respond_balance_reveal-Guards chat_id = search (handler_rules, act_rules)

  pub handle_stats-Guards :
      (chat_id : ℤ) (id : Option ℕ) → Guards out user code start false (handle_stats out chat_id id)
  unfolding handle_stats
  handle_stats-Guards chat_id id = search (handler_rules, is_enrolled_user-Guards) depth 16
