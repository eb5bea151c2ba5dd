-- ===== src/Commands/Enrollment.antt =====
-- src/vault/enrollment.ts
use bert_mm_bot.Prelude.{ℕ, String, Bool, true, false, List, Option, none, some}
use bert_mm_bot.Store.{
  not_found, depositor, Secrets, get_user, get_user_secrets, create_user, set_totp,
  set_totp_last_counter, throw,
}
use bert_mm_bot.Totp.{VerifyResult, accepted, verify_code}
use bert_mm_bot.Commands.Chat.{
  Handler, Outside, ◌>>=◌, ◌>>◌, pure, of_result, reads, lift, match_option, now_ms, pause, fresh,
}

-- A secret as `getUserSecrets` has it: both columns set, and neither empty of bytes matters.
abbrev pub totp_secret_of : Option Secrets → Option (List ℕ × List ℕ)
totp_secret_of none = none
totp_secret_of (some s) = elim s.totp_secret_enc [
  | none ↦ none
  | some enc ↦ elim s.totp_secret_iv [ none ↦ none | some iv ↦ some (enc, iv) ]
]

module _ {F : Type 0} (out : Outside F) where
  unfoldable pub ensure_ata : String → Handler F (Unit {0})
  ensure_ata address c = (out.ensure_ata c.moment address, pause out c)

  unfoldable pub accept : (telegram_id now : ℕ) → Handler F (Unit {0})
  accept telegram_id now = do
    existing ← reads (get_user telegram_id)
    match_option existing
        (do
          kp ← fresh out out.generate_keypair
          enc ← fresh out (λ moment. out.encrypt moment kp.secret_key)
          lift (create_user telegram_id depositor kp.public_key enc.ciphertext enc.iv now now)
          ensure_ata kp.public_key)
        (λ _. pure tt)

  -- Stores a new secret, with 0 for the time of its confirmation, and answers it.
  unfoldable pub begin_totp_enrollment : (telegram_id : ℕ) → Handler F String
  begin_totp_enrollment telegram_id = do
    user ← reads (get_user telegram_id)
    match_option user (lift (throw not_found)) (λ _. do
      secret ← fresh out out.generate_secret
      enc ← fresh out (λ moment. out.encrypt moment (out.utf8 secret))
      lift (set_totp telegram_id enc.ciphertext enc.iv 0)
      pure secret)

  abbrev pub confirmed :
      (telegram_id now : ℕ) → (secret : List ℕ × List ℕ) → VerifyResult → Handler F Bool
  confirmed telegram_id now secret (accepted counter) = do
    lift (set_totp telegram_id secret.0 secret.1 now)
    lift (set_totp_last_counter telegram_id counter)
    pure true
  confirmed telegram_id now secret _ = pure false

  unfoldable pub confirm_totp : (telegram_id : ℕ) (code : String) (now : ℕ) → Handler F Bool
  confirm_totp telegram_id code now = do
    secrets ← reads (get_user_secrets telegram_id)
    match_option (totp_secret_of secrets) (pure false) (λ secret. do
      secret_base32 ← of_result (out.decrypt secret.0 secret.1)
      validated_at ← now_ms out
      counted_at ← now_ms out
      confirmed telegram_id now secret
          (verify_code out.authenticator secret_base32 code none validated_at counted_at))
