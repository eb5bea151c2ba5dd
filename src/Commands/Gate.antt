-- ===== src/Commands/Gate.antt =====
-- The gate in front of what needs a second factor, in src/vault/commands.ts: the lockout, the
-- verification of a code, and the unlock that follows one.
pub mod Forward
pub mod Guards
pub mod Rules
pub mod Answers
pub mod Checks
pub mod Needs
use bert_mm_bot.Prelude.{
  ℕ, ◌+◌, ◌-◌, ◌*◌, List, String, Bool, true, false, Option, none, some, ltb, if◌then◌else◌,
}
use bert_mm_bot.Prelude.Int.{ℤ}
use bert_mm_bot.Store.{
  ok, VaultUser, Operation, get_user, get_user_secrets, set_totp_last_counter, write_audit,
  totp_verify_failed, totp_rate_limited,
}
use bert_mm_bot.RateLimiter.{
  get, put, delete, is_locked_out, record_failure, record_success, format_lockout_remaining,
}
use bert_mm_bot.Totp.{VerifyResult, accepted, verify_code}
use bert_mm_bot.Commands.Chat.{
  Chat, Handler, Outside, locked, code_invalid, enroll_first, ◌>>=◌, ◌>>◌, pure, asks, of_result,
  reads, lift, limiting, match_option, now_ms, reply,
}
use bert_mm_bot.Commands.Enrollment.{totp_secret_of}

abbrev pub totp_unlock_ms : ℕ
totp_unlock_ms = 5 * 60 * 1000

-- How a code that was checked under the lockout fared.
pub data GatedResult : Type 0 where
  passed denied : GatedResult
  locked_out : (until : ℕ) → GatedResult

-- A user who can be asked for a code: the row exists and its `totpEnrolledAt` is not null.
abbrev pub enrolled : Option VaultUser → Option VaultUser
enrolled none = none
enrolled (some u) = elim u.totp_enrolled_at [ none ↦ none | some _ ↦ some u ]

module _ {F : Type 0} (out : Outside F) where
  unfoldable pub is_unlocked : ℕ → Handler F Bool
  is_unlocked user = do
    until ← asks (λ c. get user c.unlocked_until)
    match_option until (pure false) (λ t. do now ← now_ms out; pure (ltb now t))

  unfoldable pub unlock_until : (user until : ℕ) → Handler F (Unit {0})
  unlock_until user until c = (ok tt, record c { unlocked_until = put user until c.unlocked_until })

  unfoldable pub set_unlocked : ℕ → Handler F (Unit {0})
  set_unlocked user = do now ← now_ms out; unlock_until user (now + totp_unlock_ms)

  unfoldable pub clear_unlock : ℕ → Handler F (Unit {0})
  clear_unlock user c = (ok tt, record c { unlocked_until = delete user c.unlocked_until })

  -- Whether the handler is to stop, after the reply that says how long the lockout still is.
  unfoldable pub reject_if_locked : (chat_id : ℤ) → (user : ℕ) → Handler F Bool
  reject_if_locked chat_id user = do
    now ← now_ms out
    until ← limiting (is_locked_out user now)
    match_option until (pure false)
        (λ t. do reply out chat_id (locked (format_lockout_remaining (t - now))); pure true)

  abbrev pub counted : ℕ → VerifyResult → Handler F Bool
  counted user (accepted counter) = do lift (set_totp_last_counter user counter); pure true
  counted user _ = pure false

  abbrev pub verify_secret :
      (user : ℕ) (code : String) (last : Option ℕ) (secret : List ℕ × List ℕ) → Handler F Bool
  verify_secret user code last secret = do
    secret_base32 ← of_result (out.decrypt secret.0 secret.1)
    validated_at ← now_ms out
    now ← now_ms out
    counted user (verify_code out.authenticator secret_base32 code last validated_at now)

  -- Whether `code` is right. A code that is, is used up.
  unfoldable pub verify_totp : (user : ℕ) (code : String) → Handler F Bool
  verify_totp user code = do
    u ← reads (λ d. enrolled (get_user user d))
    match_option u (pure false) (λ row. do
      secrets ← reads (get_user_secrets user)
      match_option (totp_secret_of secrets) (pure false)
          (verify_secret user code row.totp_last_used_counter))

  abbrev pub after_success : ℕ → Handler F GatedResult
  after_success user = do
    limiting (λ l. (tt, record_success user l))
    set_unlocked user
    pure passed

  abbrev pub after_failure : (user now : ℕ) → Operation → Handler F GatedResult
  after_failure user now op = do
    until ← limiting (record_failure user now)
    lift (write_audit now (some user) (totp_verify_failed op none))
    match_option until (pure denied)
        (λ t. do lift (write_audit now (some user) (totp_rate_limited t)); pure (locked_out t))

  unfoldable pub verify_totp_gated : (user : ℕ) (code : String) → Operation → Handler F GatedResult
  verify_totp_gated user code op = do
    now ← now_ms out
    until ← limiting (is_locked_out user now)
    match_option until
        (do
          right ← verify_totp user code
          if right then after_success user else after_failure user now op)
        (λ t. pure (locked_out t))

  -- The reply to a code, unless it is `act` that follows one that passed.
  abbrev pub answered :
      (chat_id : ℤ) → Operation → Handler F (Unit {0}) → GatedResult → Handler F (Unit {0})
  answered chat_id op act passed = act
  answered chat_id op act denied = reply out chat_id (code_invalid op)
  answered chat_id op act (locked_out until) = do
    now ← now_ms out
    reply out chat_id (locked (format_lockout_remaining (until - now)))

  -- What the `respond…` methods that verify a code have in common.
  unfoldable pub respond_gated :
      (chat_id : ℤ) (user : ℕ) (code : String)
      → Operation
      → Handler F (Unit {0})
      → Handler F (Unit {0})
  respond_gated chat_id user code op act = do
    v ← verify_totp_gated user code op
    answered chat_id op act v

  -- What the commands have in common that need a code: they act at once while the user is unlocked, and
  -- otherwise `ask`.
  unfoldable pub act_or_ask : (user : ℕ) (act ask : Handler F (Unit {0})) → Handler F (Unit {0})
  act_or_ask user act ask = do unlocked ← is_unlocked user; if unlocked then act else ask

  -- The commands that begin with `rejectIfLocked`.
  unfoldable pub unless_locked :
      (chat_id : ℤ) (user : ℕ) → Handler F (Unit {0}) → Handler F (Unit {0})
  unless_locked chat_id user m = do
    stop ← reject_if_locked chat_id user
    if stop then pure tt else m

  -- And those before it that turn away who is not enrolled.
  unfoldable pub for_enrolled :
      (chat_id : ℤ) (user : ℕ) → (VaultUser → Handler F (Unit {0})) → Handler F (Unit {0})
  for_enrolled chat_id user m = do
    u ← reads (λ d. enrolled (get_user user d))
    match_option u (reply out chat_id enroll_first) m
