-- ===== src/Commands/Account.antt =====
-- src/vault/commands.ts: the account, the deposit address, the balance and the public figures.
use bert_mm_bot.Prelude.{
  ℕ, suc, ◌-◌, String, Bool, true, false, Option, none, some, leb, if◌then◌else◌,
}
use bert_mm_bot.Prelude.Int.{ℤ}
use bert_mm_bot.Amounts.{Arith}
use bert_mm_bot.ShareMath.{compute_nav_per_share, usd_for_shares}
use bert_mm_bot.Store.{
  VaultUser, NavSnapshotRow, day_ms, get_user, get_shares, nav_snapshot_at_or_before, write_audit,
  totp_setup_confirm, op_deposit_reveal, op_balance_reveal, disclaimer_accepted, totp_enrolled,
  totp_verify_failed, totp_rate_limited, deposit_reveal, balance_reveal,
}
use bert_mm_bot.RateLimiter.{
  get, put, delete, record_failure, record_success, format_lockout_remaining,
}
use bert_mm_bot.Commands.Chat.{
  Handler, Outside, Nav, PendingAction, disclaimer, totp_setup, deposit_reveal_code,
  balance_reveal_code, disclaimer_text, account_ready, no_pending_action, declined, welcome,
  main_menu, scan_secret, locked, ask_code, setup_code_invalid, too_many_codes, nav_unavailable,
  stats_unavailable, balance, stats, deposit_address, ◌>>=◌, ◌>>◌, pure, asks, reads, lift,
  set_pending, clear_pending, set_setup_failures, limiting, match_option, type_error, now_ms, reply,
  nav,
}
use bert_mm_bot.Commands.Enrollment.{accept, begin_totp_enrollment, confirm_totp}
use bert_mm_bot.Commands.Gate.{enrolled, for_enrolled, unless_locked, act_or_ask, respond_gated}

abbrev pub totp_setup_max_failures : ℕ
totp_setup_max_failures = 5

abbrev pub is_disclaimer : {F : Type 0} → Option (PendingAction F) → Bool
is_disclaimer (some disclaimer) = true
is_disclaimer _ = false

abbrev pub or_zero : Option ℕ → ℕ
or_zero none = 0
or_zero (some n) = n

abbrev pub is_some : {A : Type 0} → Option A → Bool
is_some none = false
is_some (some _) = true

module _ {F : Type 0} (out : Outside F) where
  -- A new secret for the user, with the reply that shows it.
  abbrev pub show_secret : (chat_id : ℤ) (user : ℕ) → Handler F (Unit {0})
  show_secret chat_id user = do
    secret ← begin_totp_enrollment out user
    set_pending user totp_setup
    reply out chat_id (scan_secret secret)

  abbrev pub account_of : (chat_id : ℤ) (user : ℕ) → VaultUser → Handler F (Unit {0})
  account_of chat_id user existing =
      match_option existing.totp_enrolled_at (show_secret chat_id user)
        (λ _. reply out chat_id account_ready)

  unfoldable pub handle_account : (chat_id : ℤ) (user : ℕ) → Handler F (Unit {0})
  handle_account chat_id user = do
    existing ← reads (get_user user)
    match_option existing (do set_pending user disclaimer; reply out chat_id disclaimer_text)
        (account_of chat_id user)

  abbrev pub accepts : (chat_id : ℤ) (user : ℕ) → Handler F (Unit {0})
  accepts chat_id user = do
    clear_pending user
    now ← now_ms out
    accept out user now
    lift (write_audit now (some user) disclaimer_accepted)
    secret ← begin_totp_enrollment out user
    set_pending user totp_setup
    set_setup_failures (delete user)
    reply out chat_id (scan_secret secret)

  unfoldable pub handle_accept : (chat_id : ℤ) (user : ℕ) → Handler F (Unit {0})
  handle_accept chat_id user = do
    awaited ← asks (λ c. is_disclaimer (get user c.pending))
    if awaited then accepts chat_id user else reply out chat_id no_pending_action

  unfoldable pub handle_decline : (chat_id : ℤ) (user : ℕ) → Handler F (Unit {0})
  handle_decline chat_id user = do
    clear_pending user
    set_setup_failures (delete user)
    reply out chat_id declined

  abbrev pub setup_done : (chat_id : ℤ) (user now : ℕ) → Handler F (Unit {0})
  setup_done chat_id user now = do
    clear_pending user
    set_setup_failures (delete user)
    limiting (λ l. (tt, record_success user l))
    lift (write_audit now (some user) totp_enrolled)
    reply out chat_id account_ready

  abbrev pub setup_failed : (chat_id : ℤ) (user now : ℕ) → Handler F (Unit {0})
  setup_failed chat_id user now = do
    failures ← asks (λ c. suc (or_zero (get user c.totp_setup_failures)))
    lift (write_audit now (some user) (totp_verify_failed totp_setup_confirm (some failures)))
    until ← limiting (record_failure user now)
    match_option until
        (if leb totp_setup_max_failures failures
          then (do
            clear_pending user
            set_setup_failures (delete user)
            reply out chat_id too_many_codes)
          else (do set_setup_failures (put user failures); reply out chat_id setup_code_invalid))
        (λ t. do
          clear_pending user
          set_setup_failures (delete user)
          lift (write_audit now (some user) (totp_rate_limited t))
          reply out chat_id (locked (format_lockout_remaining (t - now))))

  unfoldable pub respond_totp_setup_confirm :
      (chat_id : ℤ) (user : ℕ) (code : String) → Handler F (Unit {0})
  respond_totp_setup_confirm chat_id user code = do
    now ← now_ms out
    right ← confirm_totp out user code now
    if right then setup_done chat_id user now else setup_failed chat_id user now

  unfoldable pub do_deposit_reveal : (user : ℕ) (chat_id : ℤ) → Handler F (Unit {0})
  do_deposit_reveal user chat_id = do
    u ← reads (get_user user)
    now ← now_ms out
    lift (write_audit now (some user) deposit_reveal)
    match_option u type_error (λ row. reply out chat_id (deposit_address row.deposit_address))

  unfoldable pub handle_deposit : (chat_id : ℤ) (user : ℕ) → Handler F (Unit {0})
  handle_deposit chat_id user = for_enrolled out chat_id user λ _. unless_locked out chat_id user (
      act_or_ask out user (do_deposit_reveal user chat_id)
        (do set_pending user deposit_reveal_code; reply out chat_id (ask_code op_deposit_reveal)))

  unfoldable pub respond_deposit_reveal :
      (chat_id : ℤ) (user : ℕ) (code : String) → Handler F (Unit {0})
  respond_deposit_reveal chat_id user code = do
    clear_pending user
    respond_gated out chat_id user code op_deposit_reveal (do_deposit_reveal user chat_id)

  unfoldable pub handle_menu : (chat_id : ℤ) (user : ℕ) → Handler F (Unit {0})
  handle_menu chat_id user = do
    u ← reads (λ d. enrolled (get_user user d))
    match_option u (reply out chat_id welcome) (λ _. reply out chat_id main_menu)

module _ {F : Type 0} ⦃num : Arith F⦄ where
  abbrev pub price_of : Nav F → F
  price_of n = compute_nav_per_share n.total_usd n.total_shares

module _ {F : Type 0} ⦃num : Arith F⦄ (out : Outside F) where
  open num use {sub, mul, div, lt, lit}

  unfoldable pub do_balance_reveal : (user : ℕ) (chat_id : ℤ) → Handler F (Unit {0})
  do_balance_reveal user chat_id = do
    shares ← reads (get_shares user)
    n ← nav out
    match_option n (reply out chat_id nav_unavailable) (λ v. do
      now ← now_ms out
      lift (
          write_audit now (some user)
            (balance_reveal shares (price_of v) (usd_for_shares shares (price_of v))))
      reply out chat_id (balance shares (usd_for_shares shares (price_of v)) (price_of v)))

  unfoldable pub handle_balance : (chat_id : ℤ) (user : ℕ) → Handler F (Unit {0})
  handle_balance chat_id user = for_enrolled out chat_id user λ _. unless_locked out chat_id user (
      act_or_ask out user (do_balance_reveal user chat_id)
        (do set_pending user balance_reveal_code; reply out chat_id (ask_code op_balance_reveal)))

  unfoldable pub respond_balance_reveal :
      (chat_id : ℤ) (user : ℕ) (code : String) → Handler F (Unit {0})
  respond_balance_reveal chat_id user code = do
    clear_pending user
    respond_gated out chat_id user code op_balance_reveal (do_balance_reveal user chat_id)

  -- The change in percent since `prior`, if there is one with a price.
  abbrev pub change_since : F → Option (NavSnapshotRow F) → Option F
  change_since price none = none
  change_since price (some prior) =
      if lt (lit 0 0) prior.nav_per_share
      then some (mul (div (sub price prior.nav_per_share) prior.nav_per_share) (lit 100 0))
      else none

  -- `msg.userId` is optional.
  abbrev pub is_enrolled_user : Option ℕ → Handler F Bool
  is_enrolled_user none = pure false
  is_enrolled_user (some user) = reads (λ d. is_some (enrolled (get_user user d)))

  unfoldable pub handle_stats : (chat_id : ℤ) (user : Option ℕ) → Handler F (Unit {0})
  handle_stats chat_id user = do
    n ← nav out
    match_option n (reply out chat_id stats_unavailable) (λ v. do
      now ← now_ms out
      prior ← reads (nav_snapshot_at_or_before (now - day_ms))
      known ← is_enrolled_user user
      reply out chat_id (stats v.total_usd (price_of v) (change_since (price_of v) prior) known))
