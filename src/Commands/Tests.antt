-- ===== src/Commands/Tests.antt =====
-- A depositor of src/vault/commands.ts with a code, and the theorem on what needs one at that input.
use bert_mm_bot.Prelude.{ℕ, ◌+◌, ◌≡◌, ◌⊎◌, inl, inr, refl, true, [], ◌∷◌, none, some}
use bert_mm_bot.Prelude.Int.{pos}
use bert_mm_bot.Amounts.Fixed.{fixed_arith}
use bert_mm_bot.Store.{
  Db, ok, UserRow, depositor, enqueue_withdrawal, statement, fails, later, write_audit,
}
use bert_mm_bot.RateLimiter.{default_limiter}
use bert_mm_bot.Text.{trim}
use bert_mm_bot.Totp.{this_step}
use bert_mm_bot.Commands.Chat.{Chat, Outside, CommandsConfig, withdraw_code}
use bert_mm_bot.Commands.Gate.Guards.{requests, IsQuiet, HasFactor}
use bert_mm_bot.Commands.Inputs.{Input, text, tap, handle_input}
use bert_mm_bot.Commands.Safety.Inputs.{handle_input_needs_factor}
use bert_mm_bot.Commands.Keyboards.{main_menu_keyboard}
use bert_mm_bot.Commands.Buttons.{callback_of, route-press}
use bert_mm_bot.Commander.{dispatch, command_name, lookup}
use bert_mm_bot.RateLimiter.{is_locked_out, record_success, record_failure}
use bert_mm_bot.Totp.{verify_code, current_counter}
use bert_mm_bot.Text.{argument, trim, trim_start, trim_end, percent, is_digits}
use bert_mm_bot.ShareMath.{compute_nav_per_share, usd_for_shares, split_fee}
use bert_mm_bot.Store.{
  get_user, get_user_secrets, get_shares, enqueue_withdrawal, count_user_withdrawals_last_24h,
  sum_user_withdrawal_usd_last_24h, count_pending_withdrawals, write_audit, statement, fails, later,
  set_totp_last_counter, latest_nav_snapshot,
}
use bert_mm_bot.Commands.Chat.{
  ◌>>=◌, reads, match_option, now_ms, limiting, pure, asks, clear_pending, set_pending, reply, nav,
  lift, of_result,
}
use bert_mm_bot.Commands.Gate.{
  for_enrolled, unless_locked, reject_if_locked, is_unlocked, act_or_ask, respond_gated,
  verify_totp_gated, verify_totp, set_unlocked, unlock_until,
}
use bert_mm_bot.Commands.Withdrawals.{
  handle_withdraw, within_caps, do_withdraw, respond_withdraw, respond_withdraw_amount_entry,
}
use bert_mm_bot.Commands.Messages.{handle_message}
use bert_mm_bot.Commands.Router.{Button, route, press, button_of}
use bert_mm_bot.Commands.Inputs.{handle_input}

abbrev depositor_row : UserRow
depositor_row = record {
  telegram_id = 7;
  role = depositor;
  deposit_address = "dep7";
  deposit_secret_enc = 1 ∷ [];
  deposit_secret_iv = 2 ∷ [];
  totp_secret_enc = some (3 ∷ []);
  totp_secret_iv = some (4 ∷ []);
  totp_enrolled_at = some 1000;
  totp_last_used_counter = none;
  whitelist_address = some "home";
  whitelist_set_at = some 1000;
  disclaimer_at = 900;
  created_at = 900;
}

abbrev books : Db ℕ
books = record {
  users = depositor_row ∷ [];
  shares = (7, 500000000) ∷ [];
  deposits = [];
  withdrawals = [];
  changes = [];
  navs = [];
  audit = [];
  flags = [];
  next_deposit = 1;
  next_withdrawal = 1;
  next_change = 1;
}

abbrev outside : Outside ℕ
outside = record {
  clock = λ moment. 1700000000000 + moment;
  meanwhile = λ moment w. w;
  get_nav = λ moment. ok (some (record { total_usd = 1000000000; total_shares = 1000000000 }));
  number = λ s. none;
  is_public_key = λ s. true;
  authenticator = record { validate = λ secret code now. some this_step };
  decrypt = λ enc iv. ok "SECRET";
  encrypt = λ moment bytes. record { ciphertext = bytes; iv = [] };
  utf8 = λ s. [];
  generate_keypair = λ moment. record { public_key = "new"; secret_key = [] };
  generate_secret = λ moment. "SECRET";
  ensure_ata = λ moment address. ok tt;
}

instance outside-IsQuiet : IsQuiet outside
outside-IsQuiet = record { requests_kept = λ moment w. refl; factors_kept = λ moment w user. refl }

abbrev limits : CommandsConfig ℕ
limits = record {
  withdrawal_fee_bps = 50000000;
  min_withdrawal_usd = 10000000;
  max_daily_withdrawals_per_user = 3;
  max_daily_withdrawal_usd_per_user = 1000000000;
  max_pending_withdrawals = 10;
  cooldown_ms = 86400000;
}

-- The depositor was asked for a code for a withdrawal of $100.
abbrev asked : Chat ℕ
asked = record {
  pending = (7, withdraw_code 100000000) ∷ [];
  totp_setup_failures = [];
  unlocked_until = [];
  limiter = default_limiter;
  world = record { db = books; faults = []; paid = [] };
  replies = [];
  moment = 0;
}

abbrev code_text : Input
code_text = text (record { chat_id = pos 7; user_id = 7; text = "123456" })

handle_input_needs_factor_example :
    (requests (handle_input outside limits 1 code_text asked).1.world.db ≡ requests books)
      × ((handle_input outside limits 1 code_text asked).1.unlocked_until ≡ [])
    ⊎ HasFactor outside 7
        (trim "123456")
        asked
        (handle_input outside limits 1 code_text asked).1.moment
handle_input_needs_factor_example = handle_input_needs_factor limits 1 code_text asked

-- A day on which the depositor may not withdraw any more.
abbrev spent : CommandsConfig ℕ
spent = record {
  withdrawal_fee_bps = 50000000;
  min_withdrawal_usd = 10000000;
  max_daily_withdrawals_per_user = 0;
  max_daily_withdrawal_usd_per_user = 0;
  max_pending_withdrawals = 0;
  cooldown_ms = 86400000;
}

abbrev number_outside : Outside ℕ
number_outside = record outside { number = λ s. some 300000000 }

abbrev unlocked : Chat ℕ
unlocked = record asked { pending = []; unlocked_until = (7, 1700000300000) ∷ [] }

abbrev by_command : Input
by_command = text (record { chat_id = pos 7; user_id = 7; text = "/withdraw 300" })

abbrev by_button : Input
by_button = tap (pos 7) 7 "wd:custom"

abbrev amount : Input
amount = text (record { chat_id = pos 7; user_id = 7; text = "300" })

abbrev after : Outside ℕ → Input → Chat ℕ → Chat ℕ
after out i c = (handle_input out spent 1 i c).1

-- By command the caps hold, and after the button for a custom amount they do not: two withdrawals are
-- queued, of more together than the depositor has.
command_is_capped : (after number_outside by_command unlocked).world.db.next_withdrawal ≡ 1
unfolding dispatch command_name lookup is_locked_out record_success record_failure verify_code
    current_counter argument trim trim_start trim_end percent is_digits compute_nav_per_share
    usd_for_shares split_fee get_user get_user_secrets get_shares enqueue_withdrawal
    count_user_withdrawals_last_24h sum_user_withdrawal_usd_last_24h count_pending_withdrawals
    write_audit statement fails later set_totp_last_counter latest_nav_snapshot ◌>>=◌ reads
    match_option now_ms limiting pure asks clear_pending set_pending reply nav lift of_result
    for_enrolled unless_locked reject_if_locked is_unlocked act_or_ask respond_gated
    verify_totp_gated verify_totp set_unlocked unlock_until handle_withdraw within_caps do_withdraw
    respond_withdraw respond_withdraw_amount_entry handle_message route press button_of handle_input
command_is_capped = refl

button_is_not_capped :
    (after number_outside amount (
      after number_outside by_button (
        after number_outside amount
          (after number_outside by_button unlocked)))).world.db.next_withdrawal
    ≡ 3
unfolding dispatch command_name lookup is_locked_out record_success record_failure verify_code
    current_counter argument trim trim_start trim_end percent is_digits compute_nav_per_share
    usd_for_shares split_fee get_user get_user_secrets get_shares enqueue_withdrawal
    count_user_withdrawals_last_24h sum_user_withdrawal_usd_last_24h count_pending_withdrawals
    write_audit statement fails later set_totp_last_counter latest_nav_snapshot ◌>>=◌ reads
    match_option now_ms limiting pure asks clear_pending set_pending reply nav lift of_result
    for_enrolled unless_locked reject_if_locked is_unlocked act_or_ask respond_gated
    verify_totp_gated verify_totp set_unlocked unlock_until handle_withdraw within_caps do_withdraw
    respond_withdraw respond_withdraw_amount_entry handle_message route press button_of handle_input
button_is_not_capped = refl

code_is_accepted : (after outside code_text asked).world.db.next_withdrawal ≡ 2
unfolding dispatch command_name lookup is_locked_out record_success record_failure verify_code
    current_counter argument trim trim_start trim_end percent is_digits compute_nav_per_share
    usd_for_shares split_fee get_user get_user_secrets get_shares enqueue_withdrawal
    count_user_withdrawals_last_24h sum_user_withdrawal_usd_last_24h count_pending_withdrawals
    write_audit statement fails later set_totp_last_counter latest_nav_snapshot ◌>>=◌ reads
    match_option now_ms limiting pure asks clear_pending set_pending reply nav lift of_result
    for_enrolled unless_locked reject_if_locked is_unlocked act_or_ask respond_gated
    verify_totp_gated verify_totp set_unlocked unlock_until handle_withdraw within_caps do_withdraw
    respond_withdraw respond_withdraw_amount_entry handle_message route press button_of handle_input
code_is_accepted = refl

route-press_example :
    (b : Button) × ("act:withdraw" ≡ callback_of b)
    × (route outside limits (pos 7) 7 "act:withdraw" ≡ press outside limits (pos 7) 7 b)
route-press_example =
    route-press outside limits (pos 7) 7 "act:withdraw" main_menu_keyboard (inr (inl refl))
      (inr (inr (inl refl)))
