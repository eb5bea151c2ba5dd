-- ===== src/Commands/Withdrawals.antt =====
-- src/vault/commands.ts: how a user asks for a withdrawal.
use bert_mm_bot.Prelude.{ℕ, String, Option, none, some, leb, if◌then◌else◌}
use bert_mm_bot.Prelude.Int.{ℤ}
use bert_mm_bot.Amounts.{Arith}
use bert_mm_bot.ShareMath.{split_fee, usd_for_shares}
use bert_mm_bot.Store.{
  VaultUser, truthy, get_user, get_shares, enqueue_withdrawal, count_user_withdrawals_last_24h,
  sum_user_withdrawal_usd_last_24h, count_pending_withdrawals, write_audit, op_withdraw,
  withdrawal_queued,
}
use bert_mm_bot.Text.{argument, percent, trim}
use bert_mm_bot.Commands.Chat.{
  Handler, Outside, CommandsConfig, withdraw_code, withdraw_amount_entry, nav_unavailable,
  set_destination_first, how_much, invalid_percentage, invalid_amount, queue_full,
  no_whitelist_address, below_minimum, exceeds_balance, daily_limit_reached, daily_usd_cap,
  confirm_withdrawal, withdrawal_is_queued, ◌>>=◌, ◌>>◌, reads, lift, set_pending, clear_pending,
  match_option, type_error, now_ms, reply, nav,
}
use bert_mm_bot.Commands.Gate.{for_enrolled, unless_locked, act_or_ask, respond_gated}
use bert_mm_bot.Commands.Account.{price_of}

-- `user.whitelistAddress`, if it counts as true.
abbrev pub destination_of : VaultUser → Option String
destination_of u = if truthy u.whitelist_address then u.whitelist_address else none

module _ {F : Type 0} ⦃num : Arith F⦄ (out : Outside F) (config : CommandsConfig F) where
  open num use {add, mul, div, lt, le, lit}

  abbrev pub positive : Option F → Option F
  positive none = none
  positive (some n) = if le n (lit 0 0) then none else some n

  abbrev pub at_most_all : Option F → Option F
  at_most_all none = none
  at_most_all (some pct) = if lt (lit 100 0) pct then none else some pct

  -- The two forms of an amount: percents of what the user has, or USD.
  abbrev pub amount_of :
      (chat_id : ℤ) (raw : String) (user_usd : F)
      → (F → Handler F (Unit {0}))
      → Handler F (Unit {0})
  amount_of chat_id raw user_usd m =
      match_option (percent raw)
        (match_option (positive (out.number raw)) (reply out chat_id invalid_amount) m)
        (λ digits.
          match_option (at_most_all (positive (out.number digits)))
            (reply out chat_id invalid_percentage) (λ pct. m (div (mul user_usd pct) (lit 100 0))))

  -- The two tests that a request by command and one by button have in common.
  abbrev pub within_balance :
      (chat_id : ℤ) (amount_usd user_usd : F) → Handler F (Unit {0}) → Handler F (Unit {0})
  within_balance chat_id amount_usd user_usd m =
      if lt amount_usd config.min_withdrawal_usd
      then reply out chat_id (below_minimum config.min_withdrawal_usd)
      else if lt (add user_usd (lit 1 6)) amount_usd
      then reply out chat_id (exceeds_balance user_usd)
      else m

  -- The tests against the day's caps and the queue's, which only a request by command makes.
  abbrev pub within_queue :
      (chat_id : ℤ) → Handler F (Unit {0}) → (waiting : ℕ) → Handler F (Unit {0})
  within_queue chat_id m waiting =
      if leb config.max_pending_withdrawals waiting then reply out chat_id queue_full else m

  abbrev pub within_usd_cap :
      (chat_id : ℤ) (amount_usd : F) → Handler F (Unit {0}) → (usd_today : F) → Handler F (Unit {0})
  within_usd_cap chat_id amount_usd m usd_today =
      if lt config.max_daily_withdrawal_usd_per_user (add usd_today amount_usd)
      then reply out chat_id (daily_usd_cap config.max_daily_withdrawal_usd_per_user usd_today)
      else reads count_pending_withdrawals >>= within_queue chat_id m

  abbrev pub within_count :
      (chat_id : ℤ) (user : ℕ) (amount_usd : F)
      → Handler F (Unit {0})
      → (count_today : ℕ) → Handler F (Unit {0})
  within_count chat_id user amount_usd m count_today =
      if leb config.max_daily_withdrawals_per_user count_today
      then reply out chat_id (daily_limit_reached config.max_daily_withdrawals_per_user)
      else (do
        t ← now_ms out
        usd_today ← reads (sum_user_withdrawal_usd_last_24h user t)
        within_usd_cap chat_id amount_usd m usd_today)

  unfoldable pub within_caps :
      (chat_id : ℤ) (user : ℕ) (amount_usd : F) → Handler F (Unit {0}) → Handler F (Unit {0})
  within_caps chat_id user amount_usd m = do
    t ← now_ms out
    count_today ← reads (count_user_withdrawals_last_24h user t)
    within_count chat_id user amount_usd m count_today

  -- The row that the withdrawal of `amount_usd` at a price becomes.
  abbrev pub queue_it :
      (user : ℕ) (chat_id : ℤ) (amount_usd : F) (destination : String) (nav_per_share : F)
      → Handler F (Unit {0})
  queue_it user chat_id amount_usd destination nav_per_share = do
    queued_at ← now_ms out
    id ← lift (
        enqueue_withdrawal user destination (div amount_usd nav_per_share)
          (split_fee (div amount_usd nav_per_share) config.withdrawal_fee_bps).fee_shares queued_at)
    ts ← now_ms out
    lift (
        write_audit ts (some user) (
          withdrawal_queued id amount_usd (div amount_usd nav_per_share)
            (split_fee (div amount_usd nav_per_share) config.withdrawal_fee_bps).fee_shares
            destination))
    reply out chat_id (withdrawal_is_queued id amount_usd)

  unfoldable pub do_withdraw : (user : ℕ) (chat_id : ℤ) (amount_usd : F) → Handler F (Unit {0})
  do_withdraw user chat_id amount_usd = do
    u ← reads (get_user user)
    match_option u type_error λ row.
        match_option (destination_of row) (reply out chat_id no_whitelist_address) λ destination. do
          n ← nav out
          match_option n (reply out chat_id nav_unavailable) λ v.
              if le (price_of v) (lit 0 0)
              then reply out chat_id nav_unavailable
              else queue_it user chat_id amount_usd destination (price_of v)

  -- At once, or after the code.
  abbrev pub withdraw_or_ask :
      (chat_id : ℤ) (user : ℕ) (destination : String) (amount_usd : F) → Handler F (Unit {0})
  withdraw_or_ask chat_id user destination amount_usd =
      act_or_ask out user (do_withdraw user chat_id amount_usd) (do
        set_pending user (withdraw_code amount_usd)
        reply out chat_id (confirm_withdrawal amount_usd destination))

  abbrev pub withdraw_argument :
      (chat_id : ℤ) (user : ℕ) (destination raw : String) → Handler F (Unit {0})
  withdraw_argument chat_id user destination raw = do
    n ← nav out
    match_option n (reply out chat_id nav_unavailable) λ v. do
      shares ← reads (get_shares user)
      amount_of chat_id raw (usd_for_shares shares (price_of v)) λ amount_usd.
          within_balance chat_id amount_usd (usd_for_shares shares (price_of v)) (
            within_caps chat_id user amount_usd
              (withdraw_or_ask chat_id user destination amount_usd))

  unfoldable pub handle_withdraw : (chat_id : ℤ) (user : ℕ) (text : String) → Handler F (Unit {0})
  handle_withdraw chat_id user text = for_enrolled out chat_id user λ row.
      match_option (destination_of row) (reply out chat_id set_destination_first) λ destination.
        unless_locked out chat_id user (
          match_option (argument text)
            (do set_pending user withdraw_amount_entry; reply out chat_id how_much)
            (withdraw_argument chat_id user destination))

  abbrev pub destination_of_user : Option VaultUser → Option String
  destination_of_user none = none
  destination_of_user (some u) = destination_of u

  unfoldable pub respond_withdraw_amount_entry :
      (chat_id : ℤ) (user : ℕ) (text : String) → Handler F (Unit {0})
  respond_withdraw_amount_entry chat_id user text = do
    clear_pending user
    match_option (positive (out.number (trim text))) (reply out chat_id invalid_amount)
        λ amount_usd. do
          to ← reads (λ d. destination_of_user (get_user user d))
          match_option to (reply out chat_id set_destination_first) λ destination. do
            n ← nav out
            match_option n (reply out chat_id nav_unavailable) λ v. do
              shares ← reads (get_shares user)
              within_balance chat_id amount_usd (usd_for_shares shares (price_of v))
                  (withdraw_or_ask chat_id user destination amount_usd)

  unfoldable pub respond_withdraw :
      (chat_id : ℤ) (user : ℕ) (code : String) (amount_usd : F) → Handler F (Unit {0})
  respond_withdraw chat_id user code amount_usd = do
    clear_pending user
    respond_gated out chat_id user code op_withdraw (do_withdraw user chat_id amount_usd)
