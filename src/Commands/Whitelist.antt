-- ===== src/Commands/Whitelist.antt =====
-- src/vault/commands.ts: how a user asks for another withdrawal destination, or takes the request back.
use Prim.Native.String.{◌++◌ as str_append}
use bert_mm_bot.Prelude.{ℕ, String, Option, some, if◌then◌else◌}
use bert_mm_bot.Prelude.Int.{ℤ}
use bert_mm_bot.Store.{
  VaultUser, Operation, write_audit, op_cancelwhitelist, whitelist_set, whitelist_cancel,
}
use bert_mm_bot.Cooldowns.{ChangeAnswer, request_change, cancel_pending}
use bert_mm_bot.Text.{argument, trim}
use bert_mm_bot.Commands.Chat.{
  Handler, Outside, Reply, setwhitelist_first, setwhitelist_change, cancelwhitelist, ask_code,
  usage_setwhitelist, bad_address, first_whitelist, change_requested, whitelist_now,
  whitelist_queued, change_cancelled, nothing_to_cancel, ◌>>=◌, ◌>>◌, lift, set_pending,
  clear_pending, match_option, now_ms, reply,
}
use bert_mm_bot.Commands.Gate.{for_enrolled, unless_locked, act_or_ask, respond_gated}

abbrev pub change_answer : {F : Type 0} → (address : String) → ChangeAnswer → Reply F
change_answer address a =
    if a.immediate then whitelist_now address else whitelist_queued a.activates_at

module _ {F : Type 0} (out : Outside F) (cooldown_ms : ℕ) where
  unfoldable pub do_set_whitelist :
      (user : ℕ) (chat_id : ℤ) (address : String) → Handler F (Unit {0})
  do_set_whitelist user chat_id address = do
    now ← now_ms out
    result ← lift (request_change cooldown_ms user address now)
    ts ← now_ms out
    lift (write_audit ts (some user) (whitelist_set address result.immediate result.activates_at))
    reply out chat_id (change_answer address result)

  abbrev pub ask_first_or_change :
      (chat_id : ℤ) (user : ℕ) (address : String) → Option String → Handler F (Unit {0})
  ask_first_or_change chat_id user address old =
      match_option old
        (do
          set_pending user (setwhitelist_first address)
          reply out chat_id (first_whitelist address))
        (λ _. do
          set_pending user (setwhitelist_change address)
          reply out chat_id (change_requested address))

  unfoldable pub set_whitelist_argument :
      (chat_id : ℤ) (user : ℕ) → Option String → VaultUser → Handler F (Unit {0})
  set_whitelist_argument chat_id user argument row =
      match_option argument (reply out chat_id usage_setwhitelist) λ address.
        if out.is_public_key address
        then unless_locked out chat_id user (
            act_or_ask out user (do_set_whitelist user chat_id address)
              (ask_first_or_change chat_id user address row.whitelist_address))
        else reply out chat_id bad_address

  unfoldable pub handle_set_whitelist :
      (chat_id : ℤ) (user : ℕ) (text : String) → Handler F (Unit {0})
  handle_set_whitelist chat_id user text =
      for_enrolled out chat_id user (set_whitelist_argument chat_id user (argument text))

  abbrev pub entered_address : (chat_id : ℤ) (user : ℕ) (address : String) → Handler F (Unit {0})
  entered_address chat_id user address =
      if out.is_public_key address
      then handle_set_whitelist chat_id user (str_append "/setwhitelist " address)
      else reply out chat_id bad_address

  -- The text is put behind `/setwhitelist ` and handled as that command.
  unfoldable pub respond_set_whitelist_address_entry :
      (chat_id : ℤ) (user : ℕ) (text : String) → Handler F (Unit {0})
  respond_set_whitelist_address_entry chat_id user text = do
    clear_pending user
    entered_address chat_id user (trim text)

  unfoldable pub respond_set_whitelist :
      (chat_id : ℤ) (user : ℕ) (code : String)
      → Operation
      → (address : String) → Handler F (Unit {0})
  respond_set_whitelist chat_id user code op address = do
    clear_pending user
    respond_gated out chat_id user code op (do_set_whitelist user chat_id address)

  unfoldable pub do_cancel_whitelist : (user : ℕ) (chat_id : ℤ) → Handler F (Unit {0})
  do_cancel_whitelist user chat_id = do
    _ ← now_ms out
    was_pending ← lift (cancel_pending user "user")
    ts ← now_ms out
    lift (write_audit ts (some user) (whitelist_cancel was_pending))
    if was_pending then reply out chat_id change_cancelled else reply out chat_id nothing_to_cancel

  unfoldable pub handle_cancel_whitelist : (chat_id : ℤ) (user : ℕ) → Handler F (Unit {0})
  handle_cancel_whitelist chat_id user = for_enrolled out chat_id user λ _.
      unless_locked out chat_id user (
        act_or_ask out user (do_cancel_whitelist user chat_id)
          (do set_pending user cancelwhitelist; reply out chat_id (ask_code op_cancelwhitelist)))

  unfoldable pub respond_cancel_whitelist :
      (chat_id : ℤ) (user : ℕ) (code : String) → Handler F (Unit {0})
  respond_cancel_whitelist chat_id user code = do
    clear_pending user
    respond_gated out chat_id user code op_cancelwhitelist (do_cancel_whitelist user chat_id)
