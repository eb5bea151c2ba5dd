-- ===== src/Cooldowns.antt =====
-- src/vault/cooldowns.ts: a user's first whitelisted address counts at once, a later one after
-- `cooldownMs`. A list that the source builds beside the effects is the answer of the action.
pub mod Laws
pub mod Requests
mod Tests
use bert_mm_bot.Prelude.{ℕ, ◌+◌, String, Bool, true, false, List, [], ◌∷◌, Option, none, some}
use bert_mm_bot.Store.{
  Action, pure, throw, gets, ◌>>=◌, ◌>>◌, with_transaction, not_found, pending, activated,
  VaultUser, PendingWhitelistChange, get_user, enqueue_whitelist_change, set_whitelist_immediate,
  list_due_whitelist_changes, mark_whitelist_activated, most_recent_pending_change,
  cancel_pending_whitelist,
}

pub record ChangeAnswer : Type 0 where
  pub immediate : Bool
  pub activates_at : ℕ
  pub pending_id : ℕ

-- The user's address, if there is such a user.
abbrev pub whitelist_address_of : Option VaultUser → Option (Option String)
whitelist_address_of none = none
whitelist_address_of (some u) = some u.whitelist_address

module _ {F : Type 0} where
  abbrev pub first_set : (telegram_id : ℕ) (new_address : String) (now : ℕ) → Action F ChangeAnswer
  first_set telegram_id new_address now = do
    id ← enqueue_whitelist_change telegram_id none new_address now now activated
    set_whitelist_immediate telegram_id new_address now
    pure (record { immediate = true; activates_at = now; pending_id = id })

  abbrev pub change_later :
      (cooldown_ms telegram_id : ℕ) (old_address new_address : String) (now : ℕ)
      → Action F ChangeAnswer
  change_later cooldown_ms telegram_id old_address new_address now = do
    id ←
        enqueue_whitelist_change telegram_id (some old_address) new_address now (now + cooldown_ms)
          pending
    pure (record { immediate = false; activates_at = now + cooldown_ms; pending_id = id })

  abbrev pub request_change_of :
      (cooldown_ms telegram_id : ℕ) (new_address : String) (now : ℕ)
      → Option (Option String)
      → Action F ChangeAnswer
  request_change_of cooldown_ms telegram_id new_address now none = throw not_found
  request_change_of cooldown_ms telegram_id new_address now (some none) =
      with_transaction (first_set telegram_id new_address now)
  request_change_of cooldown_ms telegram_id new_address now (some (some old_address)) =
      change_later cooldown_ms telegram_id old_address new_address now

  unfoldable pub request_change :
      (cooldown_ms telegram_id : ℕ) (new_address : String) (now : ℕ) → Action F ChangeAnswer
  request_change cooldown_ms telegram_id new_address now = do
    address ← gets (λ d. whitelist_address_of (get_user telegram_id d))
    request_change_of cooldown_ms telegram_id new_address now address

  -- The transaction for one row that is due.
  unfoldable pub activate : ℕ → PendingWhitelistChange → Action F (Unit {0})
  activate now row = with_transaction (do
    set_whitelist_immediate row.telegram_id row.new_address now
    mark_whitelist_activated row.id)

  unfoldable pub activate_rows :
      ℕ → List PendingWhitelistChange → Action F (List PendingWhitelistChange)
  activate_rows now [] = pure []
  activate_rows now (row ∷ rows) = do
    activate now row
    activated_rows ← activate_rows now rows
    pure (row ∷ activated_rows)

  unfoldable pub activate_due : ℕ → Action F (List PendingWhitelistChange)
  activate_due now = do due ← gets (list_due_whitelist_changes now); activate_rows now due

  abbrev pub cancel_change : String → Option PendingWhitelistChange → Action F Bool
  cancel_change reason none = pure false
  cancel_change reason (some p) = do cancel_pending_whitelist p.id reason; pure true

  unfoldable pub cancel_pending : (telegram_id : ℕ) (reason : String) → Action F Bool
  cancel_pending telegram_id reason = do
    p ← gets (most_recent_pending_change telegram_id)
    cancel_change reason p
