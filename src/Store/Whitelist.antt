-- ===== src/Store/Whitelist.antt =====
-- The whitelist changes of src/vault/depositorStore.ts.
use bert_mm_bot.Prelude.{
  ℕ, suc, String, Bool, List, [], ◌∷◌, ◌++◌, Option, none, some, ltb, leb, ◌==◌, ◌&&◌, update,
  select, count, first, order_by,
}
use bert_mm_bot.Store.Rows.{
  Db, PendingWhitelistChange, ChangeStatus, activated, cancelled, is_pending,
}
use bert_mm_bot.Store.Monad.{Action, statement, exec}

abbrev pub is_due : ℕ → PendingWhitelistChange → Bool
is_due now c = is_pending c.status && leb c.activates_at now

abbrev pub is_change : ℕ → PendingWhitelistChange → Bool
is_change id c = c.id == id

module _ {F : Type 0} where
  abbrev pub set_changes : (List PendingWhitelistChange → List PendingWhitelistChange) → Db F → Db F
  set_changes f d = record d { changes = f d.changes }

  unfoldable pub enqueue_whitelist_change :
      (telegram_id : ℕ) (old_address : Option String) (new_address : String)
      (requested_at activates_at : ℕ) (initial_status : ChangeStatus)
      → Action F ℕ
  enqueue_whitelist_change telegram_id old_address new_address requested_at activates_at status =
      statement (λ _. none) (λ d. d.next_change)
        (λ d. record d {
          changes =
              d.changes
              ++ record {
                id = d.next_change;
                telegram_id = telegram_id;
                old_address = old_address;
                new_address = new_address;
                requested_at = requested_at;
                activates_at = activates_at;
                status = status;
                cancel_reason = none;
              }
                ∷ [];
          next_change = suc d.next_change;
        })

  unfoldable pub list_due_whitelist_changes : ℕ → Db F → List PendingWhitelistChange
  list_due_whitelist_changes now d =
      order_by (λ a b. ltb a.activates_at b.activates_at) (select (is_due now) d.changes)

  unfoldable pub most_recent_pending_change : ℕ → Db F → Option PendingWhitelistChange
  most_recent_pending_change id d = first (
      order_by (λ a b. ltb b.requested_at a.requested_at)
        (select (λ c. c.telegram_id == id && is_pending c.status) d.changes))

  unfoldable pub mark_whitelist_activated : ℕ → Action F (Unit {0})
  mark_whitelist_activated id =
      exec (set_changes (update (is_change id) (λ c. record c { status = activated })))

  unfoldable pub cancel_pending_whitelist : (id : ℕ) (reason : String) → Action F (Unit {0})
  cancel_pending_whitelist id reason = exec (
      set_changes
        (update (is_change id) (λ c. record c { status = cancelled; cancel_reason = some reason })))

  unfoldable pub count_pending_whitelist_changes : Db F → ℕ
  count_pending_whitelist_changes d = count (λ c. is_pending c.status) d.changes
