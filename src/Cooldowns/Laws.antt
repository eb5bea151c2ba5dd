-- ===== src/Cooldowns/Laws.antt =====
-- What src/vault/cooldowns.ts promises: an address that replaces another waits for the cooldown.
use bert_mm_bot.Prelude.{
  ℕ, ◌+◌, ◌≤◌, ◌≡◌, ◌⊎◌, refl, String, true, false, List, [], ◌∷◌, Option, some, inl, inr, find,
  update, Mem, All, order_by-All, select-All, both-All, Mem-All, arith,
}
use bert_mm_bot.Store.{
  World, Db, UserRow, PendingWhitelistChange, is_pending, and_then, is_user, to_user, set_users,
  is_due, set_whitelist_immediate, list_due_whitelist_changes, mark_whitelist_activated,
}
use bert_mm_bot.StoreKeeps.{Keeps, exec-Keeps, >>=-Keeps, transaction-Keeps}
use bert_mm_bot.Cooldowns.{whitelist_address_of, activate, activate_rows, activate_due}

-- A pending change was requested a whole cooldown before it may take effect.
abbrev pub Cooled : ℕ → PendingWhitelistChange → Type 0
Cooled cooldown_ms c =
    (is_pending c.status ≡ false) ⊎ (c.activates_at ≡ c.requested_at + cooldown_ms)

-- The user's address after `setWhitelistImmediate`.
address-set :
    (id user : ℕ) (new_address : String) (at : ℕ) (users : List UserRow)
    → let after =
        update
          (is_user user)
          (λ r. record r { whitelist_address = some new_address; whitelist_set_at = some at })
          users in
      let before = whitelist_address_of (to_user (find (is_user id) users)) in
      let now = whitelist_address_of (to_user (find (is_user id) after)) in
      (now ≡ before) ⊎ ((user ≡ id) × (now ≡ some (some new_address)))
address-set id user new_address at [] = inl refl
address-set id user new_address at (r ∷ rs) = ground (arith, address-set id user new_address at rs)

-- A change among `rows` that a user requested at least a cooldown before `now`.
abbrev pub Ripe :
    (cooldown_ms now : ℕ) → List PendingWhitelistChange → PendingWhitelistChange → Type 0
Ripe cooldown_ms now rows c =
    Mem c rows × (is_pending c.status ≡ true) × (c.requested_at + cooldown_ms ≤ now)

module _ {F : Type 0} where
  abbrev pub IsCooled : ℕ → Db F → Type 0
  IsCooled cooldown_ms d = All (Cooled cooldown_ms) d.changes

  -- A user's whitelisted address, if there is such a user.
  abbrev pub address : ℕ → Db F → Option (Option String)
  address id d = whitelist_address_of (to_user (find (is_user id) d.users))

  -- The user has the address as before, or one that was requested a cooldown ago.
  abbrev pub Justified : (cooldown_ms now id : ℕ) → Db F → Db F → Type 0
  Justified cooldown_ms now id before d =
      (address id d ≡ address id before)
      ⊎ ((c : PendingWhitelistChange) × Ripe cooldown_ms now before.changes c
          × (c.telegram_id ≡ id)
          × (address id d ≡ some (some c.new_address)))

  due-All :
      (cooldown_ms now : ℕ) (d : Db F)
      → IsCooled cooldown_ms d
      → All (Ripe cooldown_ms now d.changes) (list_due_whitelist_changes now d)
  unfolding list_due_whitelist_changes
  due-All cooldown_ms now d h = order_by-All (Ripe cooldown_ms now d.changes) _ _ (
      select-All (λ c. Cooled cooldown_ms c × Mem c d.changes) (Ripe cooldown_ms now d.changes)
        (is_due now) ripe d.changes (both-All _ _ d.changes h (Mem-All d.changes)))
    where
      ripe :
          (c : PendingWhitelistChange)
          → is_due now c ≡ true
          → Cooled cooldown_ms c × Mem c d.changes
          → Ripe cooldown_ms now d.changes c
      ripe c due (cooled, m) =
          let is_waiting : is_pending c.status ≡ true = ground arith in
          (m, is_waiting, ground (arith, cooled))

  module _ (cooldown_ms now id : ℕ) (before : Db F) where
    activate-Keeps :
        (row : PendingWhitelistChange)
        → Ripe cooldown_ms now before.changes row
        → Keeps (Justified cooldown_ms now id before) (activate now row)
    unfolding activate set_whitelist_immediate mark_whitelist_activated
    activate-Keeps row ripe = transaction-Keeps (Justified cooldown_ms now id before) _ (
        >>=-Keeps (Justified cooldown_ms now id before)
          (set_whitelist_immediate row.telegram_id row.new_address now) _
          (exec-Keeps (Justified cooldown_ms now id before) _ set)
          λ _. exec-Keeps (Justified cooldown_ms now id before) _ (λ d h. h))
      where
        set :
            (d : Db F)
            → Justified cooldown_ms now id before d
            → Justified cooldown_ms now id before (
                set_users
                  (update (is_user row.telegram_id) (λ r. record r {
                    whitelist_address = some row.new_address;
                    whitelist_set_at = some now;
                  }))
                  d)
        set d h = elim (address-set id row.telegram_id row.new_address now d.users) [
          | inl same ↦ rw same h
          | inr (this, e) ↦ inr (row, ripe, this, e)
        ]

    activate_rows-Keeps :
        (rows : List PendingWhitelistChange)
        → All (Ripe cooldown_ms now before.changes) rows
        → Keeps (Justified cooldown_ms now id before) (activate_rows now rows)
    unfolding activate_rows
    activate_rows-Keeps [] h = λ w k. k
    activate_rows-Keeps (row ∷ rows) (h, hs) =
        >>=-Keeps (Justified cooldown_ms now id before) (activate now row) _ (activate-Keeps row h)
          λ _.
            >>=-Keeps (Justified cooldown_ms now id before) (activate_rows now rows) _
              (activate_rows-Keeps rows hs) (λ _ w k. k)

  -- `activateDue` gives a user another address only if that user requested it a whole cooldown
  -- before, even if it throws midway.
  pub activate_due_waits :
      (cooldown_ms now id : ℕ) (w : World F)
      → IsCooled cooldown_ms w.db
      → Justified cooldown_ms now id w.db (activate_due now w).1.db
  unfolding activate_due and_then
  activate_due_waits cooldown_ms now id w h =
      activate_rows-Keeps cooldown_ms now id w.db (list_due_whitelist_changes now w.db)
        (due-All cooldown_ms now w.db h) w (inl refl)
