-- ===== src/Cooldowns/Requests.antt =====
-- The requests of src/vault/cooldowns.ts, and that every operation keeps the cooldown.
use bert_mm_bot.Prelude.{
  ℕ, ◌+◌, ◌≡◌, ◌⊎◌, refl, sym, ◌∙◌, ap, String, Bool, true, false, List, [], ◌∷◌, ◌++◌, Option,
  none, some, inl, inr, find, update, append-All, update-All, Option-cases, arith,
}
use bert_mm_bot.Store.{
  World, Result, ok, err, Thrown, UserRow, PendingWhitelistChange, ChangeStatus, not_found,
  is_pending, pending, activated, and_then, exec, is_user, to_user, get_user, set_changes,
  is_change, enqueue_whitelist_change, set_whitelist_immediate, list_due_whitelist_changes,
  mark_whitelist_activated, most_recent_pending_change, cancel_pending_whitelist, with_transaction,
}
use bert_mm_bot.StoreLaws.{
  Result-cases, settle-err, and_then-ok, statement-ok, statement-Does, >>=-Does, gets-Does,
  transaction-Does,
}
use bert_mm_bot.StoreKeeps.{Keeps, statement-Keeps, exec-Keeps, >>=-Keeps, transaction-Keeps}
use bert_mm_bot.Cooldowns.{
  ChangeAnswer, whitelist_address_of, first_set, change_later, request_change, request_change_of,
  activate, activate_rows, activate_due, cancel_change, cancel_pending,
}
use bert_mm_bot.Cooldowns.Laws.{Cooled, IsCooled, address}

address-set_self :
    (id : ℕ) (new_address : String) (at : ℕ) (users : List UserRow) (old : Option String)
    → whitelist_address_of (to_user (find (is_user id) users)) ≡ some old
    → whitelist_address_of (
        to_user (
          find (is_user id) (
            update
              (is_user id)
              (λ r. record r { whitelist_address = some new_address; whitelist_set_at = some at })
              users)))
      ≡ some (some new_address)
address-set_self id new_address at [] old h = cc
address-set_self id new_address at (r ∷ rs) old h =
    ground (arith, address-set_self id new_address at rs old)

abbrev answer_or : ChangeAnswer → Result ChangeAnswer → ChangeAnswer
answer_or a (ok b) = b
answer_or a (err e) = a

abbrev change :
    (telegram_id : ℕ) (old_address : Option String) (new_address : String)
    (requested_at activates_at : ℕ)
    → ChangeStatus
    → PendingWhitelistChange
change telegram_id old_address new_address requested_at activates_at status = record {
  id = 0;
  telegram_id = telegram_id;
  old_address = old_address;
  new_address = new_address;
  requested_at = requested_at;
  activates_at = activates_at;
  status = status;
  cancel_reason = none;
}

-- A change of the address that waits for the cooldown.
abbrev pub put_off :
    (cooldown_ms telegram_id : ℕ) (old_address new_address : String) (now pending_id : ℕ)
    → PendingWhitelistChange
put_off cooldown_ms telegram_id old_address new_address now pending_id = record {
  id = pending_id;
  telegram_id = telegram_id;
  old_address = some old_address;
  new_address = new_address;
  requested_at = now;
  activates_at = now + cooldown_ms;
  status = pending;
  cancel_reason = none;
}

module _ {F : Type 0} where
  module _ (cooldown_ms : ℕ) where
    enqueue-Keeps :
        (c : PendingWhitelistChange)
        → Cooled cooldown_ms c
        → Keeps {F = F} (IsCooled cooldown_ms) (
            enqueue_whitelist_change c.telegram_id c.old_address c.new_address c.requested_at
              c.activates_at c.status)
    unfolding enqueue_whitelist_change
    enqueue-Keeps c k =
        statement-Keeps (IsCooled cooldown_ms) _ _ _
          (λ d _ h. append-All (Cooled cooldown_ms) d.changes _ h k)

    update-Keeps :
        (p : PendingWhitelistChange → Bool) (f : PendingWhitelistChange → PendingWhitelistChange)
        → ((c : PendingWhitelistChange) → is_pending (f c).status ≡ false)
        → Keeps {F = F} (IsCooled cooldown_ms) (exec (set_changes (update p f)))
    update-Keeps p f settled =
        exec-Keeps (IsCooled cooldown_ms) _
          (λ d. update-All (Cooled cooldown_ms) p f (λ c k. inl (settled c)) d.changes)

    request-Keeps :
        (id : ℕ) (new_address : String) (now : ℕ) (address : Option (Option String))
        → Keeps {F = F}
            (IsCooled cooldown_ms)
            (request_change_of cooldown_ms id new_address now address)
    unfolding set_whitelist_immediate
    request-Keeps id new_address now none = λ w h. h
    request-Keeps id new_address now (some none) =
        transaction-Keeps (IsCooled cooldown_ms) (first_set id new_address now) (
          >>=-Keeps (IsCooled cooldown_ms)
            (enqueue_whitelist_change id none new_address now now activated) _
            (enqueue-Keeps (change id none new_address now now activated) (inl refl))
            λ n.
              >>=-Keeps (IsCooled cooldown_ms) (set_whitelist_immediate id new_address now) _
                (exec-Keeps (IsCooled cooldown_ms) _ (λ d h. h)) (λ _ w h. h))
    request-Keeps id new_address now (some (some old_address)) =
        >>=-Keeps (IsCooled cooldown_ms)
          (enqueue_whitelist_change id (some old_address) new_address now (now + cooldown_ms)
            pending)
          _
          (enqueue-Keeps (change id (some old_address) new_address now (now + cooldown_ms) pending)
            (inr refl))
          (λ n w h. h)

    cancel-Keeps :
        (reason : String) (o : Option PendingWhitelistChange)
        → Keeps {F = F} (IsCooled cooldown_ms) (cancel_change reason o)
    unfolding cancel_pending_whitelist
    cancel-Keeps reason none = λ w h. h
    cancel-Keeps reason (some c) =
        >>=-Keeps (IsCooled cooldown_ms) (cancel_pending_whitelist c.id reason) _
          (update-Keeps (is_change c.id) _ (λ _. refl)) (λ _ w h. h)

    rows-Keeps :
        (now : ℕ) (rows : List PendingWhitelistChange)
        → Keeps {F = F} (IsCooled cooldown_ms) (activate_rows now rows)
    unfolding activate_rows activate set_whitelist_immediate mark_whitelist_activated
    rows-Keeps now [] = λ w h. h
    rows-Keeps now (row ∷ rows) =
        >>=-Keeps (IsCooled cooldown_ms) (activate now row) _
          (transaction-Keeps (IsCooled cooldown_ms) _ (
            >>=-Keeps (IsCooled cooldown_ms)
              (set_whitelist_immediate row.telegram_id row.new_address now) _
              (exec-Keeps (IsCooled cooldown_ms) _ (λ d h. h))
              λ _. update-Keeps (is_change row.id) _ (λ _. refl)))
          λ _.
            >>=-Keeps (IsCooled cooldown_ms) (activate_rows now rows) _ (rows-Keeps now rows)
              (λ _ w h. h)

    -- Requests, activations and cancellations keep it so that every pending change waits the cooldown.
    pub cooldowns-IsCooled :
        (id now : ℕ) (new_address reason : String) (w : World F)
        → IsCooled cooldown_ms w.db
        → IsCooled cooldown_ms (request_change cooldown_ms id new_address now w).1.db
          × IsCooled cooldown_ms (activate_due now w).1.db
          × IsCooled cooldown_ms (cancel_pending id reason w).1.db
    unfolding request_change activate_due cancel_pending and_then
    cooldowns-IsCooled id now new_address reason w h = (
      request-Keeps id new_address now (whitelist_address_of (get_user id w.db)) w h,
      rows-Keeps now (list_due_whitelist_changes now w.db) w h,
      cancel-Keeps reason (most_recent_pending_change id w.db) w h,
    )

    -- For a user who does not exist the request throws. A user's first address counts at once, or the
    -- request throws and changes nothing. A request to replace an address leaves every user as it is
    -- and, if it returns, has stored one pending change more, which is due when the cooldown is over, and
    -- answers its id and that time.
    pub request_change_waits :
        (id now : ℕ) (new_address : String) (w : World F)
        → let x = request_change cooldown_ms id new_address now w in
          (address id w.db ≡ none) × (x.0 ≡ err not_found) × (x.1 ≡ w)
          ⊎ ((address id w.db ≡ some none)
                × (((e : Thrown) × (x.0 ≡ err e) × (x.1.db ≡ w.db))
                    ⊎ ((a : ChangeAnswer) × (x.0 ≡ ok a)
                        × (a.immediate ≡ true)
                        × (address id x.1.db ≡ some (some new_address))))
              ⊎ (old : String) × (address id w.db ≡ some (some old))
                × (x.1.db.users ≡ w.db.users)
                × (((e : Thrown) × (x.0 ≡ err e))
                    ⊎ ((a : ChangeAnswer) × (x.0 ≡ ok a)
                        × (a.immediate ≡ false)
                        × (a.activates_at ≡ now + cooldown_ms)
                        × (x.1.db.changes
                            ≡ w.db.changes
                              ++ put_off cooldown_ms id old new_address now a.pending_id ∷ []))))
    unfolding request_change get_user and_then enqueue_whitelist_change set_whitelist_immediate
        with_transaction
    request_change_waits id now new_address w = elim (Option-cases (address id w.db)) [
      | inl absent ↦ inl (absent, rw absent refl, rw absent refl)
      | inr (none, h) ↦ inr (
          inl (
            h,
            rw h (elim (Result-cases (with_transaction (first_set id new_address now) w).0) [
              | inl (e, throws) ↦
                  inl (e, throws, settle-err w.db (first_set id new_address now w) throws)
              | inr (a, returns) ↦ let (i, set) = first h a returns in inr (a, returns, i, set)
            ]),
          ))
      | inr (some old, h) ↦ inr (
          inr (
            old,
            h,
            rw h (kept old),
            rw h (elim (Result-cases (change_later cooldown_ms id old new_address now w).0) [
              | inl (e, throws) ↦ inl (e, throws)
              | inr (a, returns) ↦
                  let (i, at, stored) = later old a returns in inr (a, returns, i, at, stored)
            ]),
          ))
    ]
      where
        first :
            address id w.db ≡ some none
            → (a : ChangeAnswer) → (with_transaction (first_set id new_address now) w).0 ≡ ok a
            → (a.immediate ≡ true)
              × (address id (with_transaction (first_set id new_address now) w).1.db
                  ≡ some (some new_address))
        first h a e =
            let (same, d) =
              transaction-Does (first_set id new_address now) _ _
                (>>=-Does (enqueue_whitelist_change id none new_address now now activated) _ _ _
                  (λ n _. record { immediate = true; activates_at = now; pending_id = n }) _
                  (statement-Does _ _ _)
                  λ n.
                    >>=-Does (set_whitelist_immediate id new_address now) _ _ _
                      (λ _ _. record { immediate = true; activates_at = now; pending_id = n })
                      (λ _ d. d) (statement-Does _ _ _)
                      (λ _.
                        gets-Does
                          (λ _. record { immediate = true; activates_at = now; pending_id = n })))
                w a e in
            (
              ap (λ b. b.immediate) same,
              ap (address id) d ∙ address-set_self id new_address now w.db.users none h,
            )

        kept :
            (old : String)
            → (change_later cooldown_ms id old new_address now w).1.db.users ≡ w.db.users
        kept old =
            >>=-Keeps (λ d. d.users ≡ w.db.users)
              (enqueue_whitelist_change id (some old) new_address now (now + cooldown_ms) pending) _
              (statement-Keeps (λ d. d.users ≡ w.db.users) _ _ _ (λ d _ k. k)) (λ n u k. k) w refl

        later :
            (old : String) (a : ChangeAnswer)
            → (change_later cooldown_ms id old new_address now w).0 ≡ ok a
            → (a.immediate ≡ false)
              × (a.activates_at ≡ now + cooldown_ms)
              × ((change_later cooldown_ms id old new_address now w).1.db.changes
                  ≡ w.db.changes ++ put_off cooldown_ms id old new_address now a.pending_id ∷ [])
        later old a e =
            let (n, e1, e2, e') =
              and_then-ok _
                (enqueue_whitelist_change id (some old) new_address now (now + cooldown_ms) pending
                  w)
                e in
            let (d, _, next) = statement-ok _ _ _ w e1 in
            (
              sym (ap (λ r. (answer_or a r).immediate) e'),
              sym (ap (λ r. (answer_or a r).activates_at) e'),
              ap (λ x. x.1.db.changes) e2
                  ∙ ap (λ x. x.changes) d
                  ∙ ap (λ k. w.db.changes ++ put_off cooldown_ms id old new_address now k ∷ [])
                      (next ∙ ap (λ r. (answer_or a r).pending_id) e'),
            )
