-- ===== src/Withdraw/Safety/Rounds.antt =====
-- `drain` of src/vault/withdrawalExecutor.ts, and the histories of the whole: no withdrawal is paid
-- twice.
use bert_mm_bot.Prelude.{
  ℕ, ◌≡◌, ◌⊎◌, refl, ◌∙◌, ==_refl, Bool, true, false, ◌&&◌, some, arith, inl, inr, Bool-cases,
}
use bert_mm_bot.Amounts.{Arith}
use bert_mm_bot.Store.{
  World, Result, ok, err, VaultWithdrawal, Thrown, sqlite, processing, has_id, is_queued, fails,
  statement, and_then, recover, set_withdrawal_processing, unexpected,
}
use bert_mm_bot.Withdraw.Executor.{Answers, sent, process_one, on_error, drain_one}
use bert_mm_bot.Withdraw.Frame.Table.{row, sig_free, row-update}
use bert_mm_bot.Withdraw.Frame.{Spares, Spares-refl, Spares-trans, payments, only}
use bert_mm_bot.Withdraw.Safety.Invariant.{After, Inv, queued_unpaid}
use bert_mm_bot.Withdraw.Safety.Unpaid.{Held, Clear, update-Clear, fail_withdrawal-Clear}
use bert_mm_bot.Withdraw.Safety.Process.{LandsOnce, process_one-After}

module _ {F : Type 0} where
  -- The invariant holds after a step on one withdrawal, and the others are spared.
  pub record Kept (id : ℕ) (w w' : World F) : Type 0 where
    pub inv : Inv w'
    pub spares : Spares (only id) w w'

  on_error-Kept :
      (id at : ℕ) (e : Thrown) (w : World F)
      → Inv w
      → ((payments id w ≡ 0) × (sig_free (row id w.db) ≡ true)) ⊎ (sent (row id w.db) ≡ true)
      → Kept id w (on_error id at e w).1
  unfolding on_error and_then
  on_error-Kept id at e w i (inr s) = rw s (record { inv = i; spares = Spares-refl (only id) w })
  on_error-Kept id at e w i (inl c) = elim (Bool-cases (sent (row id w.db))) [
    | inl s ↦ rw s (record { inv = i; spares = Spares-refl (only id) w })
    | inr s ↦
        let failed =
          fail_withdrawal-Clear id (unexpected e) at w
            (record { inv = i; unpaid = c.0; free = c.1 }) in
        rw s (record { inv = failed.1.inv; spares = failed.0 })
  ]

  recover-Kept :
      (id at : ℕ) (w : World F) (x : Result (Unit {0}) × World F)
      → After id w x
      → Kept id w (recover (on_error id at) x).1
  unfolding recover
  recover-Kept id at w (ok t, u) a = record { inv = a.inv; spares = a.spares }
  recover-Kept id at w (err e, u) a =
      let k = on_error-Kept id at e u a.inv (raised a.safe) in
      record { inv = k.inv; spares = Spares-trans a.spares k.spares }
    where
      raised :
          (◌≡◌ {A = Result (Unit {0})} (err e) (ok tt))
            ⊎ (((payments id u ≡ 0) × (sig_free (row id u.db) ≡ true))
                ⊎ (sent (row id u.db) ≡ true))
          → ((payments id u ≡ 0) × (sig_free (row id u.db) ≡ true)) ⊎ (sent (row id u.db) ≡ true)
      raised (inl no_error) = cc
      raised (inr how) = how

  -- `UPDATE … SET status='processing' WHERE id=? AND status='queued'`
  abbrev claims : ℕ → VaultWithdrawal F → Bool
  claims id r = has_id id r && is_queued r.status

  abbrev claimed : VaultWithdrawal F → VaultWithdrawal F
  claimed r = record r { status = processing }

  set_processing-eq-err :
      (id : ℕ) (w : World F)
      → fails w.faults ≡ true
      → (set_withdrawal_processing id w).0 ≡ err sqlite
  unfolding set_withdrawal_processing statement
  set_processing-eq-err id w e = rw e refl

  set_processing-eq-ok :
      (r : VaultWithdrawal F) (w : World F)
      → row r.id w.db ≡ some r
      → is_queued r.status ≡ true
      → fails w.faults ≡ false
      → let x = set_withdrawal_processing r.id w in
        (x.0 ≡ ok tt) × (row r.id x.1.db ≡ some (claimed r))
  unfolding set_withdrawal_processing statement
  set_processing-eq-ok r w e q fine =
      rw fine (
        refl,
        row-update r.id (claims r.id) claimed (λ x. refl) w.db r e ∙ rw (==_refl r.id, q) refl,
      )

  set_processing-Clear :
      (r : VaultWithdrawal F) (w : World F)
      → Inv w
      → row r.id w.db ≡ some r
      → is_queued r.status ≡ true
      → let x = set_withdrawal_processing r.id w in Spares (only r.id) w x.1 × Clear r.id x.1
  unfolding set_withdrawal_processing
  set_processing-Clear r w i e q =
      let c = queued_unpaid r.id r w i e q in
      update-Clear r.id (claims r.id) claimed w (λ x. refl) (λ x h. ground arith) (λ x. refl)
        (record { inv = i; unpaid = c.0; free = c.1 })

  -- A queued row becomes a row in process, or the statement throws.
  set_processing_ends :
      (r : VaultWithdrawal F) (w : World F)
      → Inv w
      → row r.id w.db ≡ some r
      → is_queued r.status ≡ true
      → let x = set_withdrawal_processing r.id w in
        (x.0 ≡ err sqlite) ⊎ ((x.0 ≡ ok tt) × Held r.id (claimed r) x.1)
  set_processing_ends r w i e q = elim (Bool-cases (fails w.faults)) [
    | inl bad ↦ inl (set_processing-eq-err r.id w bad)
    | inr fine ↦
        let c = set_processing-Clear r w i e q in
        let u = set_processing-eq-ok r w e q fine in
        let free = queued_unpaid r.id r w i e q in
        inr (
          u.0,
          record {
            inv = c.1.inv;
            at = u.1;
            doing = refl;
            unpaid = c.1.unpaid;
            unsigned = rw e at free.1;
          },
        )
  ]

module _ {F : Type 0} ⦃num : Arith F⦄ (reserve : ℕ) where
  pub drain_one-Kept :
      (r : VaultWithdrawal F) (ans : Answers F) (w : World F)
      → LandsOnce ans
      → Inv w
      → row r.id w.db ≡ some r
      → is_queued r.status ≡ true
      → Kept r.id w (drain_one reserve (r, ans) w).1
  unfolding drain_one and_then
  drain_one-Kept r ans w named i e q =
      go (set_withdrawal_processing r.id w) (set_processing-Clear r w i e q)
        (set_processing_ends r w i e q)
    where
      go :
          (x : Result (Unit {0}) × World F)
          → Spares (only r.id) w x.1 × Clear r.id x.1
          → (x.0 ≡ err sqlite) ⊎ ((x.0 ≡ ok tt) × Held r.id (claimed r) x.1)
          → Kept r.id w
              (and_then
                (λ _ u. recover (on_error r.id ans.caught_at) (process_one reserve r.id ans u))
                x).1
      go (err x, u) c h = record { inv = c.1.inv; spares = c.0 }
      go (ok t, u) c h =
          let k =
            recover-Kept r.id ans.caught_at u (process_one reserve r.id ans u)
              (process_one-After reserve r.id ans (claimed r) u named (held h)) in
          record { inv = k.inv; spares = Spares-trans c.0 k.spares }
        where
          held :
              (◌≡◌ {A = Result (Unit {0})} (ok t) (err sqlite))
                ⊎ ((◌≡◌ {A = Result (Unit {0})} (ok t) (ok tt)) × Held r.id (claimed r) u)
              → Held r.id (claimed r) u
          held (inl thrown) = cc
          held (inr fine) = fine.1
