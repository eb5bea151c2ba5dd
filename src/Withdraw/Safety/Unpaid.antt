-- ===== src/Withdraw/Safety/Unpaid.antt =====
-- Up to the transfer: `processOne` of src/vault/withdrawalExecutor.ts on a withdrawal that is in
-- process and unpaid, while the bot's other tasks run at every `await`.
use bert_mm_bot.Prelude.{
  ℕ, ◌≡◌, refl, ◌∙◌, ==_iff, Bool, true, Option, some, update, arith, inl, inr, Option-cases,
  Bool-cases,
}
use bert_mm_bot.Store.{
  World, Db, Result, VaultWithdrawal, Thrown, Reason, has_id, is_null, is_processing, fails,
  statement, fail_withdrawal, exec, set_withdrawals,
}
use bert_mm_bot.Withdraw.Frame.Table.{row, sig_free, row-update, row-update-none}
use bert_mm_bot.Withdraw.Frame.{
  Spares, Spares-trans, payments, nobody, only, statement-Spares, update_DbSpares,
}
use bert_mm_bot.Withdraw.Safety.Invariant.{After, Inv, Inv-only, Inv-Spares}

module _ {F : Type 0} (id : ℕ) where
  -- The withdrawal is in process, unpaid and unsigned.
  pub record Held (r : VaultWithdrawal F) (w : World F) : Type 0 where
    pub inv : Inv w
    pub at : row id w.db ≡ some r
    pub doing : is_processing r.status ≡ true
    pub unpaid : payments id w ≡ 0
    pub unsigned : is_null r.tx_sig ≡ true

  -- Nothing was paid for it, whatever its row says.
  pub record Clear (w : World F) : Type 0 where
    pub inv : Inv w
    pub unpaid : payments id w ≡ 0
    pub free : sig_free (row id w.db) ≡ true

  pub Held-Clear : {r : VaultWithdrawal F} {w : World F} → Held r w → Clear w
  Held-Clear {r} {w} h = record { inv = h.inv; unpaid = h.unpaid; free = rw h.at h.unsigned }

  pub Held-Spares :
      {r : VaultWithdrawal F} {v w : World F} → Spares nobody v w → Held r v → Held r w
  Held-Spares {r} s h = record {
    inv = Inv-Spares s h.inv;
    at = s.db.keeps id r refl h.at (ground (arith, h.doing));
    doing = h.doing;
    unpaid = s.paid id refl ∙ h.unpaid;
    unsigned = h.unsigned;
  }

  pub Clear-Spares : {v w : World F} → Spares nobody v w → Clear v → Clear w
  Clear-Spares s h = record {
    inv = Inv-Spares s h.inv;
    unpaid = s.paid id refl ∙ h.unpaid;
    free = s.db.unsigned id refl h.free;
  }

  pub Clear-After :
      (w : World F) (x : Result (Unit {0}) × World F)
      → Spares (only id) w x.1
      → Clear x.1
      → After id w x
  Clear-After w x s c = record { inv = c.inv; spares = s; safe = inr (inl (c.unpaid, c.free)) }

  pub After-trans :
      {v w : World F} {x : Result (Unit {0}) × World F}
      → Spares (only id) v w
      → After id w x
      → After id v x
  After-trans s a = record { inv = a.inv; spares = Spares-trans s a.spares; safe = a.safe }

  payments-statement :
      {A : Type 0} (refused : Db F → Option Thrown) (answer : Db F → A) (f : Db F → Db F)
      (w : World F)
      → payments id (statement refused answer f w).1 ≡ payments id w
  unfolding statement
  payments-statement refused answer f w = ground arith

  statement_case :
      (P : Db F → Type 0) (f : Db F → Db F) (w : World F) → P w.db → P (f w.db) → P (exec f w).1.db
  unfolding statement
  statement_case P f w h k = elim (Bool-cases (fails w.faults)) [ inl e ↦ rw e h | inr e ↦ rw e k ]

  -- An update of the row of an unpaid withdrawal that writes no signature.
  pub update-Clear :
      (p : VaultWithdrawal F → Bool) (f : VaultWithdrawal F → VaultWithdrawal F) (w : World F)
      → ((r : VaultWithdrawal F) → (f r).id ≡ r.id)
      → ((r : VaultWithdrawal F) → p r ≡ true → r.id ≡ id)
      → ((r : VaultWithdrawal F) → (f r).tx_sig ≡ r.tx_sig)
      → Clear w
      → let x = exec (set_withdrawals (update p f)) w in Spares (only id) w x.1 × Clear x.1
  update-Clear p f w keep reach sig c = (
    spares,
    record { inv = Inv-only id spares c.inv (inl (unpaid, free)); unpaid = unpaid; free = free },
  )
    where
      d' : Db F
      d' = record w.db { withdrawals = update p f w.db.withdrawals }

      w' : World F
      w' = (exec (set_withdrawals (update p f)) w).1

      spares : Spares (only id) w w'
      spares = statement-Spares (only id) _ _ _ w (update_DbSpares id p f w.db keep reach)

      unpaid : payments id w' ≡ 0
      unpaid = payments-statement _ _ _ w ∙ c.unpaid

      free_db : sig_free (row id d') ≡ true
      free_db = elim (Option-cases (row id w.db)) [
        | inl n ↦ rw (row-update-none id p f keep w.db n) refl
        | inr (r, e) ↦ rw (row-update id p f keep w.db r e) (ground (arith, sig r, c.free, e))
      ]

      free : sig_free (row id w'.db) ≡ true
      free = statement_case (λ d. sig_free (row id d) ≡ true) _ w c.free free_db

  pub fail_withdrawal-Clear :
      (reason : Reason) (at : ℕ) (w : World F)
      → Clear w
      → let x = fail_withdrawal id reason at w in Spares (only id) w x.1 × Clear x.1
  unfolding fail_withdrawal
  fail_withdrawal-Clear reason at w c =
      update-Clear (has_id id) _ w (λ r. refl) (λ r h. (==_iff r.id id).0 h) (λ r. refl) c
