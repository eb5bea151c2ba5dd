-- ===== src/Withdraw/Safety/Invariant.antt =====
-- The invariant that keeps src/vault/withdrawalExecutor.ts from paying twice.
use bert_mm_bot.Prelude.{
  ℕ, ◌≤◌, ◌≡◌, ◌⊎◌, refl, ◌∙◌, Bool, true, false, ◌||◌, Option, none, some, ◌==◌, arith, inl, inr,
  Option-cases, Bool-cases,
}
use bert_mm_bot.Store.{World, Result, ok, VaultWithdrawal, is_processing, is_completed, is_queued}
use bert_mm_bot.Withdraw.Executor.{sent}
use bert_mm_bot.Withdraw.Frame.Table.{Rising, ids, row, sig_free}
use bert_mm_bot.Withdraw.Frame.{Spares, Sparse, payments, nobody, only}

module _ {F : Type 0} where
  -- In process or completed: /forceprocess and `drain` leave such a row alone.
  abbrev pub settled : Option (VaultWithdrawal F) → Bool
  settled none = false
  settled (some r) = is_processing r.status || is_completed r.status

  -- A withdrawal is unpaid and carries no signature, or was paid once and is settled.
  abbrev pub Once : ℕ → World F → Type 0
  Once j w =
      ((payments j w ≡ 0) × (sig_free (row j w.db) ≡ true))
      ⊎ ((payments j w ≡ 1) × (settled (row j w.db) ≡ true))

  pub record Inv (w : World F) : Type 0 where
    pub rising : Rising 0 (ids w.db.withdrawals) w.db.next_withdrawal
    pub sparse : Sparse w.faults
    pub once : (j : ℕ) → Once j w

  pub settled-keep :
      {own : ℕ → Bool} {v w : World F} (j : ℕ)
      → Spares own v w
      → own j ≡ false
      → settled (row j v.db) ≡ true
      → settled (row j w.db) ≡ true
  settled-keep {own} {v} {w} j s o h = elim (Option-cases (row j v.db)) [
    | inl n ↦ ground (arith, n)
    | inr (r, e) ↦ ground (arith, e, s.db.keeps j r o e)
  ]

  Once-keep :
      {own : ℕ → Bool} {v w : World F} (j : ℕ)
      → Spares own v w
      → own j ≡ false
      → Once j v
      → Once j w
  Once-keep j s o (inl (p, f)) = inl (s.paid j o ∙ p, s.db.unsigned j o f)
  Once-keep j s o (inr (p, h)) = inr (s.paid j o ∙ p, settled-keep j s o h)

  pub Inv-Spares : {v w : World F} → Spares nobody v w → Inv v → Inv w
  Inv-Spares s i = record {
    rising = s.db.rising i.rising;
    sparse = s.sparse i.sparse;
    once = λ j. Once-keep j s refl (i.once j);
  }

  -- An operation on one withdrawal has to answer for that one.
  pub Inv-only : {v w : World F} (id : ℕ) → Spares (only id) v w → Inv v → Once id w → Inv w
  Inv-only {v} {w} id s i o = record {
    rising = s.db.rising i.rising;
    sparse = s.sparse i.sparse;
    once = λ j. elim (Bool-cases (j == id)) [
      | inl same ↦ subst_at j same
      | inr other ↦ Once-keep j s other (i.once j)
    ];
  }
    where
      subst_at : (j : ℕ) → (j == id) ≡ true → Once j w
      subst_at j same = let e : j ≡ id = ground arith in rw e o

  -- A queued withdrawal has not been paid.
  pub queued_unpaid :
      (j : ℕ) (r : VaultWithdrawal F) (w : World F)
      → Inv w
      → row j w.db ≡ some r
      → is_queued r.status ≡ true
      → (payments j w ≡ 0) × (sig_free (row j w.db) ≡ true)
  queued_unpaid j r w i e q = elim (i.once j) [ inl h ↦ h | inr h ↦ absurd (ground (arith, h.1)) ]

  pub payments_le_one : (j : ℕ) (w : World F) → Inv w → payments j w ≤ 1
  payments_le_one j w i = ground (arith, i.once j)

  -- How `processOne` may end on a withdrawal: the invariant holds, the others are spared, and if an
  -- exception leaves, either nothing was paid or the row carries the signature that `drain` looks for.
  pub record After (id : ℕ) (w : World F) (x : Result (Unit {0}) × World F) : Type 0 where
    pub inv : Inv x.1
    pub spares : Spares (only id) w x.1
    pub safe :
        (x.0 ≡ ok tt)
        ⊎ (((payments id x.1 ≡ 0) × (sig_free (row id x.1.db) ≡ true))
            ⊎ (sent (row id x.1.db) ≡ true))
