-- ===== src/Withdraw/Safety/Books.antt =====
-- Work on the books of a withdrawal that was paid (src/vault/withdrawalExecutor.ts), as a relation
-- between the world before and after, with a rule for each way in which the code composes it.
use bert_mm_bot.Prelude.{
  ℕ, ◌≡◌, refl, ◌∙◌, ==_iff, true, Option, some, find, update, arith, inl, inr, Option-cases,
  Bool-cases, find-satisfies,
}
use bert_mm_bot.Store.{
  World, Db, Action, Result, ok, err, VaultWithdrawal, Thrown, has_id, fails, later, statement,
  settle, recover, and_then, exec, set_withdrawals,
}
use bert_mm_bot.Withdraw.Executor.{sent}
use bert_mm_bot.Withdraw.Frame.Table.{row, row-update, row-update-none}
use bert_mm_bot.Withdraw.Frame.{
  Spares, DbSpares, Spares-refl, Spares-trans, Spares-widen, payments, nobody, only, later-Sparse,
  settle-Spares, update_DbSpares,
}
use bert_mm_bot.Withdraw.Safety.Invariant.{settled, settled-keep}

module _ {F : Type 0} (id : ℕ) where
  -- Work on the books of a withdrawal that is settled: it stays settled, it keeps its signature, no
  -- one is paid, and every other withdrawal is spared.
  pub record Books (w w' : World F) : Type 0 where
    pub spares : Spares (only id) w w'
    pub paid : payments id w' ≡ payments id w
    pub settles : settled (row id w.db) ≡ true → settled (row id w'.db) ≡ true
    pub sends :
        settled (row id w.db) ≡ true → sent (row id w.db) ≡ true → sent (row id w'.db) ≡ true

  pub Books-refl : (w : World F) → Books w w
  Books-refl w = record {
    spares = Spares-refl (only id) w;
    paid = refl;
    settles = λ h. h;
    sends = λ h k. k;
  }

  pub Books-trans : {u v w : World F} → Books u v → Books v w → Books u w
  Books-trans a b = record {
    spares = Spares-trans a.spares b.spares;
    paid = b.paid ∙ a.paid;
    settles = λ h. b.settles (a.settles h);
    sends = λ h k. b.sends (a.settles h) (a.sends h k);
  }

  pub Spares-Books : {v w : World F} → Spares nobody v w → Books v w
  Spares-Books {v} {w} s = record {
    spares = Spares-widen (only id) s;
    paid = s.paid id refl;
    settles = settled-keep id s refl;
    sends = sends;
  }
    where
      sends : settled (row id v.db) ≡ true → sent (row id v.db) ≡ true → sent (row id w.db) ≡ true
      sends h k = elim (Option-cases (row id v.db)) [
        | inl n ↦ ground (arith, n)
        | inr (r, e) ↦ ground (arith, e, s.db.keeps id r refl e)
      ]

  pub and_then-Books :
      {A B : Type 0} (w : World F) (f : A → Action F B) (x : Result A × World F)
      → Books w x.1
      → ((a : A) (u : World F) → Books u (f a u).1)
      → Books w (and_then f x).1
  unfolding and_then
  and_then-Books w f (ok a, w') s hf = Books-trans s (hf a w')
  and_then-Books w f (err e, w') s hf = s

  pub settle-Books :
      {A : Type 0} (w : World F) (x : Result A × World F) → Books w x.1 → Books w (settle w.db x).1
  unfolding settle
  settle-Books {A} w (err e, w') b = record {
    spares = settle-Spares {A = A} (only id) w (err e, w') b.spares;
    paid = b.paid;
    settles = λ h. h;
    sends = λ h k. k;
  }
  settle-Books w (ok a, w') b = elim (Bool-cases (fails w'.faults)) [
    | inl e ↦ rw e (record {
      spares = rw e at (settle-Spares (only id) w (ok a, w') b.spares);
      paid = b.paid;
      settles = λ h. h;
      sends = λ h k. k;
    })
    | inr e ↦ rw e (record {
      spares = rw e at (settle-Spares (only id) w (ok a, w') b.spares);
      paid = b.paid;
      settles = b.settles;
      sends = b.sends;
    })
  ]

  pub recover-Books :
      {A : Type 0} (w : World F) (f : Thrown → Action F A) (x : Result A × World F)
      → Books w x.1
      → ((e : Thrown) (u : World F) → Books u (f e u).1)
      → Books w (recover f x).1
  unfolding recover
  recover-Books w f (ok a, w') s hf = s
  recover-Books w f (err e, w') s hf = Books-trans s (hf e w')

  pub faulted_Books : (w : World F) → Books w (record w { faults = later w.faults })
  faulted_Books w = record {
    spares = record {
      db = (Spares-refl (only id) w).db;
      paid = λ j o. refl;
      sparse = later-Sparse w.faults;
    };
    paid = refl;
    settles = λ h. h;
    sends = λ h k. k;
  }

  statement-Books :
      {A : Type 0} (refused : Db F → Option Thrown) (answer : Db F → A) (f : Db F → Db F)
      (w : World F)
      → DbSpares (only id) w.db (f w.db)
      → (settled (row id w.db) ≡ true → settled (row id (f w.db)) ≡ true)
      → (settled (row id w.db) ≡ true → sent (row id w.db) ≡ true → sent (row id (f w.db)) ≡ true)
      → Books w (statement refused answer f w).1
  unfolding statement
  statement-Books refused answer f w d t s = elim (Bool-cases (fails w.faults)) [
    | inl e ↦ rw e (faulted_Books w)
    | inr e ↦ elim (Option-cases (refused w.db)) [
      | inl n ↦
          rw (e, n)
            (record {
              spares = record { db = d; paid = λ j o. refl; sparse = later-Sparse w.faults };
              paid = refl;
              settles = t;
              sends = s;
            })
      | inr (x, k) ↦ rw (e, k) (faulted_Books w)
    ]
  ]

  -- An update of the row itself.
  pub update-Books :
      (f : VaultWithdrawal F → VaultWithdrawal F) (w : World F)
      → ((r : VaultWithdrawal F) → (f r).id ≡ r.id)
      → ((r : VaultWithdrawal F) → settled (some r) ≡ true → settled (some (f r)) ≡ true)
      → ((r : VaultWithdrawal F) → sent (some r) ≡ true → sent (some (f r)) ≡ true)
      → Books w (exec (set_withdrawals (update (has_id id) f)) w).1
  update-Books f w keep t s =
      statement-Books _ _ _ w
        (update_DbSpares id (has_id id) f w.db keep λ r h. (==_iff r.id id).0 h)
        (λ h. on_row (λ o. settled o ≡ true) (λ r k. t r k) h)
        (λ _ h. on_row (λ o. sent o ≡ true) (λ r k. s r k) h)
    where
      on_row :
          (P : Option (VaultWithdrawal F) → Type 0)
          → ((r : VaultWithdrawal F) → P (some r) → P (some (f r)))
          → P (row id w.db)
          → P (find (has_id id) (update (has_id id) f w.db.withdrawals))
      on_row P step h = elim (Option-cases (row id w.db)) [
        | inl n ↦ rw (row-update-none id (has_id id) f keep w.db n) (rw n at h)
        | inr (r, e) ↦
            rw
              (
                row-update id (has_id id) f keep w.db r e,
                find-satisfies (has_id id) w.db.withdrawals r e,
              )
              (step r (rw e at h))
      ]
