-- ===== src/Withdraw/Frame/Quiet.antt =====
-- Operations of src/vault/depositorStore.ts that spare every withdrawal which has not failed: those
-- on the other tables, a new withdrawal, a requeued one, and with them the bot's other tasks.
use bert_mm_bot.Prelude.{
  ℕ, suc, String, ◌≡◌, refl, ◌∙◌, Bool, true, false, List, [], ◌∷◌, ◌++◌, Option, none, some, ◌==◌,
  ap, find, find-append, update, arith, inl, inr, Option-cases, Bool-cases, find-update,
  find-satisfies,
}
use bert_mm_bot.Amounts.{Arith}
use bert_mm_bot.Store.{
  World, Db, VaultWithdrawal, VaultDeposit, AuditEvent, NavSnapshotRow, has_id, is_null, is_failed,
  and_then, truthy, owns, write_audit, insert_nav_snapshot, write_shares, add_shares,
  credit_deposit, enqueue_withdrawal, requeue_row, requeue_failed_withdrawal,
}
use bert_mm_bot.Withdraw.Others.{
  Other, enqueue, force_process, credit, run_other, run_others, force_process_row,
  handle_force_process,
}
use bert_mm_bot.Withdraw.Frame.Table.{ids, row, sig_free, ids-append, ids-update, Rising-append}
use bert_mm_bot.Withdraw.Frame.{
  Spares, DbSpares, Spares-refl, Spares-trans, Quiet, nobody, statement-Spares, transaction_Spares,
  frame_DbSpares, and_then-Spares,
}

module _ {F : Type 0} (own : ℕ → Bool) where
  pub write_audit-Quiet :
      (ts : ℕ) (id : Option ℕ) (e : AuditEvent F) → Quiet own (write_audit ts id e)
  unfolding write_audit
  write_audit-Quiet ts id e w = statement-Spares own _ _ _ w (frame_DbSpares own w.db _ refl refl)

  pub insert_nav_snapshot-Quiet : (r : NavSnapshotRow F) → Quiet own (insert_nav_snapshot r)
  unfolding insert_nav_snapshot
  insert_nav_snapshot-Quiet r w = statement-Spares own _ _ _ w (frame_DbSpares own w.db _ refl refl)

module _ {F : Type 0} ⦃num : Arith F⦄ (own : ℕ → Bool) where
  pub write_shares-Quiet :
      (id : ℕ) (delta : F) (o : Option (ℕ × F)) → Quiet own (write_shares id delta o)
  write_shares-Quiet id delta none w =
      statement-Spares own _ _ _ w (frame_DbSpares own w.db _ refl refl)
  write_shares-Quiet id delta (some r) w =
      statement-Spares own _ _ _ w (frame_DbSpares own w.db _ refl refl)

  pub add_shares-Quiet : (id : ℕ) (delta : F) → Quiet own (add_shares id delta)
  unfolding add_shares and_then
  add_shares-Quiet id delta w = write_shares-Quiet id delta (find (owns id) w.db.shares) w

  pub credit_deposit-Quiet : (r : VaultDeposit F) → Quiet own (credit_deposit r)
  unfolding credit_deposit
  credit_deposit-Quiet r w = transaction_Spares own _ w (
      and_then-Spares own w _ _ (statement-Spares own _ _ _ w (frame_DbSpares own w.db _ refl refl))
        λ id u.
          and_then-Spares own u _ _ (add_shares-Quiet r.telegram_id r.shares_minted u)
            λ _ v. Spares-refl own v)

module _ {F : Type 0} where
  append_DbSpares :
      (r : VaultWithdrawal F) (d : Db F)
      → r.id ≡ d.next_withdrawal
      → is_null r.tx_sig ≡ true
      → DbSpares nobody d (record d {
        withdrawals = d.withdrawals ++ r ∷ [];
        next_withdrawal = suc d.next_withdrawal;
      })
  append_DbSpares r d e n = record {
    keeps = λ j x _ f _. find-append (has_id j) d.withdrawals (r ∷ []) ∙ rw f;
    unsigned = λ j _ h. ground (arith, find-append (has_id j) d.withdrawals (r ∷ []));
    rising = λ h.
        rw (ids-append d.withdrawals (r ∷ []), e)
          (Rising-append 0 (ids d.withdrawals) d.next_withdrawal h);
  }

  pub enqueue_withdrawal-Quiet :
      (user : ℕ) (destination : String) (burned fee : F) (at : ℕ)
      → Quiet nobody (enqueue_withdrawal user destination burned fee at)
  unfolding enqueue_withdrawal
  enqueue_withdrawal-Quiet user destination burned fee at w =
      statement-Spares nobody _ _ _ w (append_DbSpares _ w.db refl refl)

  -- A requeued withdrawal has failed, so every withdrawal that has not keeps its row.
  requeue_DbSpares :
      (id : ℕ) (r : VaultWithdrawal F) (f : VaultWithdrawal F → VaultWithdrawal F) (d : Db F)
      → row id d ≡ some r
      → is_failed r.status ≡ true
      → ((x : VaultWithdrawal F) → (f x).id ≡ x.id)
      → ((x : VaultWithdrawal F) → (f x).tx_sig ≡ x.tx_sig)
      → DbSpares nobody d (record d { withdrawals = update (has_id id) f d.withdrawals })
  requeue_DbSpares id r f d at bad keep sig = record {
    keeps = keeps;
    unsigned = unsigned;
    rising = λ h. rw (ids-update (has_id id) f keep d.withdrawals) h;
  }
    where
      unsigned :
          (j : ℕ)
          → nobody j ≡ false
          → sig_free (row j d) ≡ true
          → sig_free (find (has_id j) (update (has_id id) f d.withdrawals)) ≡ true
      unsigned j o h = elim (Option-cases (row j d)) [
        | inl n ↦ ground (
          arith,
          find-update (has_id j) (has_id id) f (λ y. ap (λ (i : ℕ). i == j) (keep y)) d.withdrawals,
        )
        | inr (x, e) ↦ ground (
          arith,
          find-update (has_id j) (has_id id) f (λ y. ap (λ (i : ℕ). i == j) (keep y)) d.withdrawals,
          sig x,
        )
      ]

      keeps :
          (j : ℕ) (x : VaultWithdrawal F)
          → nobody j ≡ false
          → row j d ≡ some x
          → is_failed x.status ≡ false
          → find (has_id j) (update (has_id id) f d.withdrawals) ≡ some x
      keeps j x o e good = ground (
        arith,
        find-update (has_id j) (has_id id) f (λ y. ap (λ (i : ℕ). i == j) (keep y)) d.withdrawals,
        find-satisfies (has_id j) d.withdrawals x e,
        find-satisfies (has_id id) d.withdrawals r at,
      )

  requeue_row-Quiet :
      (id : ℕ) (o : Option (VaultWithdrawal F)) (w : World F)
      → row id w.db ≡ o
      → Spares nobody w (requeue_row id o w).1
  requeue_row-Quiet id none w e = Spares-refl nobody w
  requeue_row-Quiet id (some r) w e = elim (Bool-cases (is_failed r.status)) [
    | inr good ↦ rw good (Spares-refl nobody w)
    | inl bad ↦ elim (Bool-cases (truthy r.tx_sig)) [
      | inl sent ↦ rw (bad, sent) (Spares-refl nobody w)
      | inr fresh ↦
          rw (bad, fresh)
            (statement-Spares nobody _ _ _ w
              (requeue_DbSpares id r _ w.db e bad (λ x. refl) (λ x. refl)))
    ]
  ]

  pub requeue_failed_withdrawal-Quiet :
      (id : ℕ) → Quiet {F = F} nobody (requeue_failed_withdrawal id)
  unfolding requeue_failed_withdrawal and_then
  requeue_failed_withdrawal-Quiet id w = requeue_row-Quiet id (row id w.db) w refl

  force_process_row-Quiet :
      (id operator now : ℕ) (o : Option (VaultWithdrawal F))
      → Quiet nobody (force_process_row id operator now o)
  force_process_row-Quiet id operator now none w = Spares-refl nobody w
  force_process_row-Quiet id operator now (some r) w = elim (Bool-cases (truthy r.tx_sig)) [
    | inl sent ↦ rw sent (Spares-refl nobody w)
    | inr fresh ↦ elim (Bool-cases (is_failed r.status)) [
      | inr good ↦ rw (fresh, good) (Spares-refl nobody w)
      | inl bad ↦
          rw (fresh, bad)
            (and_then-Spares nobody w _ _ (requeue_failed_withdrawal-Quiet id w) λ _ u.
              and_then-Spares nobody u _ _ (write_audit-Quiet nobody now (some operator) _ u)
                λ _ v. Spares-refl nobody v)
    ]
  ]

  pub handle_force_process-Quiet :
      (id operator now : ℕ) → Quiet {F = F} nobody (handle_force_process id operator now)
  unfolding handle_force_process and_then
  handle_force_process-Quiet id operator now w =
      force_process_row-Quiet id operator now (row id w.db) w

module _ {F : Type 0} ⦃num : Arith F⦄ where
  pub run_other-Spares : (o : Other F) (w : World F) → Spares nobody w (run_other o w)
  run_other-Spares (enqueue user destination burned fee at) w =
      enqueue_withdrawal-Quiet user destination burned fee at w
  run_other-Spares (force_process id operator now) w = handle_force_process-Quiet id operator now w
  run_other-Spares (credit r) w = credit_deposit-Quiet nobody r w

  -- Whatever the other tasks do meanwhile, a withdrawal that is queued, in process or completed
  -- keeps its row, and nothing is paid.
  pub run_others-Spares : (os : List (Other F)) (w : World F) → Spares nobody w (run_others os w)
  unfolding run_others
  run_others-Spares [] w = Spares-refl nobody w
  run_others-Spares (o ∷ os) w =
      Spares-trans (run_other-Spares o w) (run_others-Spares os (run_other o w))
