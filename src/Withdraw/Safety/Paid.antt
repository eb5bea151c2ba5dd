-- ===== src/Withdraw/Safety/Paid.antt =====
-- From the transfer on: what `markWithdrawalSent` and the bookkeeping of
-- src/vault/withdrawalExecutor.ts do to a withdrawal that was paid.
use bert_mm_bot.Prelude.{
  ℕ, String, ◌≡◌, ◌⊎◌, refl, ◌∙◌, Bool, true, false, Option, none, some, update, count, arith,
  if◌then◌else◌, inl, inr, Bool-cases, find-satisfies,
}
use bert_mm_bot.Prelude.Int.{ℤ}
use bert_mm_bot.Amounts.{Arith}
use bert_mm_bot.Store.{
  World, Result, ok, err, VaultWithdrawal, Thrown, sqlite, AuditEvent, has_id, is_null, truthy,
  unsent, fails, later, statement, recover, with_transaction, and_then, mark_withdrawal_sent,
  complete_row, complete_withdrawal, ◌>>◌, set_withdrawals, write_audit, pure,
}
use bert_mm_bot.Withdraw.Executor.{
  Owed, sent, report_desync, mark_sent, settle_books, keep_books, record_transfer,
}
use bert_mm_bot.Withdraw.Frame.Table.{row, count-unsent, row-update}
use bert_mm_bot.Withdraw.Frame.{payments, nobody, later-Sparse, Sparse-recovers, update_DbSpares}
use bert_mm_bot.Withdraw.Frame.Quiet.{
  write_audit-Quiet, insert_nav_snapshot-Quiet, add_shares-Quiet,
}
use bert_mm_bot.Withdraw.Safety.Books.{
  Books, Books-refl, Books-trans, Spares-Books, and_then-Books, settle-Books, recover-Books,
  faulted_Books, update-Books,
}
use bert_mm_bot.Withdraw.Safety.Invariant.{settled, After, Inv, Inv-only}

module _ {F : Type 0} ⦃num : Arith F⦄ (id : ℕ) where
  complete_row-Books :
      (sig : String) (sol bert : ℤ) (nav : F) (now : ℕ) (o : Option (VaultWithdrawal F))
      (w : World F)
      → truthy (some sig) ≡ true
      → Books id w (complete_row id sig sol bert nav now o w).1
  complete_row-Books sig sol bert nav now none w named = Books-refl id w
  complete_row-Books sig sol bert nav now (some r) w named =
      and_then-Books id w _ _ (update-Books id _ w (λ x. refl) (λ x h. refl) (λ x h. named))
        λ _ u. Spares-Books id (add_shares-Quiet nobody r.telegram_id (num.neg r.shares_burned) u)

  complete_withdrawal-Books :
      (sig : String) (sol bert : ℤ) (nav : F) (now : ℕ) (w : World F)
      → truthy (some sig) ≡ true
      → Books id w (complete_withdrawal id sig sol bert nav now w).1
  unfolding complete_withdrawal with_transaction
  complete_withdrawal-Books sig sol bert nav now w named = settle-Books id w _ (
      and_then-Books id w _ _ (Books-refl id w)
        λ o u. complete_row-Books sig sol bert nav now o u named)

module _ {F : Type 0} where
  -- How `markWithdrawalSent` ends, if the database lets it.
  abbrev marked_world : ℕ → String → World F → World F
  marked_world id sig w = record w {
    db = set_withdrawals (update (unsent id) (λ r. record r { tx_sig = some sig })) w.db;
    faults = later w.faults;
  }

  mark-eq-ok :
      (id : ℕ) (sig : String) (w : World F)
      → fails w.faults ≡ false
      → count (unsent id) w.db.withdrawals ≡ 1
      → mark_withdrawal_sent id sig w ≡ (ok tt, marked_world id sig w)
  unfolding mark_withdrawal_sent statement and_then
  mark-eq-ok id sig w e n = rw (e, n) refl

  mark-eq-err :
      (id : ℕ) (sig : String) (w : World F)
      → fails w.faults ≡ true
      → mark_withdrawal_sent id sig w ≡ (err sqlite, record w { faults = later w.faults })
  unfolding mark_withdrawal_sent statement and_then
  mark-eq-err id sig w e = rw e refl

  audit-eq-ok :
      (now : ℕ) (user : Option ℕ) (e : AuditEvent F) (w : World F)
      → fails w.faults ≡ false
      → (write_audit now user e w).0 ≡ ok tt
  unfolding write_audit statement
  audit-eq-ok now user e w h = rw h refl

  marked-row :
      (id : ℕ) (sig : String) (w : World F) (r : VaultWithdrawal F)
      → row id w.db ≡ some r
      → is_null r.tx_sig ≡ true
      → row id (marked_world id sig w).db ≡ some (record r { tx_sig = some sig })
  marked-row id sig w r e n =
      row-update id (unsent id) _ (λ x. refl) w.db r e
      ∙ rw (find-satisfies (has_id id) w.db.withdrawals r e, n) refl

  marked_Books :
      (id : ℕ) (sig : String) (w : World F) (r : VaultWithdrawal F)
      → row id w.db ≡ some r
      → is_null r.tx_sig ≡ true
      → truthy (some sig) ≡ true
      → Books id w (marked_world id sig w)
  marked_Books id sig w r e n named = record {
    spares = record {
      db = update_DbSpares id (unsent id) _ w.db (λ x. refl) (λ x h. ground arith);
      paid = λ j o. refl;
      sparse = later-Sparse w.faults;
    };
    paid = refl;
    settles = λ h. rw (marked-row id sig w r e n) (rw e at h);
    sends = λ h k. rw (marked-row id sig w r e n) named;
  }

  report_Books :
      (id : ℕ) (row' : VaultWithdrawal F) (now : ℕ) (sig : String) (e : Thrown) (w : World F)
      → Books id w ((report_desync row' now sig e >> pure false) w).1
  report_Books id row' now sig e w =
      and_then-Books id w _ _ (Spares-Books id (write_audit-Quiet nobody now _ _ w))
        λ _ u. Books-refl id u

  then_false :
      (x : Result (Unit {0}) × World F) → x.0 ≡ ok tt → (and_then (λ _. pure false) x).0 ≡ ok false
  unfolding and_then
  then_false (ok tt, w) h = refl
  then_false (err e, w) h = cc

  report-eq :
      (row' : VaultWithdrawal F) (now : ℕ) (sig : String) (e : Thrown) (w : World F)
      → fails w.faults ≡ false
      → ((report_desync row' now sig e >> pure false) w).0 ≡ ok false
  report-eq row' now sig e w h = then_false _ (audit-eq-ok now _ _ w h)

  -- After a transfer the signature is on record, or the attempt to put it there is on record.
  mark_sent_ends :
      (row' : VaultWithdrawal F) (now : ℕ) (sig : String) (w : World F) (r : VaultWithdrawal F)
      → Inv w
      → row row'.id w.db ≡ some r
      → is_null r.tx_sig ≡ true
      → truthy (some sig) ≡ true
      → let x = mark_sent row' now sig w in
        Books row'.id w x.1
        × ((x.0 ≡ ok false) ⊎ ((x.0 ≡ ok true) × (sent (row row'.id x.1.db) ≡ true)))
  unfolding mark_sent and_then recover
  mark_sent_ends row' now sig w r i e n named = elim (Bool-cases (fails w.faults)) [
    | inr fine ↦
        rw
          (mark-eq-ok row'.id sig w fine (count-unsent 0 _ row'.id r w.db.withdrawals i.rising e n))
          (
            marked_Books row'.id sig w r e n named,
            inr (refl, rw (marked-row row'.id sig w r e n) named),
          )
    | inl bad ↦ rw (mark-eq-err row'.id sig w bad) (
      Books-trans row'.id (faulted_Books row'.id w) (report_Books row'.id row' now sig sqlite _),
      inl (report-eq row' now sig sqlite _ (Sparse-recovers w.faults i.sparse bad)),
    )
  ]

-- Every way in which the bookkeeping of a paid withdrawal can end.
module _ {F : Type 0} ⦃num : Arith F⦄ (row' : VaultWithdrawal F) (owed : Owed F) (now : ℕ)
    (sig : String) where
  settle_books-Books :
      (w : World F)
      → truthy (some sig) ≡ true
      → Books row'.id w (settle_books row' owed sig now w).1
  unfolding settle_books with_transaction
  settle_books-Books w named = and_then-Books id w _ _ (Books-refl id w) λ before u.
      settle-Books id u _ (
        and_then-Books id u _ _
          (complete_withdrawal-Books id sig owed.need_sol owed.need_bert owed.nav_per_share now u
            named)
          λ _ v. and_then-Books id v _ _ (Books-refl id v) λ after v'.
            and_then-Books id v' _ _ (Spares-Books id (insert_nav_snapshot-Quiet nobody _ v'))
              λ _ v''. Spares-Books id (write_audit-Quiet nobody now _ _ v''))
    where
      id : ℕ
      id = row'.id

  keep_books-Books :
      (w : World F) → truthy (some sig) ≡ true → Books row'.id w (keep_books row' owed now sig w).1
  unfolding keep_books
  keep_books-Books w named = recover-Books row'.id w _ _ (settle_books-Books w named) λ e u.
      and_then-Books row'.id u _ _ (Spares-Books row'.id (write_audit-Quiet nobody now _ _ u))
        λ _ v. Books-refl row'.id v

  Books-After :
      (w : World F) (x : Result (Unit {0}) × World F)
      → Inv w
      → payments row'.id w ≡ 1
      → settled (row row'.id w.db) ≡ true
      → Books row'.id w x.1
      → ((x.0 ≡ ok tt) ⊎ (sent (row row'.id x.1.db) ≡ true))
      → After row'.id w x
  Books-After w x i p s b how = record {
    inv = Inv-only row'.id b.spares i (inr (b.paid ∙ p, b.settles s));
    spares = b.spares;
    safe = elim how [ inl h ↦ inl h | inr h ↦ inr (inr h) ];
  }

  -- Once the transfer has landed the invariant is kept, and the row is signed if an exception leaves.
  pub record_transfer-After :
      (w : World F) (r : VaultWithdrawal F)
      → Inv w
      → row row'.id w.db ≡ some r
      → is_null r.tx_sig ≡ true
      → payments row'.id w ≡ 1
      → settled (some r) ≡ true
      → truthy (some sig) ≡ true
      → After row'.id w (record_transfer row' owed now sig w)
  unfolding record_transfer and_then
  record_transfer-After w r i e n p s named =
      go (mark_sent row' now sig w) (mark_sent_ends row' now sig w r i e n named)
    where
      here : settled (row row'.id w.db) ≡ true
      here = rw e s

      go :
          (x : Result Bool × World F)
          → Books row'.id w x.1
            × ((x.0 ≡ ok false) ⊎ ((x.0 ≡ ok true) × (sent (row row'.id x.1.db) ≡ true)))
          → After row'.id w
              (and_then (λ marked. if marked then keep_books row' owed now sig else pure tt) x)
      go (err t, u) h = absurd (ground (arith, h.1))
      go (ok false, u) h = Books-After w (ok tt, u) i p here h.0 (inl refl)
      go (ok true, u) h =
          Books-After w (keep_books row' owed now sig u) i p here
            (Books-trans row'.id h.0 (keep_books-Books u named))
            (inr ((keep_books-Books u named).sends (h.0.settles here) (signed h.1)))
        where
          signed :
              (ok true ≡ ok false) ⊎ ((ok true ≡ ok true) × (sent (row row'.id u.db) ≡ true))
              → sent (row row'.id u.db) ≡ true
          signed (inl k) = cc
          signed (inr k) = k.1
