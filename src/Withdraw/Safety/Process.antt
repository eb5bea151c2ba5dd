-- ===== src/Withdraw/Safety/Process.antt =====
-- `processOne` of src/vault/withdrawalExecutor.ts, step by step.
use bert_mm_bot.Prelude.{
  ℕ, String, ◌≡◌, refl, subst, sym, ◌∙◌, Bool, true, false, ◌||◌, [], ◌∷◌, Option, none, some, find,
  count-append, arith, if◌then◌else◌, inl, inr, Bool-cases, find-satisfies,
}
use bert_mm_bot.Prelude.Int.{ℤ, pos, ltb_ℤ}
use bert_mm_bot.Amounts.{Arith}
use bert_mm_bot.Store.{
  World, Action, Result, ok, err, VaultWithdrawal, Reason, Thrown, truthy, Payment, and_then,
  fail_withdrawal, message, oracle_unavailable, reserves_insufficient,
}
use bert_mm_bot.TxSubmitter.{Run}
use bert_mm_bot.Withdraw.Others.{run_others}
use bert_mm_bot.Withdraw.Executor.{
  Answers, Owed, Balances, Mid, landed, pay, after_pay, execute, close_for, cover, with_row,
  with_mid, is_processing_row, process_one, is_short, shortfall, spendable,
}
use bert_mm_bot.Withdraw.Frame.{
  Spares, DbSpares-refl, Spares-refl, Spares-trans, Spares-widen, payments, nobody, only, made_for,
  and_then-Spares,
}
use bert_mm_bot.Withdraw.Frame.Quiet.{write_audit-Quiet, run_others-Spares}
use bert_mm_bot.Withdraw.Safety.Invariant.{After, Inv, Inv-only, Inv-Spares}
use bert_mm_bot.Withdraw.Safety.Unpaid.{
  Held, Clear, Held-Clear, Held-Spares, Clear-Spares, Clear-After, After-trans,
  fail_withdrawal-Clear,
}
use bert_mm_bot.Withdraw.Safety.Paid.{record_transfer-After}

-- A submission that answers a signature landed once, and one that throws did not land.
pub record IsOnce (run : Run) : Type 0 where
  pub named : (sig : String) → run.answer ≡ ok sig → truthy (some sig) ≡ true
  pub lands : (sig : String) → run.answer ≡ ok sig → run.landings ≡ 1
  pub refused : (e : Thrown) → run.answer ≡ err e → run.landings ≡ 0

abbrev pub LandsOnce : {F : Type 0} → Answers F → Type 0
LandsOnce ans = IsOnce ans.transfer

module _ {F : Type 0} (id : ℕ) (r : VaultWithdrawal F) where
  -- A step that waits keeps the withdrawal held, and its exception ends the round with nothing paid.
  Held-then :
      {A : Type 0} (w : World F) (f : A → Action F (Unit {0})) (x : Result A × World F)
      → Spares nobody w x.1
      → Held id r w
      → ((a : A) (u : World F) → Held id r u → After id u (f a u))
      → After id w (and_then f x)
  unfolding and_then
  Held-then w f (ok a, u) s h step =
      After-trans id (Spares-widen (only id) s) (step a u (Held-Spares id s h))
  Held-then w f (err e, u) s h step =
      Clear-After id w (err e, u) (Spares-widen (only id) s) (Held-Clear id (Held-Spares id s h))

  fail-After :
      (reason : Reason) (at : ℕ) (w : World F)
      → Held id r w
      → After id w (fail_withdrawal id reason at w)
  fail-After reason at w h =
      let c = fail_withdrawal-Clear id reason at w (Held-Clear id h) in
      Clear-After id w (fail_withdrawal id reason at w) c.0 c.1

  Clear-then :
      {A : Type 0} (w : World F) (f : A → Action F (Unit {0})) (x : Result A × World F)
      → Spares (only id) w x.1 × Clear id x.1
      → ((a : A) (u : World F) → Spares nobody u (f a u).1)
      → After id w (and_then f x)
  unfolding and_then
  Clear-then w f (ok a, u) c quiet =
      Clear-After id w (f a u) (Spares-trans c.0 (Spares-widen (only id) (quiet a u)))
        (Clear-Spares id (quiet a u) c.1)
  Clear-then w f (err e, u) c quiet = Clear-After id w (err e, u) c.0 c.1

module _ {F : Type 0} ⦃num : Arith F⦄ where
  -- The transfer lands on a withdrawal that is held: it is paid once.
  landed_facts :
      (p : Payment) (r : VaultWithdrawal F) (w : World F)
      → Held p.withdrawal r w
      → Inv (landed p w)
        × Spares (only p.withdrawal) w (landed p w)
        × (payments p.withdrawal (landed p w) ≡ 1)
  landed_facts p r w h =
      (Inv-only id spares h.inv (inr (paid, rw h.at (ground (arith, h.doing)))), spares, paid)
    where
      id : ℕ
      id = p.withdrawal

      paid : payments id (landed p w) ≡ 1
      paid = count-append (made_for id) w.paid (p ∷ []) ∙ ground (arith, h.unpaid)

      spares : Spares (only id) w (landed p w)
      spares = record {
        db = DbSpares-refl (only id) w.db;
        paid = λ j o. count-append (made_for j) w.paid (p ∷ []) ∙ ground arith;
        sparse = λ s. s;
      }

  refused_transfer-After :
      (row' : VaultWithdrawal F) (owed : Owed F) (ans : Answers F) (r : VaultWithdrawal F)
      (w : World F) (e : Thrown)
      → Held row'.id r w
      → After row'.id w (
          after_pay row' owed ans.now
            (err e)
            (run_others ans.after_transfer (run_others ans.during_transfer w)))
  unfolding after_pay
  refused_transfer-After row' owed ans r w e h =
      let s =
        Spares-trans (run_others-Spares ans.during_transfer w)
          (run_others-Spares ans.after_transfer (run_others ans.during_transfer w)) in
      After-trans row'.id (Spares-widen (only row'.id) s) (
        Clear-then row'.id r _ _ _
          (fail_withdrawal-Clear row'.id (message e) ans.now _
            (Held-Clear row'.id (Held-Spares row'.id s h)))
          (λ _ u. write_audit-Quiet nobody ans.now _ _ u))

  landed_transfer-After :
      (row' : VaultWithdrawal F) (owed : Owed F) (ans : Answers F) (r : VaultWithdrawal F)
      (run : Run) (w : World F) (sig : String)
      → truthy (some sig) ≡ true
      → run.landings ≡ 1
      → Held row'.id r w
      → After row'.id w (after_pay row' owed ans.now (ok sig) (pay row' owed ans run w).1)
  unfolding after_pay
  landed_transfer-After row' owed ans r run w sig named once h = rw once (
      After-trans id
        (Spares-trans (Spares-widen (only id) s1)
          (Spares-trans facts.1 (Spares-widen (only id) s3)))
        (record_transfer-After row' owed ans.now sig w3 r (Inv-Spares s3 facts.0)
          (s3.db.keeps id r refl h1.at (ground (arith, h.doing))) h.unsigned
          (s3.paid id refl ∙ facts.2) (ground (arith, h.doing)) named))
    where
      id : ℕ
      id = row'.id

      w1 : World F
      w1 = run_others ans.during_transfer w

      s1 : Spares nobody w w1
      s1 = run_others-Spares ans.during_transfer w

      h1 : Held id r w1
      h1 = Held-Spares id s1 h

      p : Payment
      p = record {
        withdrawal = id;
        destination = row'.destination;
        sol_lamports = owed.need_sol;
        bert_raw = owed.need_bert;
      }

      facts :
          Inv (landed p w1) × Spares (only id) w1 (landed p w1) × (payments id (landed p w1) ≡ 1)
      facts = landed_facts p r w1 h1

      w3 : World F
      w3 = run_others ans.after_transfer (landed p w1)

      s3 : Spares nobody (landed p w1) w3
      s3 = run_others-Spares ans.after_transfer (landed p w1)

  execute-After :
      (row' : VaultWithdrawal F) (owed : Owed F) (ans : Answers F) (r : VaultWithdrawal F)
      (w : World F)
      → LandsOnce ans
      → Held row'.id r w
      → After row'.id w (execute row' owed ans w)
  unfolding execute and_then
  execute-After row' owed ans r w honest h = go ans.transfer.answer refl
    where
      go :
          (a : Result String)
          → ans.transfer.answer ≡ a
          → After row'.id w
              (and_then (after_pay row' owed ans.now) (ok a, (pay row' owed ans ans.transfer w).1))
      go (err e) threw = rw (honest.refused e threw) (refused_transfer-After row' owed ans r w e h)
      go (ok sig) returned =
          landed_transfer-After row' owed ans r ans.transfer w sig (honest.named sig returned)
            (honest.lands sig returned) h

  cover-Spares :
      (reserve : ℕ) (owed : Owed F) (bal : Balances) (ans : Answers F) (w : World F)
      → Spares nobody w (cover reserve owed bal ans w).1
  unfolding cover
  cover-Spares reserve owed bal ans w = elim (Bool-cases (is_short reserve owed bal)) [
    | inr enough ↦ rw enough (Spares-refl nobody w)
    | inl short ↦ rw short (
        and_then-Spares nobody w _ _
          (close_Spares (shortfall owed.need_sol (spendable reserve bal.sol_lamports))
            (shortfall owed.need_bert bal.bert_raw))
          λ _ u.
            and_then-Spares nobody u _ _ (run_others-Spares ans.during_balances_after_close u)
              λ bal2 v. Spares-refl nobody v)
  ]
    where
      close_Spares : (a b : ℤ) → Spares nobody w (close_for ans a b w).1
      close_Spares a b = elim (Bool-cases (ltb_ℤ (pos 0) a || ltb_ℤ (pos 0) b)) [
        | inl yes' ↦ rw yes' (run_others-Spares ans.during_close w)
        | inr no' ↦ rw no' (Spares-refl nobody w)
      ]

  with_row-After :
      (reserve : ℕ) (mid : Mid F) (ans : Answers F) (row' r : VaultWithdrawal F) (w : World F)
      → LandsOnce ans
      → Held row'.id r w
      → After row'.id w (with_row reserve mid ans (some row') w)
  with_row-After reserve mid ans row' r w named h =
      Held-then id r w _ _ (run_others-Spares ans.during_balances w) h λ bal u hu.
        Held-then id r u _ _ (run_others-Spares ans.during_position u) hu λ value v hv.
          Held-then id r v _ _ (Spares-refl nobody v) hv λ total v' hv'.
            Held-then id r v' _ _ (Spares-refl nobody v') hv' λ owed x hx.
              Held-then id r x _ _ (cover-Spares reserve owed bal ans x) hx
                λ covered y hy. last owed covered y hy
    where
      id : ℕ
      id = row'.id

      last :
          (owed : Owed F) (covered : Bool) (y : World F)
          → Held id r y
          → After id y (
              (if covered
                  then execute row' owed ans
                  else fail_withdrawal id reserves_insufficient ans.now)
                y)
      last owed true y hy = execute-After row' owed ans r y named hy
      last owed false y hy = fail-After id r reserves_insufficient ans.now y hy

  found_row-After :
      (reserve id : ℕ) (mid : Mid F) (ans : Answers F) (r : VaultWithdrawal F) (w : World F)
      → (o : Option (VaultWithdrawal F)) → find (is_processing_row id) w.db.withdrawals ≡ o
      → LandsOnce ans
      → Held id r w
      → After id w (with_row reserve mid ans o w)
  found_row-After reserve id mid ans r w none e named h =
      Clear-After id w (ok tt, w) (Spares-refl (only id) w) (Held-Clear id h)
  found_row-After reserve id mid ans r w (some row') e named h =
      subst (λ k. After k w (with_row reserve mid ans (some row') w)) same
        (with_row-After reserve mid ans row' r w named (subst (λ k. Held k r w) (sym same) h))
    where
      same : row'.id ≡ id
      same = ground (arith, find-satisfies (is_processing_row id) w.db.withdrawals row' e)

  with_mid-After :
      (reserve id : ℕ) (ans : Answers F) (o : Option (Mid F)) (r : VaultWithdrawal F) (w : World F)
      → LandsOnce ans
      → Held id r w
      → After id w (with_mid reserve id ans o w)
  unfolding and_then
  with_mid-After reserve id ans none r w named h = fail-After id r oracle_unavailable ans.now w h
  with_mid-After reserve id ans (some mid) r w named h =
      found_row-After reserve id mid ans r w (find (is_processing_row id) w.db.withdrawals) refl
        named h

  -- However its round ends, a withdrawal that was in process and unpaid is not paid twice.
  pub process_one-After :
      (reserve id : ℕ) (ans : Answers F) (r : VaultWithdrawal F) (w : World F)
      → LandsOnce ans
      → Held id r w
      → After id w (process_one reserve id ans w)
  unfolding process_one
  process_one-After reserve id ans r w named h =
      Held-then id r w _ _ (run_others-Spares ans.during_mid w) h
        λ mid u hu. with_mid-After reserve id ans mid r u named hu
