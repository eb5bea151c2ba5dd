-- ===== src/Withdraw/Safety/Histories.antt =====
-- `drain` of src/vault/withdrawalExecutor.ts, and histories of drains between which the bot's other
-- tasks run: no withdrawal is paid twice.
use bert_mm_bot.Prelude.{
  ℕ, suc, ◌≤◌, ◌≡◌, true, List, [], ◌∷◌, some, find, select, arith, inl, inr, Bool-cases,
}
use bert_mm_bot.Amounts.{Arith}
use bert_mm_bot.Store.{
  World, Db, Result, ok, err, VaultWithdrawal, has_id, is_queued, and_then,
  list_withdrawals_by_status,
}
use bert_mm_bot.Withdraw.Others.{Other, run_other}
use bert_mm_bot.Withdraw.Executor.{Answers, drain_one, answered, drain_rows, drain}
use bert_mm_bot.Withdraw.Frame.Table.{Rising, ids, row, find-below}
use bert_mm_bot.Withdraw.Frame.{Spares, payments, only}
use bert_mm_bot.Withdraw.Frame.Quiet.{run_other-Spares}
use bert_mm_bot.Withdraw.Safety.Invariant.{Inv, Inv-Spares, payments_le_one}
use bert_mm_bot.Withdraw.Safety.Process.{LandsOnce}
use bert_mm_bot.Withdraw.Safety.Rounds.{Kept, drain_one-Kept}

module _ {F : Type 0} where
  -- Rows that are queued in the table, in the order of their ids.
  abbrev Waiting : Db F → ℕ → List (VaultWithdrawal F × Answers F) → Type 0
  Waiting d lo [] = Unit {0}
  Waiting d lo ((r, ans) ∷ xs) =
      (lo ≤ r.id)
      × (row r.id d ≡ some r)
      × (is_queued r.status ≡ true)
      × LandsOnce ans
      × Waiting d (suc r.id) xs

  Waiting-Spares :
      {w w' : World F} (id lo : ℕ) (xs : List (VaultWithdrawal F × Answers F))
      → Spares (only id) w w'
      → suc id ≤ lo
      → Waiting w.db lo xs
      → Waiting w'.db lo xs
  Waiting-Spares id lo [] s l h = tt
  Waiting-Spares {w} {w'} id lo ((r, ans) ∷ xs) s l h = (
    h.0,
    s.db.keeps r.id r (ground (arith, h.0)) h.1 (ground (arith, h.2)),
    h.2,
    h.3,
    Waiting-Spares id (suc r.id) xs s (omega (arith, h.0)) h.4,
  )

  Waiting-lower :
      (d : Db F) (lo hi : ℕ) (xs : List (VaultWithdrawal F × Answers F))
      → lo ≤ hi
      → Waiting d hi xs
      → Waiting d lo xs
  Waiting-lower d lo hi [] l h = tt
  Waiting-lower d lo hi (x ∷ xs) l h = (omega (arith, h.0), h.1, h.2, h.3, h.4)

  select-Waiting :
      (env : ℕ → Answers F) (d : Db F) (lo hi : ℕ) (rs : List (VaultWithdrawal F))
      → ((id : ℕ) → LandsOnce (env id))
      → Rising lo (ids rs) hi
      → ((j : ℕ) (r : VaultWithdrawal F) → find (has_id j) rs ≡ some r → row j d ≡ some r)
      → Waiting d lo (answered env (select (λ r. is_queued r.status) rs))
  select-Waiting env d lo hi [] named rise sub = tt
  select-Waiting env d lo hi (r ∷ rs) named rise sub =
      let rest =
        select-Waiting env d (suc r.id) hi rs named rise.1
          (λ j x e. sub j x (ground (arith, find-below (suc r.id) hi j rs rise.1))) in
      elim (Bool-cases (is_queued r.status)) [
        | inl q ↦ rw q (rise.0, sub r.id r (ground arith), q, named r.id, rest)
        | inr q ↦ rw q (Waiting-lower d lo (suc r.id) _ (omega (arith, rise.0)) rest)
      ]

module _ {F : Type 0} ⦃num : Arith F⦄ (reserve : ℕ) where
  drain_rows-Inv :
      (lo : ℕ) (xs : List (VaultWithdrawal F × Answers F)) (w : World F)
      → Inv w
      → Waiting w.db lo xs
      → Inv (drain_rows reserve xs w).1
  unfolding drain_rows and_then
  drain_rows-Inv lo [] w i h = i
  drain_rows-Inv lo ((r, ans) ∷ xs) w i h =
      go (drain_one reserve (r, ans) w) (drain_one-Kept reserve r ans w h.3 i h.1 h.2)
        (λ u iu hu. drain_rows-Inv (suc r.id) xs u iu hu)
    where
      go :
          (x : Result (Unit {0}) × World F)
          → Kept r.id w x.1
          → ((u : World F) → Inv u → Waiting u.db (suc r.id) xs → Inv (drain_rows reserve xs u).1)
          → Inv (and_then (λ _. drain_rows reserve xs) x).1
      go (err e, u) k ih = k.inv
      go (ok t, u) k ih = ih u k.inv (Waiting-Spares r.id (suc r.id) xs k.spares (omega arith) h.4)

  -- Draining the queue keeps the invariant that a withdrawal is unpaid and unsigned, or was paid once
  -- and is settled: whatever the bot's other tasks do meanwhile, and whichever writing statements fail, if no two in a
  -- row do, a transfer that answers a signature landed once, and one that throws did not land.
  pub drain-Inv :
      (env : ℕ → Answers F) (w : World F)
      → ((id : ℕ) → LandsOnce (env id))
      → Inv w
      → Inv (drain reserve env w).1
  unfolding drain list_withdrawals_by_status and_then
  drain-Inv env w named i =
      drain_rows-Inv 0 _ w i (
        select-Waiting env w.db 0 w.db.next_withdrawal w.db.withdrawals named i.rising (λ j r e. e))

-- What the bot does to the withdrawals over time.
pub data Event (F : Type 0) : Type 0 where
  other : Other F → Event F
  drains : (reserve : ℕ) → (ℕ → Answers F) → Event F

module _ {F : Type 0} ⦃num : Arith F⦄ where
  abbrev pub LandsOnceEvent : Event F → Type 0
  LandsOnceEvent (other o) = Unit {0}
  LandsOnceEvent (drains reserve env) = (id : ℕ) → LandsOnce (env id)

  abbrev pub happen : Event F → World F → World F
  happen (other o) w = run_other o w
  happen (drains reserve env) w = (drain reserve env w).1

  abbrev pub LandsOnceEvents : List (Event F) → Type 0
  LandsOnceEvents [] = Unit {0}
  LandsOnceEvents (e ∷ es) = LandsOnceEvent e × LandsOnceEvents es

  unfoldable pub history : List (Event F) → World F → World F
  history [] w = w
  history (e ∷ es) w = history es (happen e w)

  happen-Inv : (e : Event F) (w : World F) → LandsOnceEvent e → Inv w → Inv (happen e w)
  happen-Inv (other o) w n i = Inv-Spares (run_other-Spares o w) i
  happen-Inv (drains reserve env) w n i = drain-Inv reserve env w n i

  pub history-Inv :
      (es : List (Event F)) (w : World F) → LandsOnceEvents es → Inv w → Inv (history es w)
  unfolding history
  history-Inv [] w n i = i
  history-Inv (e ∷ es) w n i = history-Inv es (happen e w) n.1 (happen-Inv e w n.0 i)

  -- Over any history of drains, requests, /forceprocess and credits that starts with the invariant,
  -- part of which is that no two writing statements in a row fail, and in which every transfer that
  -- answers a signature landed once and every transfer that throws did not land, a withdrawal is paid at most
  -- once.
  pub history_pays_once :
      (es : List (Event F)) (w : World F) (id : ℕ)
      → LandsOnceEvents es
      → Inv w
      → payments id (history es w) ≤ 1
  history_pays_once es w id n i = payments_le_one id (history es w) (history-Inv es w n i)
