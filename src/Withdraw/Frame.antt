-- ===== src/Withdraw/Frame.antt =====
-- What a database operation leaves alone, for the proofs about src/vault/withdrawalExecutor.ts: the
-- rows of `vault_withdrawals` seen by id, and the transfers on the chain counted by withdrawal.
pub mod Table
pub mod Quiet
use bert_mm_bot.Prelude.{
  ℕ, suc, ◌≤◌, ◌≡◌, ◌⊎◌, refl, ◌∙◌, Bool, true, false, not, ◌&&◌, ◌||◌, List, [], ◌∷◌, Option, none,
  some, ◌==◌, find, update, count, arith, if◌then◌else◌, inl, inr, ap, find-update, find-satisfies,
  Option-cases, Bool-cases,
}
use bert_mm_bot.Store.{
  World, Db, Action, Result, ok, err, Payment, VaultWithdrawal, Thrown, has_id, is_failed, fails,
  later, settle, statement, with_transaction, and_then, recover,
}
use Table.{Rising, ids, row, sig_free, ids-update}

-- No two statements in a row fail: a fault of the database does not outlast one statement.
abbrev pub Sparse : List Bool → Type 0
Sparse [] = Unit {0}
Sparse (b ∷ bs) = ((b && fails bs) ≡ false) × Sparse bs

pub later-Sparse : (bs : List Bool) → Sparse bs → Sparse (later bs)
unfolding later
later-Sparse [] h = tt
later-Sparse (b ∷ bs) h = h.1

pub Sparse-recovers : (bs : List Bool) → Sparse bs → fails bs ≡ true → fails (later bs) ≡ false
unfolding later fails
Sparse-recovers [] h e = cc
Sparse-recovers (b ∷ bs) h e = ground arith

abbrev pub made_for : ℕ → Payment → Bool
made_for id p = p.withdrawal == id

abbrev pub nobody : ℕ → Bool
nobody j = false

abbrev pub only : ℕ → ℕ → Bool
only id j = j == id

module _ {F : Type 0} where
  -- How many transfers on the chain were made for a withdrawal.
  abbrev pub payments : ℕ → World F → ℕ
  payments id w = count (made_for id) w.paid

  -- `own id` says which withdrawals the operation may touch: every other one that has not failed
  -- keeps its row.
  pub record DbSpares (own : ℕ → Bool) (d d' : Db F) : Type 0 where
    pub keeps :
        (j : ℕ) (r : VaultWithdrawal F)
        → own j ≡ false
        → row j d ≡ some r
        → is_failed r.status ≡ false
        → row j d' ≡ some r
    -- A withdrawal with no signature gets none.
    pub unsigned : (j : ℕ) → own j ≡ false → sig_free (row j d) ≡ true → sig_free (row j d') ≡ true
    pub rising :
        Rising 0 (ids d.withdrawals) d.next_withdrawal
        → Rising 0 (ids d'.withdrawals) d'.next_withdrawal

  pub record Spares (own : ℕ → Bool) (w w' : World F) : Type 0 where
    pub db : DbSpares own w.db w'.db
    pub paid : (j : ℕ) → own j ≡ false → payments j w' ≡ payments j w
    pub sparse : Sparse w.faults → Sparse w'.faults

  pub DbSpares-refl : (own : ℕ → Bool) (d : Db F) → DbSpares own d d
  DbSpares-refl own d = record { keeps = λ j r o e s. e; unsigned = λ j o h. h; rising = λ h. h }

  pub Spares-refl : (own : ℕ → Bool) (w : World F) → Spares own w w
  Spares-refl own w = record { db = DbSpares-refl own w.db; paid = λ j o. refl; sparse = λ h. h }

  pub Spares-trans :
      {own : ℕ → Bool} {u v w : World F} → Spares own u v → Spares own v w → Spares own u w
  Spares-trans a b = record {
    db = record {
      keeps = λ j r o e s. b.db.keeps j r o (a.db.keeps j r o e s) s;
      unsigned = λ j o h. b.db.unsigned j o (a.db.unsigned j o h);
      rising = λ h. b.db.rising (a.db.rising h);
    };
    paid = λ j o. b.paid j o ∙ a.paid j o;
    sparse = λ h. b.sparse (a.sparse h);
  }

  -- What spares every withdrawal spares all but one.
  pub Spares-widen : (own : ℕ → Bool) {v w : World F} → Spares nobody v w → Spares own v w
  Spares-widen own a = record {
    db = record {
      keeps = λ j r o e s. a.db.keeps j r refl e s;
      unsigned = λ j o h. a.db.unsigned j refl h;
      rising = a.db.rising;
    };
    paid = λ j o. a.paid j refl;
    sparse = a.sparse;
  }

  -- An action that spares them from wherever it starts.
  abbrev pub Quiet : {A : Type 0} → (ℕ → Bool) → Action F A → Type 0
  Quiet own m = (w : World F) → Spares own w (m w).1

  faulted_Spares :
      (own : ℕ → Bool) (w : World F) → Spares own w (record w { faults = later w.faults })
  faulted_Spares own w = record {
    db = DbSpares-refl own w.db;
    paid = λ j o. refl;
    sparse = later-Sparse w.faults;
  }

  -- A statement that spares them when it takes effect.
  pub statement-Spares :
      {A : Type 0} (own : ℕ → Bool) (refused : Db F → Option Thrown) (answer : Db F → A)
      (f : Db F → Db F) (w : World F)
      → DbSpares own w.db (f w.db)
      → Spares own w (statement refused answer f w).1
  unfolding statement
  statement-Spares own refused answer f w h = elim (Bool-cases (fails w.faults)) [
    | inl e ↦ rw e (faulted_Spares own w)
    | inr e ↦ elim (Option-cases (refused w.db)) [
      | inl n ↦ rw (e, n) (record { db = h; paid = λ j o. refl; sparse = later-Sparse w.faults })
      | inr (x, s) ↦ rw (e, s) (faulted_Spares own w)
    ]
  ]

  pub and_then-Spares :
      {A B : Type 0} (own : ℕ → Bool) (w : World F) (f : A → Action F B) (x : Result A × World F)
      → Spares own w x.1
      → ((a : A) → Quiet own (f a))
      → Spares own w (and_then f x).1
  unfolding and_then
  and_then-Spares own w f (ok a, w') s hf = Spares-trans s (hf a w')
  and_then-Spares own w f (err e, w') s hf = s

  pub recover-Spares :
      {A : Type 0} (own : ℕ → Bool) (w : World F) (f : Thrown → Action F A) (x : Result A × World F)
      → Spares own w x.1
      → ((e : Thrown) → Quiet own (f e))
      → Spares own w (recover f x).1
  unfolding recover
  recover-Spares own w f (ok a, w') s hf = s
  recover-Spares own w f (err e, w') s hf = Spares-trans s (hf e w')

  -- A transaction that is rolled back, or cannot be committed, restores the database.
  pub settle-Spares :
      {A : Type 0} (own : ℕ → Bool) (w : World F) (x : Result A × World F)
      → Spares own w x.1
      → Spares own w (settle w.db x).1
  unfolding settle
  settle-Spares own w (err e, w') s = record {
    db = DbSpares-refl own w.db;
    paid = s.paid;
    sparse = s.sparse;
  }
  settle-Spares own w (ok a, w') s = elim (Bool-cases (fails w'.faults)) [
    | inl e ↦ rw e (record {
      db = DbSpares-refl own w.db;
      paid = s.paid;
      sparse = λ h. later-Sparse w'.faults (s.sparse h);
    })
    | inr e ↦
        rw e
          (record { db = s.db; paid = s.paid; sparse = λ h. later-Sparse w'.faults (s.sparse h) })
  ]

  pub transaction_Spares :
      {A : Type 0} (own : ℕ → Bool) (m : Action F A) (w : World F)
      → Spares own w (m w).1
      → Spares own w (with_transaction m w).1
  unfolding with_transaction
  transaction_Spares own m w s = settle-Spares own w (m w) s

  -- What a statement does to the table, by the kind of statement.
  pub frame_DbSpares :
      (own : ℕ → Bool) (d d' : Db F)
      → d'.withdrawals ≡ d.withdrawals
      → d'.next_withdrawal ≡ d.next_withdrawal
      → DbSpares own d d'
  frame_DbSpares own d d' e n = record {
    keeps = λ j r o f s. rw e f;
    unsigned = λ j o h. rw e h;
    rising = λ h. rw (e, n) h;
  }

  -- An update that reaches one withdrawal leaves the others as they are.
  pub row-update_ne :
      (id j : ℕ) (p : VaultWithdrawal F → Bool) (f : VaultWithdrawal F → VaultWithdrawal F)
      (d : Db F)
      → ((r : VaultWithdrawal F) → (f r).id ≡ r.id)
      → ((r : VaultWithdrawal F) → p r ≡ true → r.id ≡ id)
      → only id j ≡ false
      → find (has_id j) (update p f d.withdrawals) ≡ row j d
  row-update_ne id j p f d keep reach o = elim (Option-cases (row j d)) [
    | inl n ↦
        ground
          (arith, find-update (has_id j) p f (λ x. ap (λ (i : ℕ). i == j) (keep x)) d.withdrawals)
    | inr (r, e) ↦ ground (
      arith,
      find-update (has_id j) p f (λ x. ap (λ (i : ℕ). i == j) (keep x)) d.withdrawals,
      find-satisfies (has_id j) d.withdrawals r e,
      reach r,
    )
  ]

  pub update_DbSpares :
      (id : ℕ) (p : VaultWithdrawal F → Bool) (f : VaultWithdrawal F → VaultWithdrawal F) (d : Db F)
      → ((r : VaultWithdrawal F) → (f r).id ≡ r.id)
      → ((r : VaultWithdrawal F) → p r ≡ true → r.id ≡ id)
      → DbSpares (only id) d (record d { withdrawals = update p f d.withdrawals })
  update_DbSpares id p f d keep reach = record {
    keeps = λ j r o e s. row-update_ne id j p f d keep reach o ∙ e;
    unsigned = λ j o h. rw (row-update_ne id j p f d keep reach o) h;
    rising = λ h. rw (ids-update p f keep d.withdrawals) h;
  }
