-- ===== src/CreditEngine/Laws.antt =====
-- What `CreditEngine.credit` promises: all or nothing, and each inbound signature mints once.
use bert_mm_bot.Prelude.{
  ℕ, ◌≡◌, ◌⊎◌, refl, ◌∙◌, false, List, [], ◌∷◌, ◌++◌, Option, none, some, find, update, inl, inr,
  arith,
}
use bert_mm_bot.Amounts.{Arith}
use bert_mm_bot.ShareMath.{compute_shares_for_deposit}
use bert_mm_bot.Store.{
  World, Db, Result, ok, err, Thrown, and_then, statement, with_transaction, ◌>>◌, pure, gets,
  already_credited, append_deposit, has_deposit, credit_deposit, add_shares, write_shares, owns,
  total_shares, insert_nav_snapshot, write_audit, set_shares, NavSnapshotRow, set_navs, upsert,
  deposit, deposit_credited,
}
use bert_mm_bot.StoreLaws.{
  statement-ok, settle-ok, settle-err, and_then-ok, Does, statement-Does, >>=-Does,
  transaction-Does, gets-Does, with_transaction_cases,
}
use bert_mm_bot.CreditEngine.{CreditParams, deposit_usd, deposit_row, credit_minted, credit}

module _ {F : Type 0} ⦃num : Arith F⦄ where
  -- A credit that throws leaves the database as it was: no deposit, no shares, no snapshot, no audit.
  pub credit_atomic :
      (p : CreditParams F) (w : World F) {e : Thrown}
      → (credit p w).0 ≡ err e
      → (credit p w).1.db ≡ w.db
  unfolding credit and_then with_transaction
  credit_atomic p w h = go (compute_shares_for_deposit (deposit_usd p) p.nav_per_share_at_deposit) h
    where
      go :
          (r : Result F) {e : Thrown}
          → (and_then (λ m. with_transaction (credit_minted p m)) (r, w)).0 ≡ err e
          → (and_then (λ m. with_transaction (credit_minted p m)) (r, w)).1.db ≡ w.db
      go (ok m) h = settle-err w.db _ h
      go (err e) h = refl

  -- The abstract credit: what a balance, and the whole database, becomes.
  unfoldable pub add_to : ℕ → F → List (ℕ × F) → List (ℕ × F)
  add_to id delta rows = elim (find (owns id) rows) [
    | none ↦ rows ++ (id, delta) ∷ []
    | some r ↦ update (owns id) (λ row. (row.0, num.add r.1 delta)) rows
  ]

  abbrev pub snapshot : CreditParams F → F → NavSnapshotRow F
  snapshot p total = record {
    ts = p.now;
    total_value_usd = num.mul total p.nav_per_share_at_deposit;
    total_shares = total;
    nav_per_share = p.nav_per_share_at_deposit;
    source = deposit;
  }

  abbrev pub with_deposit : CreditParams F → F → Db F → Db F
  with_deposit p m d = set_shares (add_to p.telegram_id m) (append_deposit (deposit_row p m) d)

  abbrev pub with_snapshot : CreditParams F → Db F → Db F
  with_snapshot p d = set_navs (upsert (snapshot p (total_shares d))) d

  abbrev pub with_audit : CreditParams F → F → Db F → Db F
  with_audit p m d = record d {
    audit =
        d.audit
        ++ record {
          ts = p.now;
          telegram_id = some p.telegram_id;
          event = deposit_credited p.inbound_tx_sig (deposit_usd p) m p.nav_per_share_at_deposit;
        }
          ∷ [];
  }

  add_shares-Does :
      (id : ℕ) (delta : F) → Does (add_shares id delta) (λ _. tt) (set_shares (add_to id delta))
  unfolding add_shares and_then add_to
  add_shares-Does id delta w a h = go (find (owns id) w.db.shares) refl h
    where
      go :
          (o : Option (ℕ × F))
          → find (owns id) w.db.shares ≡ o
          → (write_shares id delta o w).0 ≡ ok a
          → (a ≡ tt) × ((write_shares id delta o w).1.db ≡ set_shares (add_to id delta) w.db)
      go none e k = (refl, (statement-ok _ _ _ w k).0 ∙ rw (e, add_to) refl)
      go (some r) e k = (refl, (statement-ok _ _ _ w k).0 ∙ rw (e, add_to) refl)

  credit_deposit-Does :
      (p : CreditParams F) (m : F)
      → Does (credit_deposit (deposit_row p m)) (λ d. d.next_deposit) (with_deposit p m)
  unfolding credit_deposit
  credit_deposit-Does p m = transaction-Does _ _ _ (
      >>=-Does
        (statement (already_credited p.inbound_tx_sig) (λ d. d.next_deposit)
          (append_deposit (deposit_row p m)))
        (λ id. add_shares p.telegram_id m >> pure id) (λ d. d.next_deposit)
        (append_deposit (deposit_row p m)) (λ id d. id) (λ id. set_shares (add_to p.telegram_id m))
        (statement-Does _ _ _)
        (λ id.
          >>=-Does (add_shares p.telegram_id m) (λ _. pure id) (λ _. tt)
            (set_shares (add_to p.telegram_id m)) (λ _ d. id) (λ _ d. d)
            (add_shares-Does p.telegram_id m) (λ _. gets-Does (λ _. id))))

  credit_minted-Does :
      (p : CreditParams F) (m : F)
      → Does
          (credit_minted p m)
          (λ _. tt)
          (λ d. with_audit p m (with_snapshot p (with_deposit p m d)))
  unfolding credit_minted insert_nav_snapshot write_audit
  credit_minted-Does p m =
      >>=-Does (credit_deposit (deposit_row p m)) _ (λ d. d.next_deposit) (with_deposit p m)
        (λ _ _. tt) (λ _ d. with_audit p m (with_snapshot p d)) (credit_deposit-Does p m)
        λ id.
          >>=-Does (gets total_shares) _ total_shares (λ d. d) (λ _ _. tt)
            (λ total d. with_audit p m (set_navs (upsert (snapshot p total)) d))
            (gets-Does total_shares)
            λ total.
              >>=-Does (insert_nav_snapshot (snapshot p total)) _ (λ _. tt)
                (set_navs (upsert (snapshot p total))) (λ _ _. tt) (λ _ d. with_audit p m d)
                (statement-Does _ _ _) λ _. statement-Does _ _ _

  -- A credit that goes through met a signature that had not been credited.
  credit_minted-fresh :
      (p : CreditParams F) (m : F) (w : World F) {a : Unit {0}}
      → (credit_minted p m w).0 ≡ ok a
      → already_credited p.inbound_tx_sig w.db ≡ none
  unfolding credit_minted credit_deposit with_transaction
  credit_minted-fresh p m w h =
      let (id, e, _, _) = and_then-ok _ (credit_deposit (deposit_row p m) w) h in
      let (e', _) = settle-ok w.db _ e in
      let (n, e'', _, _) =
        and_then-ok _
          (statement (already_credited p.inbound_tx_sig) (λ d. d.next_deposit)
            (append_deposit (deposit_row p m)) w)
          e' in
      (statement-ok _ _ _ w e'').1

  -- `credit` either throws and leaves the database as it was, or does all of the abstract credit: the
  -- deposit's row, the shares at the price of the deposit, the snapshot and the audit row, for a
  -- signature that had no deposit before.
  pub credit_refines :
      (p : CreditParams F) (w : World F)
      → let x = credit p w in
        ((e : Thrown) × (x.0 ≡ err e) × (x.1.db ≡ w.db))
        ⊎ ((m : F) × (compute_shares_for_deposit (deposit_usd p) p.nav_per_share_at_deposit ≡ ok m)
            × (has_deposit p.inbound_tx_sig w.db ≡ false)
            × (x.0 ≡ ok tt)
            × (x.1.db ≡ with_audit p m (with_snapshot p (with_deposit p m w.db))))
  unfolding credit and_then has_deposit
  credit_refines p w = price (compute_shares_for_deposit (deposit_usd p) p.nav_per_share_at_deposit)
    where
      Outcome : Result F → Result (Unit {0}) × World F → Type 0
      Outcome r x =
          ((e : Thrown) × (x.0 ≡ err e) × (x.1.db ≡ w.db))
          ⊎ ((m : F) × (r ≡ ok m)
              × (has_deposit p.inbound_tx_sig w.db ≡ false)
              × (x.0 ≡ ok tt)
              × (x.1.db ≡ with_audit p m (with_snapshot p (with_deposit p m w.db))))

      price :
          (r : Result F) → Outcome r (and_then (λ m. with_transaction (credit_minted p m)) (r, w))
      price (err e) = inl (e, refl, refl)
      price (ok m) =
          elim (with_transaction_cases (credit_minted p m) (λ _. tt)
            (λ d. with_audit p m (with_snapshot p (with_deposit p m d))) (credit_minted-Does p m)
            w) [
              | inl (e, throws, same) ↦ inl (e, throws, same)
              | inr (a, inner, returns, _, d) ↦
                  inr (m, refl, ground (arith, credit_minted-fresh p m w inner), returns, d)
            ]
