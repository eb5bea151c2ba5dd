-- ===== src/Withdraw/Frame/Table.antt =====
-- The withdrawals table as SQLite keeps it: ids in the order of insertion, none twice.
use bert_mm_bot.Prelude.{
  ℕ, suc, ◌≤◌, ◌≡◌, refl, ap, ◌∙◌, Bool, true, List, [], ◌∷◌, ◌++◌, Option, none, some, ◌==◌, find,
  find-update, update, count, arith, if◌then◌else◌,
}
use bert_mm_bot.Store.{Db, VaultWithdrawal, has_id, is_null, unsent}

-- `lo ≤ i₁ < i₂ < … < hi`
abbrev pub Rising : ℕ → List ℕ → ℕ → Type 0
Rising lo [] hi = lo ≤ hi
Rising lo (i ∷ is) hi = (lo ≤ i) × Rising (suc i) is hi

pub Rising-append :
    (lo : ℕ) (is : List ℕ) (hi : ℕ) → Rising lo is hi → Rising lo (is ++ hi ∷ []) (suc hi)
Rising-append lo [] hi h = omega arith
Rising-append lo (i ∷ is) hi h = (h.0, Rising-append (suc i) is hi h.1)

module _ {F : Type 0} where
  abbrev pub ids : List (VaultWithdrawal F) → List ℕ
  ids [] = []
  ids (r ∷ rs) = r.id ∷ ids rs

  abbrev pub row : ℕ → Db F → Option (VaultWithdrawal F)
  row id d = find (has_id id) d.withdrawals

  abbrev pub sig_free : Option (VaultWithdrawal F) → Bool
  sig_free none = true
  sig_free (some r) = is_null r.tx_sig

  pub ids-append : (xs ys : List (VaultWithdrawal F)) → ids (xs ++ ys) ≡ ids xs ++ ids ys
  ids-append [] ys = refl
  ids-append (x ∷ xs) ys = ap (◌∷◌ x.id) (ids-append xs ys)

  pub ids-update :
      (p : VaultWithdrawal F → Bool) (f : VaultWithdrawal F → VaultWithdrawal F)
      → ((r : VaultWithdrawal F) → (f r).id ≡ r.id)
      → (rs : List (VaultWithdrawal F)) → ids (update p f rs) ≡ ids rs
  ids-update p f keep [] = refl
  ids-update p f keep (r ∷ rs) = ground (arith, keep r, ids-update p f keep rs)

  module _ (id : ℕ) (p : VaultWithdrawal F → Bool) (f : VaultWithdrawal F → VaultWithdrawal F)
      (keep : (r : VaultWithdrawal F) → (f r).id ≡ r.id) (d : Db F) where
    -- What an update makes of one row.
    pub row-update :
        (r : VaultWithdrawal F)
        → row id d ≡ some r
        → find (has_id id) (update p f d.withdrawals) ≡ some (if p r then f r else r)
    row-update r e =
        find-update (has_id id) p f (λ x. ap (λ (i : ℕ). i == id) (keep x)) d.withdrawals ∙ rw e

    pub row-update-none : row id d ≡ none → find (has_id id) (update p f d.withdrawals) ≡ none
    row-update-none e =
        find-update (has_id id) p f (λ x. ap (λ (i : ℕ). i == id) (keep x)) d.withdrawals ∙ rw e

  pub find-below :
      (lo hi id : ℕ) (rs : List (VaultWithdrawal F))
      → Rising lo (ids rs) hi
      → suc id ≤ lo
      → find (has_id id) rs ≡ none
  find-below lo hi id [] h l = refl
  find-below lo hi id (r ∷ rs) h l = ground (arith, find-below (suc r.id) hi id rs)

  pub find-above :
      (lo hi id : ℕ) (rs : List (VaultWithdrawal F))
      → Rising lo (ids rs) hi
      → hi ≤ id
      → find (has_id id) rs ≡ none
  find-above lo hi id [] h l = refl
  find-above lo hi id (r ∷ rs) h l =
      ground (arith, find-above (suc r.id) hi id rs, Rising_le (suc r.id) hi (ids rs))
    where
      Rising_le : (lo hi : ℕ) (is : List ℕ) → Rising lo is hi → lo ≤ hi
      Rising_le lo hi [] h = h
      Rising_le lo hi (i ∷ is) h = omega (arith, Rising_le (suc i) hi is h.1)

  count-unsent-below :
      (lo hi id : ℕ) (rs : List (VaultWithdrawal F))
      → Rising lo (ids rs) hi
      → suc id ≤ lo
      → count (unsent id) rs ≡ 0
  count-unsent-below lo hi id [] h l = refl
  count-unsent-below lo hi id (r ∷ rs) h l = ground (arith, count-unsent-below (suc r.id) hi id rs)

  -- `WHERE id=? AND tx_sig IS NULL` meets exactly one row, if the row of that id has no signature.
  pub count-unsent :
      (lo hi id : ℕ) (r : VaultWithdrawal F) (rs : List (VaultWithdrawal F))
      → Rising lo (ids rs) hi
      → find (has_id id) rs ≡ some r
      → is_null r.tx_sig ≡ true
      → count (unsent id) rs ≡ 1
  count-unsent lo hi id r [] h e n = cc
  count-unsent lo hi id r (x ∷ rs) h e n =
      ground (arith, count-unsent-below (suc x.id) hi id rs, count-unsent (suc x.id) hi id r rs)
