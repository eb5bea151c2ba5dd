-- ===== src/Store/Shares.antt =====
-- The share balances of src/vault/depositorStore.ts.
use bert_mm_bot.Prelude.{ℕ, Bool, List, [], ◌∷◌, ◌++◌, Option, none, some, ◌==◌, find, update, map}
use bert_mm_bot.Amounts.{Arith}
use bert_mm_bot.Store.Rows.{Db, Thrown, foreign_key_violation}
use bert_mm_bot.Store.Users.{is_user}
use bert_mm_bot.Store.Monad.{Action, statement, exec, gets, ◌>>=◌}

abbrev pub owns : {F : Type 0} → ℕ → ℕ × F → Bool
owns id r = r.0 == id

module _ {F : Type 0} where
  abbrev pub set_shares : (List (ℕ × F) → List (ℕ × F)) → Db F → Db F
  set_shares f d = record d { shares = f d.shares }

  -- `vault_shares.telegram_id` is a foreign key into `vault_users`.
  abbrev pub needs_user : ℕ → Db F → Option Thrown
  needs_user id d = elim (find (is_user id) d.users) [
    | none ↦ some foreign_key_violation
    | some _ ↦ none
  ]

module _ {F : Type 0} ⦃num : Arith F⦄ where
  abbrev pub balance_of : Option (ℕ × F) → F
  balance_of none = num.lit 0 0
  balance_of (some r) = r.1

  unfoldable pub get_shares : ℕ → Db F → F
  get_shares id d = balance_of (find (owns id) d.shares)

  abbrev pub write_shares : ℕ → F → Option (ℕ × F) → Action F (Unit {0})
  write_shares id delta (some r) =
      exec (set_shares (update (owns id) (λ row. (row.0, num.add r.1 delta))))
  write_shares id delta none =
      statement (needs_user id) (λ _. tt) (set_shares (λ rows. rows ++ (id, delta) ∷ []))

  unfoldable pub add_shares : ℕ → F → Action F (Unit {0})
  add_shares id delta = do
    existing ← gets (λ d. find (owns id) d.shares)
    write_shares id delta existing

  unfoldable pub total_shares : Db F → F
  total_shares d = num.sum (map (λ r. r.1) d.shares)
