-- ===== src/Store/Deposits.antt =====
-- The deposits of src/vault/depositorStore.ts.
use bert_mm_bot.Prelude.{
  ℕ, suc, String, Bool, true, false, List, [], ◌∷◌, ◌++◌, Option, none, some, ◌==◌, str_eq, find,
  select,
}
use bert_mm_bot.Amounts.{Arith}
use bert_mm_bot.Store.Rows.{Db, VaultDeposit, Thrown, unique_violation}
use bert_mm_bot.Store.Monad.{Action, statement, pure, with_transaction, ◌>>=◌, ◌>>◌}
use bert_mm_bot.Store.Shares.{add_shares}

module _ {F : Type 0} where
  abbrev pub has_sig : String → VaultDeposit F → Bool
  has_sig sig r = str_eq r.inbound_tx_sig sig

  -- UNIQUE(inbound_tx_sig)
  abbrev pub already_credited : String → Db F → Option Thrown
  already_credited sig d = elim (find (has_sig sig) d.deposits) [
    | some _ ↦ some unique_violation
    | none ↦ none
  ]

  abbrev pub append_deposit : VaultDeposit F → Db F → Db F
  append_deposit r d = record d {
    deposits = d.deposits ++ record r { id = d.next_deposit } ∷ [];
    next_deposit = suc d.next_deposit;
  }

  unfoldable pub has_deposit : String → Db F → Bool
  has_deposit sig d = elim (find (has_sig sig) d.deposits) [ some _ ↦ true | none ↦ false ]

  unfoldable pub list_deposits_for_user : ℕ → Db F → List (VaultDeposit F)
  list_deposits_for_user id d = select (λ r. r.telegram_id == id) d.deposits

-- The row's own `id` is not read: the database assigns one.
unfoldable pub credit_deposit : {F : Type 0} ⦃num : Arith F⦄ → VaultDeposit F → Action F ℕ
credit_deposit r = with_transaction (do
  id ← statement (already_credited r.inbound_tx_sig) (λ d. d.next_deposit) (append_deposit r)
  add_shares r.telegram_id r.shares_minted
  pure id)
