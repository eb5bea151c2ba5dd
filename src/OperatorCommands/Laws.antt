-- ===== src/OperatorCommands/Laws.antt =====
-- What /recreditdeposit of src/vault/operatorCommands.ts may do to the books.
use bert_mm_bot.Prelude.{ℕ, ◌≡◌, ◌⊎◌, String, false, Option, some}
use bert_mm_bot.Amounts.{Arith}
use bert_mm_bot.CreditEngine.{CreditParams, credit}
use bert_mm_bot.Withdraw.Executor.{Mid}
use bert_mm_bot.Store.{World, Result, ok, has_deposit, write_audit, deposit_recredited}
use bert_mm_bot.OperatorCommands.{RecreditReply}

module _ {F : Type 0} ⦃num : Arith F⦄ (operator now : ℕ) (mid : Option (Mid F)) (sig : String) where
  -- What the command may do: nothing, or one whole credit of the deposit and the writing of an audit row.
  abbrev pub Recredits : World F → Result (RecreditReply F) × World F → Type 0
  Recredits w x =
      (x.1.db ≡ w.db)
      ⊎ (p : CreditParams F) × (p.inbound_tx_sig ≡ sig)
        × (has_deposit sig w.db ≡ false)
        × ((credit p w).0 ≡ ok tt)
        × ((minted : F) × (x.1
              ≡ (write_audit now (some operator)
                  (deposit_recredited sig p.sweep_tx_sig p.telegram_id minted
                    p.nav_per_share_at_deposit)
                  (credit p w).1).1))
