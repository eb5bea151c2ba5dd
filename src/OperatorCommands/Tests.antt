-- ===== src/OperatorCommands/Tests.antt =====
-- /recreditdeposit for a deposit that was swept and not credited.
use bert_mm_bot.Prelude.{ℕ, [], ◌∷◌, some}
use bert_mm_bot.Amounts.Fixed.{fixed_arith}
use bert_mm_bot.Store.{World, deposit_detected, deposit_swept}

abbrev swept : World ℕ
swept = record {
  db = record {
    users = [];
    shares = (7, 0) ∷ [];
    deposits = [];
    withdrawals = [];
    changes = [];
    navs = [];
    audit =
        record { ts = 1; telegram_id = some 7; event = deposit_detected "in" 1000000000 0 }
        ∷ record { ts = 2; telegram_id = some 7; event = deposit_swept "in" "out" 1000000000 0 1 }
        ∷ [];
    flags = [];
    next_deposit = 1;
    next_withdrawal = 1;
    next_change = 1;
  };
  faults = [];
  paid = [];
}
