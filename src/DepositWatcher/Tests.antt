-- ===== src/DepositWatcher/Tests.antt =====
-- One inflow that both lists of signatures have.
use bert_mm_bot.Prelude.{false, List, [], ◌∷◌, some}
use bert_mm_bot.DepositWatcher.{SignatureInfo, ParsedTransaction}

abbrev seen_twice : SignatureInfo
seen_twice = record { signature = "sig"; failed = false; block_time = some 5 }

abbrev pays : ParsedTransaction
pays = record {
  accounts = record { key = "dep"; pre = 1; post = 6 } ∷ [];
  pre_tokens = [];
  post_tokens = record { owner = "dep"; mint = "bert"; amount = 4 } ∷ [];
}

abbrev both : List SignatureInfo
both = seen_twice ∷ seen_twice ∷ []
