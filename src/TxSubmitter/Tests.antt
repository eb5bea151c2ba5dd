-- ===== src/TxSubmitter/Tests.antt =====
-- Submissions over a network that fails once.
use bert_mm_bot.Prelude.{ℕ, zero, suc, ◌≡◌, ◌≤◌, refl, false, true, some}
use bert_mm_bot.Store.{sqlite}
use bert_mm_bot.TxSubmitter.{
  Sent, confirmed, threw, rejected, attempts_from, submit, submit_protected,
}
use bert_mm_bot.TxSubmitter.Laws.{Ended, submit_ends}

abbrev fails_once : ℕ → Sent
fails_once zero = threw false sqlite
fails_once (suc n) = confirmed "sig"

submit_ends_example :
    Ended fails_once 0 3 (submit false 3 sqlite fails_once)
    × ((submit false 3 sqlite fails_once).attempts ≤ 3)
submit_ends_example = submit_ends 3 sqlite fails_once

-- The confirmation of the first attempt is lost.
abbrev loses_confirmation : ℕ → Sent
loses_confirmation zero = threw true sqlite
loses_confirmation (suc n) = confirmed "sig"

lands_twice : (submit false 3 sqlite loses_confirmation).landings ≡ 2
unfolding submit attempts_from
lands_twice = refl

-- The Jito client throws after its bundle was taken.
loses_bundle :
    (submit_protected (some (rejected true sqlite)) false 3 sqlite fails_once).landings ≡ 2
unfolding submit_protected submit attempts_from
loses_bundle = refl
