-- ===== src/Sweeper/Tests.antt =====
-- A sweep of SOL and BERT at concrete amounts.
use bert_mm_bot.Prelude.{◌+◌, ◌≤◌, ◌<◌, ◌≡◌, ◌⊎◌, String, List, All}
use bert_mm_bot.Store.{ok, err, insufficient_sol}
use bert_mm_bot.Sweeper.{
  SweepParams, Instruction, build_sweep_instructions, build_sweep_instructions_lem, lamports_of,
  tokens_of, IsSweep,
}

abbrev ata : (mint owner : String) → String
ata mint owner = owner

abbrev params : SweepParams
params = record {
  from_pubkey = "Deposit";
  to_wallet = "Pool";
  sol_lamports = 1000000000;
  bert_raw = 5000000;
  bert_mint = "BERT";
  rent_reserve_lamports = 2039280;
}

build_sweep_instructions_example :
    (build_sweep_instructions ata params ≡ err insufficient_sol)
      × (0 < 1000000000)
      × (1000000000 ≤ 2039280)
    ⊎ ((is : List Instruction) × (build_sweep_instructions ata params ≡ ok is)
        × All (IsSweep ata params) is
        × (tokens_of is ≡ 5000000)
        × ((params.sol_lamports ≡ 0) × (lamports_of is ≡ 0)
            ⊎ (lamports_of is + 2039280 ≡ 1000000000) × (0 < lamports_of is)))
build_sweep_instructions_example = build_sweep_instructions_lem ata params
