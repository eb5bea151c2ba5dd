-- ===== src/Sweeper.antt =====
-- src/vault/sweeper.ts. Addresses are texts, and the derivation of an associated token account, which
-- is the SPL library's, is the parameter `ata`.
mod Tests
use bert_mm_bot.Prelude.{
  ℕ, ◌+◌, ◌-◌, ◌≤◌, ◌<◌, ◌≡◌, ◌⊎◌, refl, inl, inr, String, Bool, List, [], ◌∷◌, ◌++◌, ltb, leb,
  ◌==◌, ◌&&◌, if◌then◌else◌, Bool-cases, All, arith,
}
use bert_mm_bot.Store.{Result, ok, err, insufficient_sol}
use bert_mm_bot.ShareMath.{bert_decimals}

pub data Instruction : Type 0 where
  system_transfer : (from_pubkey to_pubkey : String) (lamports : ℕ) → Instruction
  transfer_checked : (source mint destination owner : String) (amount decimals : ℕ) → Instruction

pub record SweepParams : Type 0 where
  pub from_pubkey : String
  pub to_wallet : String
  pub sol_lamports : ℕ
  pub bert_raw : ℕ
  pub bert_mint : String
  pub rent_reserve_lamports : ℕ

abbrev pub sol_to_send : SweepParams → ℕ
sol_to_send p =
    if ltb p.rent_reserve_lamports p.sol_lamports
    then p.sol_lamports - p.rent_reserve_lamports
    else 0

module _ (ata : (mint owner : String) → String) where
  abbrev pub sol_instructions : SweepParams → List Instruction
  sol_instructions p =
      if ltb 0 (sol_to_send p)
      then system_transfer p.from_pubkey p.to_wallet (sol_to_send p) ∷ []
      else []

  abbrev pub bert_instructions : SweepParams → List Instruction
  bert_instructions p =
      if ltb 0 p.bert_raw
      then transfer_checked (ata p.bert_mint p.from_pubkey) p.bert_mint
          (ata p.bert_mint p.to_wallet) p.from_pubkey p.bert_raw bert_decimals
        ∷ []
      else []

  unfoldable pub build_sweep_instructions : SweepParams → Result (List Instruction)
  build_sweep_instructions p =
      if ltb 0 p.sol_lamports && sol_to_send p == 0
      then err insufficient_sol
      else ok (sol_instructions p ++ bert_instructions p)

-- The amounts of the instructions.
abbrev pub lamports_of : List Instruction → ℕ
lamports_of [] = 0
lamports_of (system_transfer _ _ n ∷ is) = n + lamports_of is
lamports_of (transfer_checked _ _ _ _ _ _ ∷ is) = lamports_of is

abbrev pub tokens_of : List Instruction → ℕ
tokens_of [] = 0
tokens_of (system_transfer _ _ _ ∷ is) = tokens_of is
tokens_of (transfer_checked _ _ _ _ n _ ∷ is) = n + tokens_of is

-- The instruction moves funds from the deposit address to the wallet, or from the one's token account to the
-- other's, signed for by the deposit address.
abbrev pub IsSweep : (ata : (mint owner : String) → String) → SweepParams → Instruction → Type 0
IsSweep ata p (system_transfer from_pubkey to_pubkey _) =
    (from_pubkey ≡ p.from_pubkey) × (to_pubkey ≡ p.to_wallet)
IsSweep ata p (transfer_checked source mint destination owner _ decimals) =
    (source ≡ ata p.bert_mint p.from_pubkey)
    × (mint ≡ p.bert_mint)
    × (destination ≡ ata p.bert_mint p.to_wallet)
    × (owner ≡ p.from_pubkey)
    × (decimals ≡ 6)

instructions-IsSweep :
    (ata : (mint owner : String) → String) (p : SweepParams)
    → All (IsSweep ata p) (sol_instructions ata p ++ bert_instructions ata p)
instructions-IsSweep ata p = elim (Bool-cases (ltb 0 (sol_to_send p))) [
  | inl sol ↦ elim (Bool-cases (ltb 0 p.bert_raw)) [
    | inl bert ↦ rw (sol, bert) ((refl, refl), ((refl, refl, refl, refl, refl), tt))
    | inr no_bert ↦ rw (sol, no_bert) ((refl, refl), tt)
  ]
  | inr no_sol ↦ elim (Bool-cases (ltb 0 p.bert_raw)) [
    | inl bert ↦ rw (no_sol, bert) ((refl, refl, refl, refl, refl), tt)
    | inr no_bert ↦ rw (no_sol, no_bert) tt
  ]
]

-- A sweep is refused exactly when there is SOL but not more than the reserve. Otherwise each of its instructions
-- moves funds from the deposit address to the wallet, and together they take all of the token and all of
-- the SOL above the reserve, so the reserve stays.
pub build_sweep_instructions_lem :
    (ata : (mint owner : String) → String) (p : SweepParams)
    → ((build_sweep_instructions ata p ≡ err insufficient_sol)
        × (0 < p.sol_lamports)
        × (p.sol_lamports ≤ p.rent_reserve_lamports))
      ⊎ ((is : List Instruction) × (build_sweep_instructions ata p ≡ ok is)
          × All (IsSweep ata p) is
          × (tokens_of is ≡ p.bert_raw)
          × ((p.sol_lamports ≡ 0) × (lamports_of is ≡ 0)
              ⊎ (lamports_of is + p.rent_reserve_lamports ≡ p.sol_lamports) × (0 < lamports_of is)))
unfolding build_sweep_instructions
build_sweep_instructions_lem ata p =
    elim (Bool-cases (ltb 0 p.sol_lamports && sol_to_send p == 0)) [
      | inl refused ↦ inl (ground arith, ground arith, ground arith)
      | inr sends ↦ inr (
        sol_instructions ata p ++ bert_instructions ata p,
        ground arith,
        instructions-IsSweep ata p,
        ground arith,
        ground arith,
      )
    ]
