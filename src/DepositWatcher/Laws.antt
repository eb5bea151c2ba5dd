-- ===== src/DepositWatcher/Laws.antt =====
-- Which inflows src/vault/depositWatcher.ts passes on.
use bert_mm_bot.Prelude.{
  ℕ, ◌≡◌, ◌≢◌, ◌⊎◌, ◌<◌, ◌+◌, ◌-◌, String, Bool, true, false, List, [], ◌∷◌, Option, none, some,
  All,
}
use bert_mm_bot.Store.{Result, Thrown, ok, err}
use bert_mm_bot.DepositWatcher.{
  SignatureInfo, ParsedTransaction, InflowEvent, sol_delta_of, sum_for, confirmed_at,
}

abbrev pub signatures : List SignatureInfo → List String
signatures [] = []
signatures (s ∷ ss) = s.signature ∷ signatures ss

-- No signature comes twice.
abbrev pub Distinct : List String → Type 0
Distinct [] = Unit {0}
Distinct (s ∷ ss) = All (λ t. s ≢ t) ss × Distinct ss

abbrev pub event_signatures : List InflowEvent → List String
event_signatures [] = []
event_signatures (e ∷ es) = e.inbound_tx_sig ∷ event_signatures es

module _ {S : Type 0} (bert_mint : String) (is_already_credited : String → S → Bool)
    (get_parsed_transaction : String → Option ParsedTransaction) (now_sec : ℕ)
    (on_inflow : InflowEvent → S → Result (Unit {0}) × S) (address : String) where
  -- What the transaction brought the address, in lamports and in units of the token.
  abbrev pub Brings : ParsedTransaction → (sol bert : ℕ) → Type 0
  Brings tx sol bert =
      (sol ≡ sol_delta_of address tx.accounts)
      × (bert ≡ sum_for address bert_mint tx.post_tokens - sum_for address bert_mint tx.pre_tokens)

  -- The event is for `s`, which did not fail on the chain, and tells what it brought, which is not nothing.
  pub record IsInflow (s : SignatureInfo) (e : InflowEvent) : Type 0 where
    pub same_sig : e.inbound_tx_sig ≡ s.signature
    pub to_address : e.deposit_address ≡ address
    pub landed : s.failed ≡ false
    pub tx : ParsedTransaction
    pub parsed : get_parsed_transaction s.signature ≡ some tx
    pub amounts : Brings tx e.sol_lamports e.bert_raw
    pub brings : 0 < e.sol_lamports + e.bert_raw

  -- There is nothing to pass on for `s`: it failed, or is credited already, or the chain does not know it, or it
  -- brought neither.
  abbrev pub IsNothing : SignatureInfo → S → Type 0
  IsNothing s st =
      (s.failed ≡ true)
      ⊎ (is_already_credited s.signature st ≡ true)
      ⊎ (get_parsed_transaction s.signature ≡ none)
      ⊎ (tx : ParsedTransaction) × (get_parsed_transaction s.signature ≡ some tx) × Brings tx 0 0

  abbrev event_of : SignatureInfo → ParsedTransaction → InflowEvent
  event_of s tx = record {
    deposit_address = address;
    inbound_tx_sig = s.signature;
    sol_lamports = sol_delta_of address tx.accounts;
    bert_raw = sum_for address bert_mint tx.post_tokens - sum_for address bert_mint tx.pre_tokens;
    confirmed_at =
        confirmed_at bert_mint is_already_credited get_parsed_transaction now_sec s.block_time;
  }

  -- What a poll of the signatures passes on, from a state on: for each signature nothing, where there is nothing, or
  -- its inflow, after which the poll goes on from the state that `onInflow` left, or ends if that threw.
  abbrev pub Polled : List SignatureInfo → S → List InflowEvent → Type 0
  Polled [] st es = es ≡ []
  Polled (s ∷ ss) st es =
      IsNothing s st × Polled ss st es
      ⊎ (e : InflowEvent) × (rest : List InflowEvent) × (es ≡ e ∷ rest)
        × IsInflow s e
        × (is_already_credited s.signature st ≡ false)
        × (((on_inflow e st).0 ≡ ok tt) × Polled ss (on_inflow e st).1 rest
            ⊎ (thrown : Thrown) × ((on_inflow e st).0 ≡ err thrown) × (rest ≡ []))
