-- ===== src/DepositWatcher.antt =====
-- src/vault/depositWatcher.ts. The chain's answers are parameters: the signatures at the address and at its token
-- account, and each transaction with its balances. Balances are natural numbers.
pub mod Laws
mod Tests
use bert_mm_bot.Prelude.{
  ℕ, ◌+◌, ◌-◌, ◌*◌, String, Bool, true, false, not, ◌&&◌, ◌||◌, List, [], ◌∷◌, ◌++◌, Option, none,
  some, ◌==◌, str_eq, select, if◌then◌else◌,
}
use bert_mm_bot.Store.{Result, ok, err}

pub record SignatureInfo : Type 0 where
  pub signature : String
  pub failed : Bool
  -- In seconds.
  pub block_time : Option ℕ

-- A row of `preTokenBalances` or `postTokenBalances`.
pub record TokenBalance : Type 0 where
  pub owner : String
  pub mint : String
  pub amount : ℕ

-- An account of a transaction with its lamports before and after.
pub record AccountBalance : Type 0 where
  pub key : String
  pub pre : ℕ
  pub post : ℕ

pub record ParsedTransaction : Type 0 where
  pub accounts : List AccountBalance
  pub pre_tokens : List TokenBalance
  pub post_tokens : List TokenBalance

pub record InflowEvent : Type 0 where
  pub deposit_address : String
  pub inbound_tx_sig : String
  pub sol_lamports : ℕ
  pub bert_raw : ℕ
  pub confirmed_at : ℕ

abbrev pub member : String → List String → Bool
member s [] = false
member s (t ∷ ts) = str_eq s t || member s ts

-- The first row of each signature that is not among `seen`.
unfoldable pub dedupe : (seen : List String) → List SignatureInfo → List SignatureInfo
dedupe seen [] = []
dedupe seen (s ∷ ss) =
    let skipped = dedupe seen ss in
    let kept = dedupe (s.signature ∷ seen) ss in
    if member s.signature seen then skipped else s ∷ kept

abbrev pub sol_delta_of : String → List AccountBalance → ℕ
sol_delta_of address [] = 0
sol_delta_of address (a ∷ accounts) =
    if str_eq a.key address then a.post - a.pre else sol_delta_of address accounts

-- What an owner has of a mint.
abbrev pub sum_for : (address mint : String) → List TokenBalance → ℕ
sum_for address mint [] = 0
sum_for address mint (r ∷ rows) =
    if str_eq r.owner address && str_eq r.mint mint
    then r.amount + sum_for address mint rows
    else sum_for address mint rows

pub record Deltas : Type 0 where
  pub sol_delta : ℕ
  pub bert_delta : ℕ

-- Only what comes in counts: a loss is 0.
unfoldable pub compute_deltas :
    (bert_mint : String) → ParsedTransaction → (address : String) → Deltas
compute_deltas bert_mint tx address = record {
  sol_delta = sol_delta_of address tx.accounts;
  bert_delta = sum_for address bert_mint tx.post_tokens - sum_for address bert_mint tx.pre_tokens;
}

module _ {S : Type 0} (bert_mint : String) (is_already_credited : String → S → Bool)
    (get_parsed_transaction : String → Option ParsedTransaction)
    -- `Math.floor(Date.now() / 1000)`
    (now_sec : ℕ) where
  abbrev pub confirmed_at : Option ℕ → ℕ
  confirmed_at none = now_sec * 1000
  confirmed_at (some t) = t * 1000

  abbrev pub inflow_of : (address : String) → SignatureInfo → Deltas → Option InflowEvent
  inflow_of address s d =
      if d.sol_delta == 0 && d.bert_delta == 0
      then none
      else some (record {
        deposit_address = address;
        inbound_tx_sig = s.signature;
        sol_lamports = d.sol_delta;
        bert_raw = d.bert_delta;
        confirmed_at = confirmed_at s.block_time;
      })

  abbrev pub inflow_in :
      (address : String) → SignatureInfo → Option ParsedTransaction → Option InflowEvent
  inflow_in address s none = none
  inflow_in address s (some tx) = inflow_of address s (compute_deltas bert_mint tx address)

  -- What one signature makes of the state `st`: the event to pass to `onInflow`, if any.
  unfoldable pub inflow : (address : String) → SignatureInfo → S → Option InflowEvent
  inflow address s st =
      if s.failed || is_already_credited s.signature st
      then none
      else inflow_in address s (get_parsed_transaction s.signature)

  abbrev pub after_inflow :
      InflowEvent → (rest : S → List InflowEvent × S) → Result (Unit {0}) × S → List InflowEvent × S
  after_inflow e rest (ok _, st) = (e ∷ (rest st).0, (rest st).1)
  after_inflow e rest (err _, st) = (e ∷ [], st)

  abbrev pub pass_on :
      (on_inflow : InflowEvent → S → Result (Unit {0}) × S)
      → (rest : S → List InflowEvent × S) → Option InflowEvent
      → S
      → List InflowEvent × S
  pass_on on_inflow rest none st = rest st
  pass_on on_inflow rest (some e) st = after_inflow e rest (on_inflow e st)

  -- The loop, with the events it has passed on; `on_inflow` may throw, which ends the poll.
  unfoldable pub poll_signatures :
      (on_inflow : InflowEvent → S → Result (Unit {0}) × S) (address : String)
      → List SignatureInfo
      → S
      → List InflowEvent × S
  poll_signatures on_inflow address [] st = ([], st)
  poll_signatures on_inflow address (s ∷ ss) st =
      pass_on on_inflow (poll_signatures on_inflow address ss) (inflow address s st) st

  unfoldable pub poll_address :
      (on_inflow : InflowEvent → S → Result (Unit {0}) × S) (address : String)
      (sigs_main sigs_ata : List SignatureInfo)
      → S
      → List InflowEvent × S
  poll_address on_inflow address sigs_main sigs_ata =
      poll_signatures on_inflow address (dedupe [] (sigs_main ++ sigs_ata))
