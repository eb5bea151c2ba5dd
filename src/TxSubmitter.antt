-- ===== src/TxSubmitter.antt =====
-- src/txSubmitter.ts. What the network does with a transaction is the parameter `send`: for each attempt, whether the
-- transaction landed on the chain and whether the client learned of it. So is the Jito client.
pub mod Laws
mod Tests
use bert_mm_bot.Prelude.{
  ℕ, zero, suc, ◌+◌, ◌*◌, String, Bool, true, false, List, [], ◌∷◌, Option, none, some,
  if◌then◌else◌,
}
use bert_mm_bot.Store.{Result, ok, err, Thrown}

-- How one call of `sendAndConfirmTransaction` ended.
pub data Sent : Type 0 where
  confirmed : (sig : String) → Sent
  -- It threw, though the transaction landed or not.
  threw : (landed : Bool) → Thrown → Sent

-- How a call of the Jito client ended: no signature when its bundle was not seen to land; what it throws may be
-- an error of the transport after the bundle was taken.
pub data JitoAnswer : Type 0 where
  bundled : (sig : String) → JitoAnswer
  not_seen : (landed : Bool) → JitoAnswer
  rejected : (landed : Bool) → Thrown → JitoAnswer

-- A run of the submitter: its answer, the calls it made, how often the transaction landed, and the milliseconds
-- slept.
pub record Run : Type 0 where
  pub answer : Result String
  pub attempts : ℕ
  pub landings : ℕ
  pub slept_ms : ℕ

abbrev pub one_if : Bool → ℕ
one_if true = 1
one_if false = 0

abbrev pub dry_run_signature : String
dry_run_signature = "DRY_RUN_SIGNATURE"

abbrev pub answered : Result String → Run
answered r = record { answer = r; attempts = 0; landings = 0; slept_ms = 0 }

abbrev pub after_throw : (attempt : ℕ) (landed : Bool) → Run → Run
after_throw attempt landed r = record {
  answer = r.answer;
  attempts = suc r.attempts;
  landings = one_if landed + r.landings;
  slept_ms = 1000 * (attempt + 1) + r.slept_ms;
}

abbrev pub after_send : (attempt : ℕ) → Sent → (retry : Thrown → Run) → Run
after_send attempt (confirmed sig) retry = record {
  answer = ok sig;
  attempts = 1;
  landings = 1;
  slept_ms = 0;
}
after_send attempt (threw landed e) retry = after_throw attempt landed (retry e)

-- The loop from `attempt` on, with `left` attempts left; `last` is the last error.
unfoldable pub attempts_from : (send : ℕ → Sent) (attempt : ℕ) (last : Thrown) (left : ℕ) → Run
attempts_from send attempt last zero = answered (err last)
attempts_from send attempt last (suc left) =
    after_send attempt (send attempt) (λ e. attempts_from send (suc attempt) e left)

-- `lastErr` is undefined before the first attempt.
unfoldable pub submit :
    (dry_run : Bool) (max_retries : ℕ) (undefined : Thrown) (send : ℕ → Sent) → Run
submit dry_run max_retries undefined send =
    if dry_run then answered (ok dry_run_signature) else attempts_from send 0 undefined max_retries

abbrev pub landed_before : Bool → Run → Run
landed_before landed r = record r { landings = one_if landed + r.landings }

-- `submitProtected`: over Jito if there is a client, and over the public RPC when that does not answer a signature.
unfoldable pub submit_protected :
    (jito : Option JitoAnswer) (dry_run : Bool) (max_retries : ℕ) (undefined : Thrown)
    (send : ℕ → Sent)
    → Run
submit_protected none dry_run max_retries undefined send = submit dry_run max_retries undefined send
submit_protected (some j) dry_run max_retries undefined send =
    if dry_run then answered (ok dry_run_signature) else elim j [
      | bundled sig ↦ record { answer = ok sig; attempts = 0; landings = 1; slept_ms = 0 }
      | not_seen landed ↦ landed_before landed (submit dry_run max_retries undefined send)
      | rejected landed e ↦ landed_before landed (submit dry_run max_retries undefined send)
    ]
