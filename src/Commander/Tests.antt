-- ===== src/Commander/Tests.antt =====
-- Messages to a commander with one command for the operator, and updates that come twice.
use bert_mm_bot.Prelude.{ℕ, ◌+◌, subst, ◌≡◌, ◌⊎◌, true, List, [], ◌∷◌, none, some, arith}
use bert_mm_bot.Prelude.Int.{pos}
use bert_mm_bot.Store.{err, sqlite}
use bert_mm_bot.Commander.{IncomingMessage, Entry, operator, command_name, lookup, dispatch}
use bert_mm_bot.Commander.Laws.{MayRun, dispatch_authorizes}
use bert_mm_bot.Commander.Polling.{Commander, Update, message, poll_loop}
use bert_mm_bot.Commander.Polling.Once.{From, IsOnce, poll_loop-IsOnce}

-- Handlers are numbers: 1 is /pausevault.
abbrev pause_command : Entry ℕ
pause_command = record { name = "pausevault"; kind = operator; fn = λ m. 1 }

abbrev intruder : IncomingMessage
intruder = record { chat_id = pos 9; user_id = 9; text = "/pausevault" }

dispatch_authorizes_example :
    (dispatch 5 (pause_command ∷ []) none 0 true intruder ≡ 0)
    ⊎ ((fn : IncomingMessage → ℕ) × (command_name "/pausevault" ≡ none)
        × (none ≡ some fn)
        × (true ≡ true)
        × (dispatch 5 (pause_command ∷ []) none 0 true intruder ≡ fn intruder))
    ⊎ (name : List ℕ) × (e : Entry ℕ) × (command_name "/pausevault" ≡ some name)
      × (lookup name (pause_command ∷ []) ≡ some e)
      × MayRun 5 e.kind true intruder
      × (dispatch 5 (pause_command ∷ []) none 0 true intruder ≡ e.fn intruder)
dispatch_authorizes_example = dispatch_authorizes 5 (pause_command ∷ []) none 0 true intruder

abbrev said : ℕ → Update
said n = record {
  update_id = n;
  content = message (record { chat_id = pos 7; from = some 7; text = some "hi" });
}

abbrev fresh : Commander
fresh = record { offset = 0; events = [] }

two-From : (n : ℕ) (us : List Update) → some (said n ∷ said (n + 1) ∷ []) ≡ some us → From n us
two-From n us h = subst (From n) same (omega arith, (omega arith, tt))
  where
    same : (said n ∷ said (n + 1) ∷ []) ≡ us
    same = cc

one-From : (n : ℕ) (us : List Update) → some (said n ∷ []) ≡ some us → From n us
one-From n us h = subst (From n) same (omega arith, tt)
  where
    same : (said n ∷ []) ≡ us
    same = cc

-- The handlers throw, so that the second update comes again.
poll_loop-IsOnce_example : IsOnce (
    poll_loop
      (λ z. 7)
      (λ m. err sqlite)
      true
      ((λ n. some (said n ∷ said (n + 1) ∷ [])) ∷ (λ n. some (said n ∷ [])) ∷ [])
      fresh)
poll_loop-IsOnce_example =
    poll_loop-IsOnce (λ z. 7) (λ m. err sqlite) true
      ((λ n. some (said n ∷ said (n + 1) ∷ [])) ∷ (λ n. some (said n ∷ [])) ∷ []) fresh
      (two-From, (one-From, tt)) (record { increasing = tt; behind = tt })
