-- ===== src/Commander/Polling.antt =====
-- src/telegramCommander.ts: `pollLoop` and `dispatchCallback`. What Telegram answers to `getUpdates` is a parameter,
-- and so are the handlers, which may throw.
pub mod Once
use bert_mm_bot.Prelude.{ℕ, suc, String, Bool, true, false, List, [], ◌∷◌, ◌++◌, Option, none, some}
use bert_mm_bot.Prelude.Int.{ℤ}
use bert_mm_bot.Store.{Result, ok, err}
use bert_mm_bot.Text.{is_empty, trim}
use bert_mm_bot.Commander.{IncomingMessage}

pub record CallbackQuery : Type 0 where
  pub id : String
  pub from : ℕ
  -- The chat of its message, if Telegram still has the message.
  pub chat_id : Option ℤ
  pub callback_data : Option String

pub record Message : Type 0 where
  pub chat_id : ℤ
  pub from : Option ℕ
  pub text : Option String

pub data Content : Type 0 where
  callback : CallbackQuery → Content
  message : Message → Content
  other : Content

pub record Update : Type 0 where
  pub update_id : ℕ
  pub content : Content

pub record ParsedCallback : Type 0 where
  pub id : String
  pub user_id : ℕ
  pub chat_id : ℤ
  pub callback_data : String

-- What the commander has done to its users, the oldest first.
pub data Event : Type 0 where
  dispatched : (update_id : ℕ) → IncomingMessage → Event
  routed : (update_id : ℕ) → ParsedCallback → Event
  -- `answerCallbackQuery`, which dismisses the spinner.
  answered : (id : String) → Event

pub record Commander : Type 0 where
  pub offset : ℕ
  pub events : List Event

abbrev pub non_empty : Option String → Option String
non_empty none = none
non_empty (some s) = elim (is_empty s) [ true ↦ none | false ↦ some s ]

-- `msg.from?.id ?? msg.chat.id`, where a private chat's id is its user's.
abbrev pub sender : (private_user : ℤ → ℕ) → Message → ℕ
sender private_user m = elim m.from [ some id ↦ id | none ↦ private_user m.chat_id ]

module _ (private_user : ℤ → ℕ)
    -- How `dispatch` ends for a message.
    (dispatch : IncomingMessage → Result (Unit {0}))
    -- Whether a router is set.
    (has_router : Bool) where
  abbrev pub happened : Event → Commander → Commander
  happened e c = record c { events = c.events ++ e ∷ [] }

  abbrev pub parsed : CallbackQuery → Option ℤ → Option String → Option ParsedCallback
  parsed cb none callback_data = none
  parsed cb (some chat_id) none = none
  parsed cb (some chat_id) (some callback_data) =
      some
        (record { id = cb.id; user_id = cb.from; chat_id = chat_id; callback_data = callback_data })

  abbrev pub route_parsed : (update_id : ℕ) → Option ParsedCallback → Commander → Commander
  route_parsed n none c = c
  route_parsed n (some q) c = elim has_router [ true ↦ happened (routed n q) c | false ↦ c ]

  -- The router may throw; that is caught, and the query is answered in any case.
  unfoldable pub dispatch_callback : (update_id : ℕ) → CallbackQuery → Commander → Commander
  dispatch_callback n cb c =
      happened (answered cb.id)
        (route_parsed n (parsed cb cb.chat_id (non_empty cb.callback_data)) c)

  abbrev pub incoming : Message → String → IncomingMessage
  incoming m text = record {
    chat_id = m.chat_id;
    user_id = sender private_user m;
    text = trim text;
  }

  abbrev pub dispatch_text :
      (update_id : ℕ) → Message → Option String → Commander → Result (Unit {0}) × Commander
  dispatch_text n m none c = (ok tt, c)
  dispatch_text n m (some text) c =
      (dispatch (incoming m text), happened (dispatched n (incoming m text)) c)

  abbrev pub handle_content : (update_id : ℕ) → Content → Commander → Result (Unit {0}) × Commander
  handle_content n (callback cb) c = (ok tt, dispatch_callback n cb c)
  handle_content n (message m) c = dispatch_text n m (non_empty m.text) c
  handle_content n other c = (ok tt, c)

  -- The offset moves before the update is handled.
  unfoldable pub handle_update : Update → Commander → Result (Unit {0}) × Commander
  handle_update u c = handle_content u.update_id u.content (record c { offset = suc u.update_id })

  -- A handler that throws ends the batch: the updates after it are fetched again.
  unfoldable pub handle_batch : List Update → Commander → Commander
  handle_batch [] c = c
  handle_batch (u ∷ us) c =
      let (r, d) = handle_update u c in elim r [ ok _ ↦ handle_batch us d | err _ ↦ d ]

  -- What `getUpdates` answers: nothing when the request fails.
  unfoldable pub poll : (get_updates : (offset : ℕ) → Option (List Update)) → Commander → Commander
  poll get_updates c = elim (get_updates c.offset) [ none ↦ c | some us ↦ handle_batch us c ]

  -- Any number of turns of the loop.
  unfoldable pub poll_loop : List ((offset : ℕ) → Option (List Update)) → Commander → Commander
  poll_loop [] c = c
  poll_loop (g ∷ gs) c = poll_loop gs (poll g c)
