-- ===== src/Commander/Polling/Once.antt =====
-- That src/telegramCommander.ts handles no update twice, whatever its handlers do.
use bert_mm_bot.Prelude.{
  ℕ, suc, ◌≤◌, ◌<◌, ◌≡◌, refl, ap, inl, inr, String, Bool, true, false, List, [], ◌∷◌, ◌++◌, Option,
  none, some, arith, All, append-All, Option-cases,
}
use bert_mm_bot.Prelude.Int.{ℤ}
use bert_mm_bot.Store.{Result, ok, err}
use bert_mm_bot.Commander.{IncomingMessage}
use bert_mm_bot.Commander.Polling.{
  Event, dispatched, routed, answered, Commander, Update, Content, callback, message, other,
  ParsedCallback, parsed, route_parsed, dispatch_callback, dispatch_text, non_empty, handle_content,
  handle_update, handle_batch, poll, poll_loop,
}

-- The updates that reached a handler, the oldest first.
abbrev pub handled : List Event → List ℕ
handled [] = []
handled (dispatched n _ ∷ es) = n ∷ handled es
handled (routed n _ ∷ es) = n ∷ handled es
handled (answered _ ∷ es) = handled es

abbrev pub Increasing : List ℕ → Type 0
Increasing [] = Unit {0}
Increasing (n ∷ ns) = All (λ m. n < m) ns × Increasing ns

-- Every update that was handled was handled once, in order, and is behind the offset.
pub record IsOnce (c : Commander) : Type 0 where
  pub increasing : Increasing (handled c.events)
  pub behind : All (λ n. n < c.offset) (handled c.events)

-- What Telegram answers for an offset: updates from it on, in order.
abbrev pub From : ℕ → List Update → Type 0
From n [] = Unit {0}
From n (u ∷ us) = (n ≤ u.update_id) × From (suc u.update_id) us

All-weaken : (m n : ℕ) (ns : List ℕ) → m ≤ n → All (λ k. k < m) ns → All (λ k. k < n) ns
All-weaken m n [] h hs = tt
All-weaken m n (k ∷ ns) h (j, hs) = (omega arith, All-weaken m n ns h hs)

append-Increasing :
    (n : ℕ) (ns : List ℕ) → All (λ k. k < n) ns → Increasing ns → Increasing (ns ++ n ∷ [])
append-Increasing n [] h hs = (tt, tt)
append-Increasing n (k ∷ ns) (j, js) (h, hs) =
    (append-All (λ m. k < m) ns n h j, append-Increasing n ns js hs)

handled-append :
    (es : List Event) (e : Event) → handled (es ++ e ∷ []) ≡ handled es ++ handled (e ∷ [])
handled-append [] (dispatched n m) = refl
handled-append [] (routed n q) = refl
handled-append [] (answered id) = refl
handled-append (dispatched n m ∷ es) e = ap (λ ns. n ∷ ns) (handled-append es e)
handled-append (routed n q ∷ es) e = ap (λ ns. n ∷ ns) (handled-append es e)
handled-append (answered id ∷ es) e = handled-append es e

-- Every update that was handled is before `n`, and the offset is just after `n`.
record IsBefore (n : ℕ) (c : Commander) : Type 0 where
  increasing : Increasing (handled c.events)
  before : All (λ k. k < n) (handled c.events)
  next : c.offset ≡ suc n

handles :
    (n : ℕ) (e : Event) (c : Commander)
    → handled (e ∷ []) ≡ n ∷ []
    → IsBefore n c
    → IsOnce (record c { events = c.events ++ e ∷ [] })
handles n e c is_n h = record {
  increasing =
      rw (handled-append c.events e, is_n)
        (append-Increasing n (handled c.events) h.before h.increasing);
  behind =
      rw (handled-append c.events e, is_n, h.next)
        (append-All (λ k. k < suc n) (handled c.events) n
          (All-weaken n (suc n) _ (omega arith) h.before) (omega arith));
}

rests : (n : ℕ) (c : Commander) → IsBefore n c → IsOnce c
rests n c h = record {
  increasing = h.increasing;
  behind = rw h.next (All-weaken n (suc n) _ (omega arith) h.before);
}

handled-answered : (es : List Event) (id : String) → handled (es ++ answered id ∷ []) ≡ handled es
handled-answered [] id = refl
handled-answered (dispatched n m ∷ es) id = ap (λ ns. n ∷ ns) (handled-answered es id)
handled-answered (routed n q ∷ es) id = ap (λ ns. n ∷ ns) (handled-answered es id)
handled-answered (answered d ∷ es) id = handled-answered es id

answers :
    (id : String) (c : Commander)
    → IsOnce c
    → IsOnce (record c { events = c.events ++ answered id ∷ [] })
answers id c h = record {
  increasing = rw (handled-answered c.events id) h.increasing;
  behind = rw (handled-answered c.events id) h.behind;
}

module _ (private_user : ℤ → ℕ) (dispatch : IncomingMessage → Result (Unit {0}))
    (has_router : Bool) where
  route_parsed-IsOnce :
      (router : Bool) (n : ℕ) (q : Option ParsedCallback) (c : Commander)
      → IsBefore n c
      → IsOnce (route_parsed private_user dispatch router n q c)
        × ((route_parsed private_user dispatch router n q c).offset ≡ suc n)
  route_parsed-IsOnce router n none c h = (rests n c h, h.next)
  route_parsed-IsOnce true n (some q) c h = (handles n (routed n q) c refl h, h.next)
  route_parsed-IsOnce false n (some q) c h = (rests n c h, h.next)

  handle_content-IsOnce :
      (n : ℕ) (content : Content) (c : Commander)
      → IsBefore n c
      → IsOnce (handle_content private_user dispatch has_router n content c).1
        × ((handle_content private_user dispatch has_router n content c).1.offset ≡ suc n)
  unfolding dispatch_callback
  handle_content-IsOnce n (callback cb) c h =
      let (once, next) =
        route_parsed-IsOnce has_router n
          (parsed private_user dispatch has_router cb cb.chat_id (non_empty cb.callback_data)) c
          h in
      (answers cb.id _ once, next)
  handle_content-IsOnce n other c h = (rests n c h, h.next)
  handle_content-IsOnce n (message m) c h = text (non_empty m.text)
    where
      text :
          (t : Option String)
          → IsOnce (dispatch_text private_user dispatch has_router n m t c).1
            × ((dispatch_text private_user dispatch has_router n m t c).1.offset ≡ suc n)
      text none = (rests n c h, h.next)
      text (some t) = (handles n (dispatched n _) c refl h, h.next)

  handle_update-IsOnce :
      (u : Update) (c : Commander)
      → c.offset ≤ u.update_id
      → IsOnce c
      → IsOnce (handle_update private_user dispatch has_router u c).1
        × ((handle_update private_user dispatch has_router u c).1.offset ≡ suc u.update_id)
  unfolding handle_update
  handle_update-IsOnce u c at h = handle_content-IsOnce u.update_id u.content _ (record {
    increasing = h.increasing;
    before = All-weaken c.offset u.update_id _ at h.behind;
    next = refl;
  })

  handle_batch-IsOnce :
      (us : List Update) (c : Commander)
      → From c.offset us
      → IsOnce c
      → IsOnce (handle_batch private_user dispatch has_router us c)
  unfolding handle_batch
  handle_batch-IsOnce [] c at h = h
  handle_batch-IsOnce (u ∷ us) c (at, rest) h =
      let (once, next) = handle_update-IsOnce u c at h in
      go (handle_update private_user dispatch has_router u c) (handle_batch-IsOnce us) once next
    where
      go :
          (x : Result (Unit {0}) × Commander)
          → ((d : Commander)
              → From d.offset us
              → IsOnce d
              → IsOnce (handle_batch private_user dispatch has_router us d))
          → IsOnce x.1
          → x.1.offset ≡ suc u.update_id
          → IsOnce (elim x.0 [
            | ok _ ↦ handle_batch private_user dispatch has_router us x.1
            | err _ ↦ x.1
          ])
      go (ok _, d) later once next = later d (rw next rest) once
      go (err _, d) later once next = once

  poll-IsOnce :
      (g : (offset : ℕ) → Option (List Update)) (c : Commander)
      → ((n : ℕ) (us : List Update) → g n ≡ some us → From n us)
      → IsOnce c
      → IsOnce (poll private_user dispatch has_router g c)
  unfolding poll
  poll-IsOnce g c from h = elim (Option-cases (g c.offset)) [
    | inl failed ↦ rw (poll, failed) h
    | inr (us, e) ↦ rw (poll, e) (handle_batch-IsOnce us c (from c.offset us e) h)
  ]

  -- However the handlers end, no update is handled twice, and updates are handled in order, as long as
  -- `getUpdates` answers with updates from the offset on, in order.
  pub poll_loop-IsOnce :
      (answers : List ((offset : ℕ) → Option (List Update))) (c : Commander)
      → All (λ g. (n : ℕ) (us : List Update) → g n ≡ some us → From n us) answers
      → IsOnce c
      → IsOnce (poll_loop private_user dispatch has_router answers c)
  unfolding poll_loop
  poll_loop-IsOnce [] c documented h = h
  poll_loop-IsOnce (g ∷ gs) c (from, documented) h =
      poll_loop-IsOnce gs _ documented (poll-IsOnce g c from h)
