-- ===== src/TxSubmitter/Laws.antt =====
-- That the retries of src/txSubmitter.ts end, and what they answer.
use bert_mm_bot.Prelude.{
  ℕ, zero, suc, ◌+◌, ◌≤◌, ◌<◌, ◌≡◌, ◌⊎◌, refl, ap, ◌∙◌, String, Bool, false, inl, inr, arith,
}
use bert_mm_bot.Store.{ok, err, Thrown}
use bert_mm_bot.TxSubmitter.{
  Sent, confirmed, threw, Run, after_throw, attempts_from, submit, after_send,
}

-- The `n` attempts from `a` on all threw.
abbrev pub Threw : (send : ℕ → Sent) → (a n : ℕ) → Type 0
Threw send a zero = Unit {0}
Threw send a (suc n) =
    ((landed : Bool) × (e : Thrown) × (send a ≡ threw landed e)) × Threw send (suc a) n

-- How the loop ended: at the first attempt that was confirmed, or after all of them.
abbrev pub Ended : (send : ℕ → Sent) → (a left : ℕ) → Run → Type 0
Ended send a left r =
    ((k : ℕ) × (sig : String) × (k < left)
      × Threw send a k
      × (send (a + k) ≡ confirmed sig)
      × (r.answer ≡ ok sig)
      × (r.attempts ≡ suc k))
    ⊎ (e : Thrown) × Threw send a left × (r.answer ≡ err e) × (r.attempts ≡ left)

Sent-cases :
    (s : Sent)
    → ((sig : String) × (s ≡ confirmed sig))
      ⊎ ((landed : Bool) × (e : Thrown) × (s ≡ threw landed e))
Sent-cases (confirmed sig) = inl (sig, refl)
Sent-cases (threw landed e) = inr (landed, e, refl)

after_throw-Ended :
    (send : ℕ → Sent) (a left : ℕ) (landed : Bool) (e : Thrown) (r : Run)
    → send a ≡ threw landed e
    → Ended send (suc a) left r
    → Ended send a (suc left) (after_throw a landed r)
after_throw-Ended send a left landed e r h (inl (k, sig, under, before, at, answer, n)) =
    inl (suc k, sig, omega arith, ((landed, e, h), before), ap send shift ∙ at, answer, ap suc n)
  where
    shift : a + suc k ≡ suc a + k
    shift = omega arith
after_throw-Ended send a left landed e r h (inr (last, all, answer, n)) =
    inr (last, ((landed, e, h), all), answer, ap suc n)

attempts_from-Ended :
    (send : ℕ → Sent) (a : ℕ) (last : Thrown) (left : ℕ)
    → Ended send a left (attempts_from send a last left)
unfolding attempts_from
attempts_from-Ended send a last zero = inr (last, tt, refl, refl)
attempts_from-Ended send a last (suc left) =
    go (send a) refl (λ e. attempts_from-Ended send (suc a) e left)
  where
    same : a + zero ≡ a
    same = omega arith

    go :
        (s : Sent)
        → send a ≡ s
        → ((e : Thrown) → Ended send (suc a) left (attempts_from send (suc a) e left))
        → Ended send a (suc left) (after_send a s (λ e. attempts_from send (suc a) e left))
    go (confirmed sig) h later = inl (zero, sig, omega arith, tt, ap send same ∙ h, refl, refl)
    go (threw landed e) h later =
        after_throw-Ended send a left landed e (attempts_from send (suc a) e left) h (later e)

-- A submission returns after at most `maxRetries` attempts: with the signature of the first attempt that was
-- confirmed, or with an exception when all of them threw.
pub submit_ends :
    (max_retries : ℕ) (undefined : Thrown) (send : ℕ → Sent)
    → Ended send 0 max_retries (submit false max_retries undefined send)
      × ((submit false max_retries undefined send).attempts ≤ max_retries)
unfolding submit
submit_ends max_retries undefined send =
    let ended = attempts_from-Ended send 0 undefined max_retries in
    (ended, bounded (attempts_from send 0 undefined max_retries) ended)
  where
    bounded : (r : Run) → Ended send 0 max_retries r → r.attempts ≤ max_retries
    bounded r (inl (k, sig, under, before, at, answer, n)) = omega arith
    bounded r (inr (e, all, answer, n)) = omega arith
