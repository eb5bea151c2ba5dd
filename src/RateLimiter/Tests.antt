-- ===== src/RateLimiter/Tests.antt =====
-- Runs of the rate limiter, and the theorems about it at concrete inputs.
use bert_mm_bot.Prelude.{ℕ, ◌+◌, ◌*◌, ◌≤◌, ◌<◌, ◌≡◌, ◌⊎◌, refl, [], ◌∷◌, none, some, length, arith}
use bert_mm_bot.RateLimiter.{
  TotpRateLimiter, default_limiter, get, or_empty, is_locked_out, record_failure, record_success,
  format_lockout_remaining,
}
use bert_mm_bot.RateLimiter.Laws.{
  failures_since, IsBelow, record_failure-IsBelow, record_failure_trips, lockout_lasts,
  others_untouched, success_unlocks, format_lockout_remaining_lem,
}

abbrev start : ℕ
start = 1000000000

-- Four failures within the window.
abbrev after_four : TotpRateLimiter
after_four = record default_limiter {
  failures = (7, start ∷ (start + 1) ∷ (start + 2) ∷ (start + 3) ∷ []) ∷ [];
}

fifth_trips : (record_failure 7 (start + 4) after_four).0 ≡ some (start + 4 + 15 * 60000)
unfolding record_failure
fifth_trips = refl

default_limiter-IsBelow : IsBelow default_limiter
default_limiter-IsBelow = record { some_allowed = omega arith; below = λ u. ground arith }

record_failure-IsBelow_example : IsBelow (record_failure 7 start default_limiter).1
record_failure-IsBelow_example =
    record_failure-IsBelow 7 start default_limiter default_limiter-IsBelow

record_failure_trips_example :
    let earlier = failures_since (15 * 60000) (start + 4) (or_empty (get 7 after_four.failures)) in
    let (tripped, after) = record_failure 7 (start + 4) after_four in
    (5 ≤ earlier + 1)
      × (tripped ≡ some (start + 4 + 15 * 60000))
      × (get 7 after.locked_until ≡ some (start + 4 + 15 * 60000))
      × (get 7 after.failures ≡ none)
    ⊎ (earlier + 1 < 5)
      × (tripped ≡ none)
      × (after.locked_until ≡ [])
      × (length (or_empty (get 7 after.failures)) ≡ earlier + 1)
record_failure_trips_example = record_failure_trips 7 (start + 4) after_four

lockout_lasts_example :
    let answer = (is_locked_out 7 (start + 9) (record_failure 7 (start + 4) after_four).1).0 in
    (start + 9 < start + 4 + 15 * 60000) × (answer ≡ some (start + 4 + 15 * 60000))
    ⊎ (start + 4 + 15 * 60000 ≤ start + 9) × (answer ≡ none)
lockout_lasts_example = lockout_lasts 7 (start + 4) (start + 9) after_four fifth_trips

others_untouched_example :
    let failed = (record_failure 7 (start + 4) after_four).1 in
    let passed = record_success 7 after_four in
    let asked = (is_locked_out 7 (start + 4) after_four).1 in
    ((is_locked_out 8 (start + 9) failed).0 ≡ (is_locked_out 8 (start + 9) after_four).0)
    × (get 8 failed.failures ≡ get 8 after_four.failures)
    × ((is_locked_out 8 (start + 9) passed).0 ≡ (is_locked_out 8 (start + 9) after_four).0)
    × (get 8 passed.failures ≡ get 8 after_four.failures)
    × ((is_locked_out 8 (start + 9) asked).0 ≡ (is_locked_out 8 (start + 9) after_four).0)
    × (get 8 asked.failures ≡ get 8 after_four.failures)
    × (get 8 asked.locked_until ≡ get 8 after_four.locked_until)
others_untouched_example =
    others_untouched 7 8 (start + 4) (start + 9) after_four (λ e. omega (arith, e))

success_unlocks_example :
    let l = record_success 7 after_four in
    ((is_locked_out 7 (start + 9) l).0 ≡ none) × (get 7 l.failures ≡ none)
success_unlocks_example = success_unlocks 7 (start + 9) after_four

abbrev remaining : ℕ
remaining = 61001

format_lockout_remaining_example :
    let r = format_lockout_remaining 61001 in
    (61001 ≤ (r.minutes * 60 + r.seconds) * 1000)
    × (1 ≤ r.minutes * 60 + r.seconds)
    × (r.seconds < 60)
    × ((remaining ≡ 0) ⊎ ((r.minutes * 60 + r.seconds) * 1000 < 61001 + 1000))
format_lockout_remaining_example = format_lockout_remaining_lem remaining
