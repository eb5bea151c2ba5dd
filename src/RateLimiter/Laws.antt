-- ===== src/RateLimiter/Laws.antt =====
-- The failures, lockouts and texts of src/vault/rateLimiter.ts.
use bert_mm_bot.Prelude.{
  ℕ, suc, ◌+◌, ◌-◌, ◌*◌, ◌≤◌, ◌<◌, ◌≡◌, ◌≢◌, ◌⊎◌, refl, ap, ◌∙◌, true, false, List, [], ◌∷◌, ◌++◌,
  Option, none, some, ltb, leb, ◌==◌, if◌then◌else◌, length, length-append, arith, inl, inr,
  Bool-cases,
}
use bert_mm_bot.RateLimiter.{
  Table, get, delete, put, TotpRateLimiter, is_locked_out, record_failure, record_success,
  unlock_if_expired, recent_failures, within, or_empty, format_lockout_remaining,
}

module _ {V : Type 0} where
  pub get-delete_self : (k : ℕ) (t : Table V) → get k (delete k t) ≡ none
  get-delete_self k [] = refl
  get-delete_self k (e ∷ t) = ground (arith, get-delete_self k t)

  pub get-delete_ne : (j k : ℕ) (t : Table V) → j ≢ k → get j (delete k t) ≡ get j t
  get-delete_ne j k [] h = refl
  get-delete_ne j k (e ∷ t) h = ground (arith, get-delete_ne j k t h)

  pub get-put_self : (k : ℕ) (v : V) (t : Table V) → get k (put k v t) ≡ some v
  get-put_self k v t = ground arith

  pub get-put_ne : (j k : ℕ) (v : V) (t : Table V) → j ≢ k → get j (put k v t) ≡ get j t
  get-put_ne j k v t h = ground (arith, get-delete_ne j k t h)

-- Every user's stored failures are fewer than the threshold.
pub record IsBelow (l : TotpRateLimiter) : Type 0 where
  pub some_allowed : 1 ≤ l.threshold
  pub below : (user : ℕ) → length (or_empty (get user l.failures)) < l.threshold

below-delete :
    (l : TotpRateLimiter) (user k : ℕ)
    → 1 ≤ l.threshold
    → length (or_empty (get user l.failures)) < l.threshold
    → length (or_empty (get user (delete k l.failures))) < l.threshold
below-delete l user k p h = elim (Bool-cases (user == k)) [
  | inl same ↦ ground (arith, get-delete_self user l.failures)
  | inr other ↦ ground (arith, get-delete_ne user k l.failures)
]

pub record_success-IsBelow :
    (user : ℕ) (l : TotpRateLimiter) → IsBelow l → IsBelow (record_success user l)
unfolding record_success
record_success-IsBelow user l h = record {
  some_allowed = h.some_allowed;
  below = λ u. below-delete l u user h.some_allowed (h.below u);
}

-- A failure keeps it so that every user's stored failures are fewer than the threshold.
pub record_failure-IsBelow :
    (user now : ℕ) (l : TotpRateLimiter) → IsBelow l → IsBelow (record_failure user now l).1
unfolding record_failure
record_failure-IsBelow user now l h =
    elim (Bool-cases (leb l.threshold (length (recent_failures user now l)))) [
      | inl trips ↦ rw trips (record {
        some_allowed = h.some_allowed;
        below = λ u. below-delete l u user h.some_allowed (h.below u);
      })
      | inr under ↦ rw under (record { some_allowed = h.some_allowed; below = stored under })
    ]
  where
    stored :
        leb l.threshold (length (recent_failures user now l)) ≡ false
        → (u : ℕ)
        → length (or_empty (get u (put user (recent_failures user now l) l.failures))) < l.threshold
    stored under u = elim (Bool-cases (u == user)) [
      | inl same ↦ ground (arith, under)
      | inr other ↦ ground (arith, h.below u, get-delete_ne u user l.failures)
    ]

-- How many of the failures are at most `window` milliseconds before `now`.
abbrev pub failures_since : (window now : ℕ) → List ℕ → ℕ
failures_since window now [] = 0
failures_since window now (t ∷ ts) =
    let rest = failures_since window now ts in if leb now (t + window) then suc rest else rest

length-within :
    (window now : ℕ) (ts : List ℕ) → length (within window now ts) ≡ failures_since window now ts
length-within window now [] = refl
length-within window now (t ∷ ts) =
    let rest = length-within window now ts in
    elim (Bool-cases (leb (now - t) window)) [
      | inl recent ↦
          let same : leb now (t + window) ≡ true = ground arith in rw (recent, same) (ap suc rest)
      | inr old ↦ let same : leb now (t + window) ≡ false = ground arith in rw (old, same) rest
    ]

-- A failure locks the user out exactly when it is the `threshold`-th of those at most `windowMs` old: then a
-- lockout until `lockoutMs` after it is answered and stored, and the failures are forgotten. Otherwise no
-- lockout changes, and the failures that are stored are the recent ones and this one.
pub record_failure_trips :
    (user now : ℕ) (l : TotpRateLimiter)
    → let earlier = failures_since l.window_ms now (or_empty (get user l.failures)) in
      let (tripped, after) = record_failure user now l in
      (l.threshold ≤ earlier + 1)
        × (tripped ≡ some (now + l.lockout_ms))
        × (get user after.locked_until ≡ some (now + l.lockout_ms))
        × (get user after.failures ≡ none)
      ⊎ (earlier + 1 < l.threshold)
        × (tripped ≡ none)
        × (after.locked_until ≡ l.locked_until)
        × (length (or_empty (get user after.failures)) ≡ earlier + 1)
unfolding record_failure
record_failure_trips user now l =
    let earlier : List ℕ = within l.window_ms now (or_empty (get user l.failures)) in
    let more : length (earlier ++ now ∷ []) ≡ length earlier + 1 =
      length-append earlier (now ∷ []) in
    let counted = length-within l.window_ms now (or_empty (get user l.failures)) in
    elim (Bool-cases (leb l.threshold (length (recent_failures user now l)))) [
      | inl trips ↦ inl (
        ground (arith, more, counted),
        ground arith,
        ground arith,
        ground (arith, get-delete_self user l.failures),
      )
      | inr under ↦
          inr (
            ground (arith, more, counted),
            ground arith,
            ground arith,
            ground (arith, more, counted),
          )
    ]

-- After a failure that trips the threshold the user is locked out until the lockout ends and not
-- from then on.
pub lockout_lasts :
    (user now later : ℕ) (l : TotpRateLimiter) {until : ℕ}
    → (record_failure user now l).0 ≡ some until
    → let answer = (is_locked_out user later (record_failure user now l).1).0 in
      (later < now + l.lockout_ms) × (answer ≡ some until)
      ⊎ (now + l.lockout_ms ≤ later) × (answer ≡ none)
unfolding record_failure is_locked_out
lockout_lasts user now later l trips = elim (Bool-cases (ltb later (now + l.lockout_ms))) [
  | inl before ↦ inl (ground arith, ground arith)
  | inr after ↦ inr (ground arith, ground arith)
]

unlock-answer :
    (user now : ℕ) (o : Option ℕ) (l l' : TotpRateLimiter)
    → (unlock_if_expired user now o l).0 ≡ (unlock_if_expired user now o l').0
unlock-answer user now none l l' = refl
unlock-answer user now (some until) l l' = ground arith

-- A failure, a success and a question whether a user is locked out leave the failures and the lockout of another.
pub others_untouched :
    (user other now later : ℕ) (l : TotpRateLimiter)
    → other ≢ user
    → let failed = (record_failure user now l).1 in
      let passed = record_success user l in
      let asked = (is_locked_out user now l).1 in
      ((is_locked_out other later failed).0 ≡ (is_locked_out other later l).0)
      × (get other failed.failures ≡ get other l.failures)
      × ((is_locked_out other later passed).0 ≡ (is_locked_out other later l).0)
      × (get other passed.failures ≡ get other l.failures)
      × ((is_locked_out other later asked).0 ≡ (is_locked_out other later l).0)
      × (get other asked.failures ≡ get other l.failures)
      × (get other asked.locked_until ≡ get other l.locked_until)
unfolding record_failure record_success is_locked_out
others_untouched user other now later l ne =
    let f = get-delete_ne other user l.failures ne in
    let u = get-delete_ne other user l.locked_until ne in
    let a : get other (is_locked_out user now l).1.locked_until ≡ get other l.locked_until =
      ground (arith, u) in
    (
      ground (arith, u),
      ground (arith, f),
      ground (arith, u),
      ground (arith, f),
      unlock-answer other later _ (is_locked_out user now l).1 l
          ∙ ap (λ o. (unlock_if_expired other later o l).0) a,
      ground arith,
      a,
    )

-- A successful code forgives everything.
pub success_unlocks :
    (user later : ℕ) (l : TotpRateLimiter)
    → let l' = record_success user l in
      ((is_locked_out user later l').0 ≡ none) × (get user l'.failures ≡ none)
unfolding record_success is_locked_out
success_unlocks user later l =
    (ground (arith, get-delete_self user l.locked_until), get-delete_self user l.failures)

-- The text names the remaining seconds, rounded up, and never no time at all.
pub format_lockout_remaining_lem :
    (ms : ℕ)
    → let r = format_lockout_remaining ms in
      (ms ≤ (r.minutes * 60 + r.seconds) * 1000)
      × (1 ≤ r.minutes * 60 + r.seconds)
      × (r.seconds < 60)
      × ((ms ≡ 0) ⊎ ((r.minutes * 60 + r.seconds) * 1000 < ms + 1000))
unfolding format_lockout_remaining
format_lockout_remaining_lem ms = (ground arith, ground arith, ground arith, ground arith)
