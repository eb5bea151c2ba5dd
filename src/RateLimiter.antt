-- ===== src/RateLimiter.antt =====
-- src/vault/rateLimiter.ts: `TotpRateLimiter`. Times are epoch milliseconds, so that a difference
-- which would be negative passes the test `<= windowMs` as it does in the source.
pub mod Laws
mod Tests
use bert_mm_bot.Prelude.{
  ℕ, ◌+◌, ◌-◌, ◌*◌, ◌/◌, ◌%◌, Bool, true, false, not, List, [], ◌∷◌, ◌++◌, Option, none, some, ltb,
  leb, ◌==◌, if◌then◌else◌, length, select,
}

-- A JavaScript `Map` with numeric keys.
abbrev pub Table : Type 0 → Type 0
Table V = List (ℕ × V)

abbrev pub get : {V : Type 0} → ℕ → Table V → Option V
get k [] = none
get k (e ∷ t) = if k == e.0 then some e.1 else get k t

abbrev pub delete : {V : Type 0} → ℕ → Table V → Table V
delete k [] = []
delete k (e ∷ t) = let rest = delete k t in if k == e.0 then rest else e ∷ rest

abbrev pub put : {V : Type 0} → ℕ → V → Table V → Table V
put k v t = (k, v) ∷ delete k t

pub record TotpRateLimiter : Type 0 where
  pub window_ms : ℕ
  pub threshold : ℕ
  pub lockout_ms : ℕ
  pub failures : Table (List ℕ)
  pub locked_until : Table ℕ

abbrev pub default_limiter : TotpRateLimiter
default_limiter = record {
  window_ms = 15 * 60000;
  threshold = 5;
  lockout_ms = 15 * 60000;
  failures = [];
  locked_until = [];
}

abbrev pub unlock_if_expired :
    (user now : ℕ) → Option ℕ → TotpRateLimiter → Option ℕ × TotpRateLimiter
unlock_if_expired user now none l = (none, l)
unlock_if_expired user now (some until) l =
    if ltb now until
    then (some until, l)
    else (none, record l { locked_until = delete user l.locked_until })

-- The lockout's end, if the user is locked out; an expired lockout is dropped.
unfoldable pub is_locked_out : (user now : ℕ) → TotpRateLimiter → Option ℕ × TotpRateLimiter
is_locked_out user now l = unlock_if_expired user now (get user l.locked_until) l

abbrev pub or_empty : Option (List ℕ) → List ℕ
or_empty none = []
or_empty (some ts) = ts

abbrev pub within : (window now : ℕ) → List ℕ → List ℕ
within window now ts = select (λ t. leb (now - t) window) ts

-- The failures in the window, with the one at `now`.
abbrev pub recent_failures : (user now : ℕ) → TotpRateLimiter → List ℕ
recent_failures user now l = within l.window_ms now (or_empty (get user l.failures)) ++ now ∷ []

-- The lockout's end, if this failure trips the threshold.
unfoldable pub record_failure : (user now : ℕ) → TotpRateLimiter → Option ℕ × TotpRateLimiter
record_failure user now l =
    if leb l.threshold (length (recent_failures user now l))
    then (
      some (now + l.lockout_ms),
      record l {
        locked_until = put user (now + l.lockout_ms) l.locked_until;
        failures = delete user l.failures;
      },
    )
    else (none, record l { failures = put user (recent_failures user now l) l.failures })

unfoldable pub record_success : ℕ → TotpRateLimiter → TotpRateLimiter
record_success user l = record l {
  failures = delete user l.failures;
  locked_until = delete user l.locked_until;
}

pub record Remaining : Type 0 where
  pub minutes : ℕ
  pub seconds : ℕ

abbrev pub at_least_one : ℕ → ℕ
at_least_one n = if leb n 1 then 1 else n

-- The two numbers of the text "Xm Ys".
unfoldable pub format_lockout_remaining : ℕ → Remaining
format_lockout_remaining ms =
    let total_sec = at_least_one ((ms + 999) / 1000) in
    record { minutes = total_sec / 60; seconds = total_sec % 60 }
