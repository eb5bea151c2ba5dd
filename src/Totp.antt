-- ===== src/Totp.antt =====
-- src/vault/totp.ts. What `TOTP.validate` of otpauth answers for a window of one step is the parameter
-- `validate`: by how many steps the code is off, if it is a code of the secret at all.
mod Tests
use bert_mm_bot.Prelude.{
  ℕ, ◌+◌, ◌-◌, ◌*◌, ◌/◌, ◌≤◌, ◌<◌, ◌≡◌, ◌⊎◌, refl, inl, inr, String, Bool, true, false, not, Option,
  none, some, leb, if◌then◌else◌, Bool-cases, Option-cases, arith,
}
use bert_mm_bot.Text.{is_digits}

pub data Delta : Type 0 where
  one_step_ago this_step one_step_ahead : Delta

pub record Authenticator : Type 0 where
  pub validate : (secret code : String) (now : ℕ) → Option Delta

pub data VerifyResult : Type 0 where
  accepted : (counter : ℕ) → VerifyResult
  bad_format invalid : VerifyResult
  replay : (counter : ℕ) → VerifyResult

-- Of `Date.now()`.
unfoldable pub current_counter : ℕ → ℕ
current_counter now = now / 1000 / 30

-- The clock is years past the first step, so the difference is one.
abbrev pub matched_counter : (now : ℕ) → Delta → ℕ
matched_counter now one_step_ago = current_counter now - 1
matched_counter now this_step = current_counter now
matched_counter now one_step_ahead = current_counter now + 1

abbrev pub fresh : (counter : ℕ) → (last_used_counter : Option ℕ) → VerifyResult
fresh counter none = accepted counter
fresh counter (some last) = if leb counter last then replay counter else accepted counter

abbrev pub of_delta : (now : ℕ) → (last_used_counter : Option ℕ) → Option Delta → VerifyResult
of_delta now last none = invalid
of_delta now last (some d) = fresh (matched_counter now d) last

-- `Date.now()` is read by the validation, at `validated_at`, and again for the counter, at `now`.
unfoldable pub verify_code :
    Authenticator
    → (secret code : String) → (last_used_counter : Option ℕ) → (validated_at now : ℕ)
    → VerifyResult
verify_code auth secret code last validated_at now =
    if not (is_digits 6 code)
    then bad_format
    else of_delta now last (auth.validate secret code validated_at)

-- The counter is later than the last one that was used.
abbrev pub After : Option ℕ → ℕ → Type 0
After none n = Unit {0}
After (some last) n = last < n

fresh-After : (n : ℕ) (last : Option ℕ) {m : ℕ} → fresh n last ≡ accepted m → After last m × (n ≡ m)
fresh-After n none h = (tt, ground arith)
fresh-After n (some last) h = (ground arith, ground arith)

-- By how many steps a code is off.
abbrev pub Off : (n : ℕ) → (now : ℕ) → Delta → Type 0
Off n now one_step_ago = n + 1 ≡ now / 1000 / 30
Off n now this_step = n ≡ now / 1000 / 30
Off n now one_step_ahead = n ≡ now / 1000 / 30 + 1

-- An accepted code has six digits and was one of the secret's when it was validated. The counter that is
-- stored for it is later than the last one used and is that of the step at the second reading of the clock,
-- or the one before or after as the validation said.
pub verify_code_accepts :
    (auth : Authenticator) (secret code : String) (last : Option ℕ) (validated_at now : ℕ) {n : ℕ}
    → 30000 ≤ now
    → verify_code auth secret code last validated_at now ≡ accepted n
    → (is_digits 6 code ≡ true)
      × ((d : Delta) × (auth.validate secret code validated_at ≡ some d) × Off n now d)
      × After last n
unfolding verify_code current_counter
verify_code_accepts auth secret code last validated_at now {n} past h =
    elim (Bool-cases (is_digits 6 code)) [
      | inr bad ↦ elim (malformed bad) [ ]
      | inl good ↦ elim (Option-cases (auth.validate secret code validated_at)) [
        | inl nothing ↦ elim (unmatched good nothing) [ ]
        | inr (d, e) ↦
            let same : fresh (matched_counter now d) last ≡ accepted n = ground (arith, good, e) in
            let (after, at) = fresh-After (matched_counter now d) last same in
            (good, (d, e, off d at), after)
      ]
    ]
  where
    malformed : is_digits 6 code ≡ false → ⊥
    malformed bad = ground (arith, bad)

    unmatched : is_digits 6 code ≡ true → auth.validate secret code validated_at ≡ none → ⊥
    unmatched good e = ground (arith, good, e)

    off : (d : Delta) → matched_counter now d ≡ n → Off n now d
    off one_step_ago e = omega arith
    off this_step e = omega arith
    off one_step_ahead e = omega arith
