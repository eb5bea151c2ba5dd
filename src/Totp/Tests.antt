-- ===== src/Totp/Tests.antt =====
-- Codes at concrete times.
use bert_mm_bot.Prelude.{◌/◌, ◌==◌, if◌then◌else◌, ◌≡◌, ◌≤◌, refl, true, none, some, arith}
use bert_mm_bot.Text.{is_digits}
use bert_mm_bot.Totp.{
  Authenticator, Delta, this_step, one_step_ago, accepted, replay, verify_code, verify_code_accepts,
  current_counter, After, Off,
}

-- "123456" is the code of step 2, so at step 3 it is one step off.
abbrev sample : Authenticator
sample = record {
  validate = λ secret code now. if now / 30000 == 2 then some this_step else some one_step_ago;
}

first_use : verify_code sample "S" "123456" none 65000 65001 ≡ accepted 2
unfolding verify_code current_counter is_digits
first_use = refl

-- The same code again, a step later.
second_use : verify_code sample "S" "123456" (some 2) 95000 95001 ≡ replay 2
unfolding verify_code current_counter is_digits
second_use = refl

-- The step ends between the two readings of the clock: the code passes again.
third_use : verify_code sample "S" "123456" (some 2) 89999 90000 ≡ accepted 3
unfolding verify_code current_counter is_digits
third_use = refl

past_the_first_step : 30000 ≤ 65001
past_the_first_step = omega arith

verify_code_accepts_example :
    (is_digits 6 "123456" ≡ true)
    × ((d : Delta) × (sample.validate "S" "123456" 65000 ≡ some d) × Off 2 65001 d)
    × After none 2
verify_code_accepts_example =
    verify_code_accepts sample "S" "123456" none 65000 65001 past_the_first_step first_use
