-- ===== src/Amounts/Fixed.antt =====
-- Numbers in millionths, on which the tests run.
use bert_mm_bot.Prelude.{ℕ, ◌+◌, ◌-◌, ◌*◌, ◌/◌, ◌^◌, List, [], ◌∷◌, some, ltb, leb, if◌then◌else◌}
use bert_mm_bot.Prelude.Int.{pos, pos_part}
use bert_mm_bot.Amounts.{Arith}

abbrev pub one_unit : ℕ
one_unit = 1000000

abbrev pub total_of : List ℕ → ℕ
total_of [] = 0
total_of (x ∷ xs) = x + total_of xs

instance abbrev pub fixed_arith : Arith ℕ
fixed_arith = record {
  add = λ a b. a + b;
  sub = λ a b. a - b;
  mul = λ a b. a * b / one_unit;
  div = λ a b. a * one_unit / b;
  neg = λ a. 0 - a;
  lt = ltb;
  le = leb;
  floor = λ a. a / one_unit * one_unit;
  minimum = λ a b. if leb a b then a else b;
  abs = λ a. a;
  lit = λ m k. m * one_unit / 10 ^ k;
  of_int = λ z. pos_part z * one_unit;
  to_int = λ a. some (pos (a / one_unit));
  sum = total_of;
}
