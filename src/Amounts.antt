-- ===== src/Amounts.antt =====
-- The numbers of src/vault/shareMath.ts and of every file that computes with prices and shares.
-- A JavaScript `number` that carries a price, a USD value or a share count is an IEEE double. The
-- doubles are not in the repository, so they are a parameter: a type with the operations that the
-- code calls, and no law but those that a theorem names.
pub mod Fixed
use bert_mm_bot.Prelude.{ℕ, Bool, List, Option}
use bert_mm_bot.Prelude.Int.{ℤ}

pub record Arith (F : Type 0) : Type 0 where
  pub add : F → F → F
  pub sub : F → F → F
  pub mul : F → F → F
  pub div : F → F → F
  -- Unary minus.
  pub neg : F → F
  pub lt : F → F → Bool
  pub le : F → F → Bool
  -- `Math.floor`, `Math.min`, `Math.abs`
  pub floor : F → F
  pub minimum : F → F → F
  pub abs : F → F
  -- The literal `m * 10 ** (-k)`.
  pub lit : ℕ → ℕ → F
  -- `Number(x)` of a bigint.
  pub of_int : ℤ → F
  -- `BigInt(x)`, which throws on a number that is no integer.
  pub to_int : F → Option ℤ
  -- SQLite's `SUM` over a column of reals, 0 if there is no row.
  pub sum : List F → F
