-- ===== src/PriceOracle.antt =====
-- src/priceOracle.ts: `computeTrustedMid`.
use bert_mm_bot.Prelude.{
  ℕ, ◌/◌, String, List, [], ◌∷◌, Option, none, some, ltb, if◌then◌else◌, length, select, order_by,
  map,
}
use bert_mm_bot.Amounts.{Arith}
use bert_mm_bot.Strategy.{MidPrice}

pub record PriceSample (F : Type 0) : Type 0 where
  pub source : String
  pub bert_usd : F
  pub sol_usd : F
  pub bert_per_sol : F
  pub ts : ℕ

-- `xs[i]`, with a value for an index out of range, which the code does not reach.
abbrev pub get_elem : {A : Type 0} → A → List A → ℕ → A
get_elem a [] i = a
get_elem a (x ∷ xs) ℕ.zero = x
get_elem a (x ∷ xs) (ℕ.suc i) = get_elem a xs i

abbrev pub last_elem : {A : Type 0} → A → List A → A
last_elem a [] = a
last_elem a (x ∷ xs) = last_elem x xs

module _ {F : Type 0} ⦃num : Arith F⦄ where
  -- `xs.reduce((a, x) => a + x, acc)`
  abbrev pub reduce_add : F → List F → F
  reduce_add acc [] = acc
  reduce_add acc (x ∷ xs) = reduce_add (num.add acc x) xs

  abbrev pub size : {A : Type 0} → List A → F
  size xs = num.lit (length xs) 0

  abbrev pub mean_of : List F → F
  mean_of xs = num.div (reduce_add (num.lit 0 0) xs) (size xs)

  abbrev pub bert_prices : List (PriceSample F) → List F
  bert_prices samples = order_by num.lt (map (λ s. s.bert_usd) samples)

  -- Samples without a SOL price are passed over.
  abbrev pub valid_sol_prices : List (PriceSample F) → List F
  valid_sol_prices samples =
      map (λ s. s.sol_usd) (select (λ s. num.lt (num.lit 0 0) s.sol_usd) samples)

  abbrev pub sol_mean : F → List F → F
  sol_mean given [] = given
  sol_mean given (x ∷ xs) = mean_of (x ∷ xs)

  -- In basis points.
  abbrev pub divergence : List F → F
  divergence prices =
      num.mul
        (num.div (num.sub (last_elem (num.lit 0 0) prices) (get_elem (num.lit 0 0) prices 0))
          (get_elem (num.lit 0 0) prices (length prices / 2)))
        (num.lit 10000 0)

  unfoldable pub compute_trusted_mid :
      (samples : List (PriceSample F)) (sol_usd : F) (now : ℕ) (divergence_bps : F)
      → Option (MidPrice F)
  compute_trusted_mid samples sol_usd now divergence_bps =
      let prices : List F = bert_prices samples in
      let mean : F = mean_of prices in
      let sol_usd_mean : F = sol_mean sol_usd (valid_sol_prices samples) in
      if ltb (length samples) 2
      then none
      else if num.lt divergence_bps (divergence prices)
      then none
      else some (record {
        bert_usd = mean;
        sol_usd = sol_usd_mean;
        bert_per_sol = num.div sol_usd_mean mean;
        ts = now;
        sources = map (λ s. s.source) samples;
      })
