-- ===== src/Prelude/Members.antt =====
-- What holds of every row of a table, through the statements that change or read the table.
use mathlib.Core.Path.{◌≡◌, refl}
use mathlib.Core.Logic.{◌⊎◌, inl, inr}
use mathlib.Core.Bool.{Bool, true}
use mathlib.Core.List.{List, [], ◌∷◌, ◌++◌}
use bert_mm_bot.Prelude.Tests.{Bool-cases}
use bert_mm_bot.Prelude.Lists.{select, update, insert_by, order_by}

module _ {A : Type 0} (P : A → Type 0) where
  abbrev pub All : List A → Type 0
  All [] = Unit {0}
  All (x ∷ xs) = P x × All xs

  pub append-All : (xs : List A) (y : A) → All xs → P y → All (xs ++ y ∷ [])
  append-All [] y h k = (k, tt)
  append-All (x ∷ xs) y (h, hs) k = (h, append-All xs y hs k)

  pub update-All :
      (p : A → Bool) (f : A → A)
      → ((x : A) → P x → P (f x))
      → (xs : List A) → All xs
      → All (update p f xs)
  update-All p f k [] h = tt
  update-All p f k (x ∷ xs) (h, hs) = elim (Bool-cases (p x)) [
    | inl holds ↦ rw holds (k x h, update-All p f k xs hs)
    | inr fails ↦ rw fails (h, update-All p f k xs hs)
  ]

  insert_by-All :
      (before : A → A → Bool) (x : A) (ys : List A) → P x → All ys → All (insert_by before x ys)
  insert_by-All before x [] h hs = (h, tt)
  insert_by-All before x (y ∷ ys) h (k, ks) = elim (Bool-cases (before y x)) [
    | inl holds ↦ rw holds (k, insert_by-All before x ys h ks)
    | inr fails ↦ rw fails (h, (k, ks))
  ]

  pub order_by-All : (before : A → A → Bool) (xs : List A) → All xs → All (order_by before xs)
  order_by-All before [] h = tt
  order_by-All before (x ∷ xs) (h, hs) =
      insert_by-All before x (order_by before xs) h (order_by-All before xs hs)

module _ {A : Type 0} (P Q : A → Type 0) where
  -- The rows that `SELECT … WHERE p` reads, with what the test says of them.
  pub select-All :
      (p : A → Bool)
      → ((x : A) → p x ≡ true → P x → Q x)
      → (xs : List A) → All P xs
      → All Q (select p xs)
  select-All p k [] h = tt
  select-All p k (x ∷ xs) (h, hs) = elim (Bool-cases (p x)) [
    | inl holds ↦ rw holds (k x holds h, select-All p k xs hs)
    | inr fails ↦ rw fails (select-All p k xs hs)
  ]

module _ {A : Type 0} where
  abbrev pub Mem : A → List A → Type 0
  Mem a [] = ⊥
  Mem a (x ∷ xs) = (a ≡ x) ⊎ Mem a xs

  -- Every row of a table is a row of a table that contains it.
  rows-All :
      (all_rows xs : List A) → ((a : A) → Mem a xs → Mem a all_rows) → All (λ a. Mem a all_rows) xs
  rows-All all_rows [] h = tt
  rows-All all_rows (x ∷ xs) h = (h x (inl refl), rows-All all_rows xs (λ a m. h a (inr m)))

  pub Mem-All : (xs : List A) → All (λ a. Mem a xs) xs
  Mem-All xs = rows-All xs xs (λ a m. m)

  pub both-All : (P Q : A → Type 0) (xs : List A) → All P xs → All Q xs → All (λ a. P a × Q a) xs
  both-All P Q [] h k = tt
  both-All P Q (x ∷ xs) (h, hs) (k, ks) = ((h, k), both-All P Q xs hs ks)
