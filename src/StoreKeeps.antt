-- ===== src/StoreKeeps.antt =====
-- Actions on the database of src/vault/depositorStore.ts that keep a property of it, whether they
-- return or throw, and whichever statements fail.
use bert_mm_bot.Prelude.{◌≡◌, List, [], ◌∷◌, Option, none, inl, inr, Option-cases, Bool-cases}
use bert_mm_bot.Store.{
  World, Db, Action, Result, ok, err, Thrown, fails, statement, and_then, settle, recover,
  with_transaction, ◌>>=◌, try_catch, for_each, exec,
}

module _ {F : Type 0} (P : Db F → Type 0) where
  abbrev pub Keeps : {A : Type 0} → Action F A → Type 0
  Keeps m = (w : World F) → P w.db → P (m w).1.db

  pub statement-Keeps :
      {A : Type 0} (refused : Db F → Option Thrown) (answer : Db F → A) (f : Db F → Db F)
      → ((d : Db F) → refused d ≡ none → P d → P (f d))
      → Keeps (statement refused answer f)
  unfolding statement
  statement-Keeps refused answer f k w h = elim (Bool-cases (fails w.faults)) [
    | inl fault ↦ rw fault h
    | inr fine ↦ elim (Option-cases (refused w.db)) [
      | inl passes ↦ rw (fine, passes) (k w.db passes h)
      | inr (e, throws) ↦ rw (fine, throws) h
    ]
  ]

  pub exec-Keeps : (f : Db F → Db F) → ((d : Db F) → P d → P (f d)) → Keeps (exec f)
  exec-Keeps f k = statement-Keeps (λ _. none) (λ _. tt) f (λ d _. k d)

  pub >>=-Keeps :
      {A B : Type 0} (m : Action F A) (f : A → Action F B)
      → Keeps m
      → ((a : A) → Keeps (f a))
      → Keeps (m >>= f)
  unfolding and_then
  >>=-Keeps {A} {B} m f km kf w h = go (m w) (km w h)
    where
      go : (x : Result A × World F) → P x.1.db → P (and_then f x).1.db
      go (ok a, u) h = kf a u h
      go (err e, u) h = h

  pub try-Keeps :
      {A : Type 0} (m : Action F A) (f : Thrown → Action F A)
      → Keeps m
      → ((e : Thrown) → Keeps (f e))
      → Keeps (try_catch m f)
  unfolding recover
  try-Keeps {A} m f km kf w h = go (m w) (km w h)
    where
      go : (x : Result A × World F) → P x.1.db → P (recover f x).1.db
      go (ok a, u) h = h
      go (err e, u) h = kf e u h

  pub transaction-Keeps : {A : Type 0} (m : Action F A) → Keeps m → Keeps (with_transaction m)
  unfolding with_transaction settle
  transaction-Keeps {A} m km w h = go (m w) (km w h)
    where
      go : (x : Result A × World F) → P x.1.db → P (settle w.db x).1.db
      go (ok a, u) k = elim (Bool-cases (fails u.faults)) [
        | inl fault ↦ rw fault h
        | inr fine ↦ rw fine k
      ]
      go (err e, u) k = h

  pub for_each-Keeps :
      {A : Type 0} (f : A → Action F (Unit {0}))
      → ((a : A) → Keeps (f a))
      → (xs : List A) → Keeps (for_each f xs)
  for_each-Keeps f k [] w h = h
  for_each-Keeps f k (x ∷ xs) w h =
      >>=-Keeps (f x) (λ _. for_each f xs) (k x) (λ _. for_each-Keeps f k xs) w h
