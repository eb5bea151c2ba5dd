-- ===== src/Store/Monad.antt =====
-- How the code talks to SQLite. A call may throw, and what it wrote before stays written unless a
-- transaction rolls it back. SQLite is not in the repository: that a statement can fail at any time
-- (a locked or full database) is the schedule `faults`, one entry for each statement that writes.
use bert_mm_bot.Prelude.{Bool, false, List, [], ◌∷◌, Option, none, some, if◌then◌else◌}
use bert_mm_bot.Store.Rows.{Db, Payment, Thrown, sqlite}

pub data Result {ℓ} (A : Type ℓ) : Type ℓ where
  ok : A → Result A
  err : Thrown → Result A

pub record World (F : Type 0) : Type 0 where
  pub db : Db F
  pub faults : List Bool
  -- What the chain has seen, the oldest transfer first.
  pub paid : List Payment

abbrev pub Action : Type 0 → Type 0 → Type 0
Action F A = World F → Result A × World F

-- Whether the next statement that writes fails.
unfoldable pub fails : List Bool → Bool
fails [] = false
fails (b ∷ _) = b

unfoldable pub later : List Bool → List Bool
later [] = []
later (_ ∷ bs) = bs

module _ {F : Type 0} where
  abbrev pub pure : {A : Type 0} → A → Action F A
  pure a w = (ok a, w)

  abbrev pub throw : {A : Type 0} → Thrown → Action F A
  throw e w = (err e, w)

  abbrev pub gets : {A : Type 0} → (Db F → A) → Action F A
  gets f w = (ok (f w.db), w)

  -- What a call outside the model answered.
  abbrev pub of_result : {A : Type 0} → Result A → Action F A
  of_result r w = (r, w)

  unfoldable pub and_then :
      {A B : Type 0} → (A → Action F B) → Result A × World F → Result B × World F
  and_then f (ok a, w) = f a w
  and_then f (err e, w) = (err e, w)

  infixl 5 ◌>>=◌ ◌>>◌
  abbrev pub ◌>>=◌ : {A B : Type 0} → Action F A → (A → Action F B) → Action F B
  ◌>>=◌ m f w = and_then f (m w)

  abbrev pub ◌>>◌ : {B : Type 0} → Action F (Unit {0}) → Action F B → Action F B
  m >> k = m >>= λ _. k

  -- `try { m } catch (e) { handler(e) }`
  unfoldable pub recover :
      {A : Type 0} → (Thrown → Action F A) → Result A × World F → Result A × World F
  recover handler (ok a, w) = (ok a, w)
  recover handler (err e, w) = handler e w

  abbrev pub try_catch : {A : Type 0} → Action F A → (Thrown → Action F A) → Action F A
  try_catch m handler w = recover handler (m w)

  -- `try { r = m } catch (e) { … }`, where what follows depends on how `m` ended.
  abbrev pub attempt : {A : Type 0} → Action F A → Action F (Result A)
  attempt m w = let (r, w') = m w in (ok r, w')

  abbrev pub when : Bool → Action F (Unit {0}) → Action F (Unit {0})
  when b m = if b then m else pure tt

  abbrev pub for_each : {A : Type 0} → (A → Action F (Unit {0})) → List A → Action F (Unit {0})
  for_each f [] = pure tt
  for_each f (x ∷ xs) = f x >> for_each f xs

  -- A statement that writes takes effect, or throws and changes nothing: by the schedule, or because
  -- a constraint refuses it. Its answer and its refusal are those of the database before it.
  unfoldable pub statement :
      {A : Type 0} → (Db F → Option Thrown) → (Db F → A) → (Db F → Db F) → Action F A
  statement refused answer f w =
      if fails w.faults
      then (err sqlite, record w { faults = later w.faults })
      else elim (refused w.db) [
        | some e ↦ (err e, record w { faults = later w.faults })
        | none ↦ (ok (answer w.db), record w { db = f w.db; faults = later w.faults })
      ]

  -- A statement that no constraint refuses.
  abbrev pub exec : (Db F → Db F) → Action F (Unit {0})
  exec f = statement (λ _. none) (λ _. tt) f

  -- COMMIT, which is a statement that may fail too, or ROLLBACK to `before`.
  unfoldable pub settle : {A : Type 0} → Db F → Result A × World F → Result A × World F
  settle before (ok a, w) =
      if fails w.faults
      then (err sqlite, record w { db = before; faults = later w.faults })
      else (ok a, record w { faults = later w.faults })
  settle before (err e, w) = (err e, record w { db = before })

  -- `StateStore.withTransaction`
  unfoldable pub with_transaction : {A : Type 0} → Action F A → Action F A
  unfolding settle
  with_transaction m w = settle w.db (m w)
