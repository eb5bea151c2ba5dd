-- ===== src/StoreLaws.antt =====
-- How a step of src/vault/depositorStore.ts that did not throw went: what each part answered, and
-- that the database is what the statement makes of it.
use mathlib.Core.Path.{ap₂}
use bert_mm_bot.Prelude.{◌≡◌, ◌⊎◌, refl, sym, ◌∙◌, ap, Option, none, some, inl, inr, arith}
use bert_mm_bot.Store.{
  World, Db, Action, Result, ok, err, Thrown, sqlite, statement, and_then, settle, with_transaction,
  ◌>>=◌, gets,
}

pub Result-cases :
    {A : Type 0} (r : Result A) → ((e : Thrown) × (r ≡ err e)) ⊎ ((a : A) × (r ≡ ok a))
Result-cases (err e) = inl (e, refl)
Result-cases (ok a) = inr (a, refl)

module _ {F A : Type 0} where
  pub statement-ok :
      (refused : Db F → Option Thrown) (answer : Db F → A) (f : Db F → Db F) (w : World F) {a : A}
      → (statement refused answer f w).0 ≡ ok a
      → ((statement refused answer f w).1.db ≡ f w.db) × (refused w.db ≡ none) × (answer w.db ≡ a)
  unfolding statement
  statement-ok refused answer f w h = ground arith

  pub statement-err :
      (refused : Db F → Option Thrown) (answer : Db F → A) (f : Db F → Db F) (w : World F)
      {e : Thrown}
      → (statement refused answer f w).0 ≡ err e
      → (statement refused answer f w).1.db ≡ w.db
  unfolding statement
  statement-err refused answer f w h = ground arith

  -- What a constraint refuses throws.
  pub statement_refused :
      (refused : Db F → Option Thrown) (answer : Db F → A) (f : Db F → Db F) (w : World F)
      {e : Thrown}
      → refused w.db ≡ some e
      → ((statement refused answer f w).0 ≡ err e) ⊎ ((statement refused answer f w).0 ≡ err sqlite)
  unfolding statement
  statement_refused refused answer f w h = ground arith

  pub settle-ok :
      (before : Db F) (x : Result A × World F) {a : A}
      → (settle before x).0 ≡ ok a
      → (x.0 ≡ ok a) × ((settle before x).1.db ≡ x.1.db)
  unfolding settle
  settle-ok before (ok b, w) h = ground arith
  settle-ok before (err e, w) h = cc

  -- A transaction that throws leaves the database as it was.
  pub settle-err :
      (before : Db F) (x : Result A × World F) {e : Thrown}
      → (settle before x).0 ≡ err e
      → (settle before x).1.db ≡ before
  unfolding settle
  settle-err before (ok b, w) h = ground arith
  settle-err before (err e, w) h = refl

  pub and_then-ok :
      {B : Type 0} (f : A → Action F B) (x : Result A × World F) {b : B}
      → (and_then f x).0 ≡ ok b
      → (a : A) × (x.0 ≡ ok a) × (and_then f x ≡ f a x.1) × ((f a x.1).0 ≡ ok b)
  unfolding and_then
  and_then-ok f (ok a, w) h = (a, refl, refl, h)
  and_then-ok f (err e, w) h = cc

-- What an action does if it does not throw: the answer and the new database, as functions of the old.
abbrev pub Does : {F A : Type 0} → Action F A → (Db F → A) → (Db F → Db F) → Type 0
Does {F} {A} m answer effect =
    (w : World F) (a : A) → (m w).0 ≡ ok a → (a ≡ answer w.db) × ((m w).1.db ≡ effect w.db)

module _ {F : Type 0} where
  pub statement-Does :
      {A : Type 0} (refused : Db F → Option Thrown) (answer : Db F → A) (f : Db F → Db F)
      → Does (statement refused answer f) answer f
  statement-Does refused answer f w a h =
      let (d, _, e) = statement-ok refused answer f w h in (sym e, d)

  pub >>=-Does :
      {A B : Type 0} (m : Action F A) (f : A → Action F B) (answer : Db F → A)
      (effect : Db F → Db F) (answer' : A → Db F → B) (effect' : A → Db F → Db F)
      → Does m answer effect
      → ((a : A) → Does (f a) (answer' a) (effect' a))
      → Does (m >>= f) (λ d. answer' (answer d) (effect d)) (λ d. effect' (answer d) (effect d))
  >>=-Does m f answer effect answer' effect' hm hf w b h =
      let (a, e, same, last) = and_then-ok f (m w) h in
      let (e1, d1) = hm w a e in
      let (e2, d2) = hf a (m w).1 b last in
      (
        e2 ∙ ap₂ (λ x d. answer' x d) e1 d1,
        ap (λ x. x.1.db) same ∙ d2 ∙ ap₂ (λ x d. effect' x d) e1 d1,
      )

  pub transaction-Does :
      {A : Type 0} (m : Action F A) (answer : Db F → A) (effect : Db F → Db F)
      → Does m answer effect
      → Does (with_transaction m) answer effect
  unfolding with_transaction
  transaction-Does m answer effect hm w a h =
      let (e, d) = settle-ok w.db (m w) h in let (e1, d1) = hm w a e in (e1, d ∙ d1)

  pub gets-Does : {A : Type 0} (f : Db F → A) → Does (gets f) f (λ d. d)
  gets-Does f w a h = (ground arith, refl)

  -- A transaction throws and changes nothing, or does all that its body does.
  pub with_transaction_cases :
      {A : Type 0} (m : Action F A) (answer : Db F → A) (effect : Db F → Db F)
      → Does m answer effect
      → (w : World F)
      → ((e : Thrown) × ((with_transaction m w).0 ≡ err e) × ((with_transaction m w).1.db ≡ w.db))
        ⊎ ((a : A) × ((m w).0 ≡ ok a)
            × ((with_transaction m w).0 ≡ ok a)
            × (a ≡ answer w.db)
            × ((with_transaction m w).1.db ≡ effect w.db))
  unfolding with_transaction
  with_transaction_cases {A = A} m answer effect hm w = go (settle w.db (m w)) refl
    where
      go :
          (x : Result A × World F)
          → x ≡ settle w.db (m w)
          → ((e : Thrown) × ((settle w.db (m w)).0 ≡ err e) × ((settle w.db (m w)).1.db ≡ w.db))
            ⊎ ((a : A) × ((m w).0 ≡ ok a)
                × ((settle w.db (m w)).0 ≡ ok a)
                × (a ≡ answer w.db)
                × ((settle w.db (m w)).1.db ≡ effect w.db))
      go (err e, u) same = let h = sym (ap (λ x. x.0) same) in inl (e, h, settle-err w.db (m w) h)
      go (ok a, u) same =
          let h = sym (ap (λ x. x.0) same) in
          let (inner, d) = settle-ok w.db (m w) h in
          let (same_answer, d') = hm w a inner in inr (a, inner, h, same_answer, d ∙ d')
