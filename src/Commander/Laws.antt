-- ===== src/Commander/Laws.antt =====
-- Who may run what in src/telegramCommander.ts.
use bert_mm_bot.Prelude.{
  ℕ, ◌≡◌, ◌⊎◌, refl, subst, Bool, true, false, List, [], ◌∷◌, Option, none, some, inl, inr, ==_iff,
  All, Bool-cases, Option-cases,
}
use bert_mm_bot.Commander.{
  Kind, operator, vault, public, enrollment, IncomingMessage, Entry, command_name, lookup,
  permitted, dispatch, same_codes, lower_codes,
}

-- Who may run a command of a kind.
abbrev pub MayRun : (operator_user_id : ℕ) → Kind → (known : Bool) → IncomingMessage → Type 0
MayRun operator_user_id operator known msg = msg.user_id ≡ operator_user_id
MayRun operator_user_id vault known msg = known ≡ true
MayRun operator_user_id public known msg = Unit {0}
MayRun operator_user_id enrollment known msg = Unit {0}

module _ {M : Type 0} where
  lookup-All :
      (P : Entry M → Type 0) (name : List ℕ) (es : List (Entry M))
      → All P es
      → {x : Entry M} → lookup name es ≡ some x
      → P x
  unfolding lookup
  lookup-All P name [] h found = cc
  lookup-All P name (e ∷ es) (h, hs) {x} found =
      elim (Bool-cases (same_codes (lower_codes e.name) name)) [
        | inl same ↦ subst P (first same) h
        | inr other ↦ lookup-All P name es hs (next other)
      ]
    where
      first : same_codes (lower_codes e.name) name ≡ true → e ≡ x
      first same = cc

      next : same_codes (lower_codes e.name) name ≡ false → lookup name es ≡ some x
      next other = cc

  module _ (operator_user_id : ℕ) (registry : List (Entry M))
      (fallback : Option (IncomingMessage → M)) (skip : M) where
    permitted-MayRun :
        (kind : Kind) (known : Bool) (msg : IncomingMessage)
        → permitted operator_user_id registry fallback skip kind known msg ≡ true
        → MayRun operator_user_id kind known msg
    permitted-MayRun operator known msg h = (==_iff msg.user_id operator_user_id).0 h
    permitted-MayRun vault known msg h = h
    permitted-MayRun public known msg h = tt
    permitted-MayRun enrollment known msg h = tt

    -- A message runs nothing, or it is no command and the fallback runs for a user who has a row, or it
    -- names a registered command that its sender may run, which for an operator's command is the operator
    -- alone and for a vault command a user who has a row.
    pub dispatch_authorizes :
        (known : Bool) (msg : IncomingMessage)
        → (dispatch operator_user_id registry fallback skip known msg ≡ skip)
          ⊎ ((fn : IncomingMessage → M) × (command_name msg.text ≡ none)
              × (fallback ≡ some fn)
              × (known ≡ true)
              × (dispatch operator_user_id registry fallback skip known msg ≡ fn msg))
          ⊎ (name : List ℕ) × (e : Entry M) × (command_name msg.text ≡ some name)
            × (lookup name registry ≡ some e)
            × MayRun operator_user_id e.kind known msg
            × (dispatch operator_user_id registry fallback skip known msg ≡ e.fn msg)
    unfolding dispatch
    dispatch_authorizes known msg = elim (Option-cases (command_name msg.text)) [
      | inl plain ↦ elim (Option-cases fallback) [
        | inl unset ↦ inl (rw (plain, unset) refl)
        | inr (fn, set) ↦ elim (Bool-cases known) [
          | inl is_known ↦ inr (inl (fn, plain, set, is_known, rw (plain, set, is_known) refl))
          | inr unknown ↦ inl (rw (plain, set, unknown) refl)
        ]
      ]
      | inr (name, named) ↦ elim (Option-cases (lookup name registry)) [
        | inl absent ↦ inl (rw (named, absent) refl)
        | inr (e, found) ↦
            elim (Bool-cases (permitted operator_user_id registry fallback skip e.kind known msg)) [
              | inl may ↦ inr (
                  inr (
                    name,
                    e,
                    named,
                    found,
                    permitted-MayRun e.kind known msg may,
                    rw (named, found, may) refl,
                  ))
              | inr may_not ↦ inl (rw (named, found, may_not) refl)
            ]
      ]
    ]

    -- What holds of the fallback, of every registered handler and of doing nothing holds of what runs.
    pub dispatch-induction :
        (P : M → Type 0) (known : Bool) (msg : IncomingMessage)
        → P skip
        → ((fn : IncomingMessage → M) → fallback ≡ some fn → P (fn msg))
        → All (λ e. P (e.fn msg)) registry
        → P (dispatch operator_user_id registry fallback skip known msg)
    dispatch-induction P known msg skips falls hs = elim (dispatch_authorizes known msg) [
      | inl e ↦ rw e skips
      | inr (inl (fn, _, set, _, e)) ↦ rw e (falls fn set)
      | inr (inr (name, entry, _, found, _, e)) ↦
          rw e (lookup-All (λ x. P (x.fn msg)) name registry hs found)
    ]
