-- ===== src/Commands/Gate/Forward.antt =====
-- The handlers of src/vault/commands.ts and the clock: none goes back to an earlier moment.
use bert_mm_bot.Prelude.{ℕ, ◌≤◌, Bool, true, false, Option, none, some, if◌then◌else◌, arith}
use bert_mm_bot.Prelude.Int.{ℤ}
use bert_mm_bot.Store.{Db, Action, Result, ok, err}
use bert_mm_bot.RateLimiter.{Table, TotpRateLimiter}
use bert_mm_bot.Commands.Chat.{
  Chat, Handler, Outside, PendingAction, Reply, continue, ◌>>=◌, pure, asks, of_result, reads, lift,
  set_pending, clear_pending, set_setup_failures, limiting, match_option, type_error, now_ms, reply,
  nav, fresh,
}
use bert_mm_bot.Commands.Gate.{unlock_until, set_unlocked}

pub record IsForward {F A : Type 0} (m : Handler F A) : Type 0 where
  pub at : (c : Chat F) → c.moment ≤ (m c).1.moment

module _ {F : Type 0} where
  pub IsForward-pure : {A : Type 0} (a : A) → IsForward {F = F} (pure a)
  unfolding pure
  IsForward-pure a = record { at = λ c. omega arith }

  pub IsForward-asks : {A : Type 0} (f : Chat F → A) → IsForward (asks f)
  unfolding asks
  IsForward-asks f = record { at = λ c. omega arith }

  pub IsForward-reads : {A : Type 0} (f : Db F → A) → IsForward (reads f)
  unfolding reads
  IsForward-reads f = record { at = λ c. omega arith }

  pub IsForward-of_result : {A : Type 0} (r : Result A) → IsForward {F = F} (of_result r)
  unfolding of_result
  IsForward-of_result r = record { at = λ c. omega arith }

  pub IsForward-type_error : {A : Type 0} → IsForward {F = F} {A = A} type_error
  unfolding type_error
  IsForward-type_error = record { at = λ c. omega arith }

  pub IsForward-lift : {A : Type 0} (m : Action F A) → IsForward (lift m)
  unfolding lift
  IsForward-lift m = record { at = λ c. omega arith }

  pub IsForward-set_pending : (id : ℕ) (a : PendingAction F) → IsForward (set_pending id a)
  unfolding set_pending
  IsForward-set_pending id a = record { at = λ c. omega arith }

  pub IsForward-clear_pending : (id : ℕ) → IsForward {F = F} (clear_pending id)
  unfolding clear_pending
  IsForward-clear_pending id = record { at = λ c. omega arith }

  pub IsForward-set_setup_failures :
      (f : Table ℕ → Table ℕ) → IsForward {F = F} (set_setup_failures f)
  unfolding set_setup_failures
  IsForward-set_setup_failures f = record { at = λ c. omega arith }

  pub IsForward-limiting :
      {A : Type 0} (f : TotpRateLimiter → A × TotpRateLimiter) → IsForward {F = F} (limiting f)
  unfolding limiting
  IsForward-limiting f = record { at = λ c. omega arith }

  module _ (out : Outside F) where
    pub IsForward-now_ms : IsForward (now_ms out)
    unfolding now_ms
    IsForward-now_ms = record { at = λ c. omega arith }

    pub IsForward-reply : (chat_id : ℤ) (r : Reply F) → IsForward (reply out chat_id r)
    unfolding reply
    IsForward-reply chat_id r = record { at = λ c. omega arith }

    pub IsForward-nav : IsForward (nav out)
    unfolding nav
    IsForward-nav = record { at = λ c. omega arith }

    pub IsForward-fresh : {A : Type 0} (f : ℕ → A) → IsForward (fresh out f)
    unfolding fresh
    IsForward-fresh f = record { at = λ c. omega arith }

    pub IsForward-unlock_until : (user until : ℕ) → IsForward (unlock_until out user until)
    unfolding unlock_until
    IsForward-unlock_until user until = record { at = λ c. omega arith }

  pub IsForward-bind :
      {A B : Type 0} (m : Handler F A) (f : A → Handler F B)
      → IsForward m
      → ((a : A) → IsForward (f a))
      → IsForward (m >>= f)
  unfolding ◌>>=◌
  IsForward-bind {A} {B} m f km kf = record { at = λ c. go c.moment (m c) (km.at c) }
    where
      go : (n : ℕ) (x : Result A × Chat F) → n ≤ x.1.moment → n ≤ (continue f x).1.moment
      go n (ok a, c) h = let k = (kf a).at c in omega arith
      go n (err e, c) h = h

  pub IsForward-if :
      {A : Type 0} (b : Bool) (m n : Handler F A)
      → IsForward m
      → IsForward n
      → IsForward (if b then m else n)
  IsForward-if true m n km kn = km
  IsForward-if false m n km kn = kn

  pub IsForward-match_option :
      {A B : Type 0} (o : Option A) (m : Handler F B) (f : A → Handler F B)
      → IsForward m
      → ((a : A) → IsForward (f a))
      → IsForward (match_option o m f)
  unfolding match_option
  IsForward-match_option none m f km kf = km
  IsForward-match_option (some a) m f km kf = kf a

  module _ (out : Outside F) where
    pub IsForward-set_unlocked : (user : ℕ) → IsForward (set_unlocked out user)
    unfolding set_unlocked
    IsForward-set_unlocked user =
        IsForward-bind _ _ (IsForward-now_ms out) λ now. IsForward-unlock_until out user _

pub ruleset forward_rules = (
  IsForward-pure, IsForward-asks, IsForward-reads, IsForward-of_result, IsForward-type_error,
  IsForward-lift, IsForward-set_pending, IsForward-clear_pending, IsForward-set_setup_failures,
  IsForward-limiting, IsForward-now_ms, IsForward-reply, IsForward-nav, IsForward-fresh,
  IsForward-unlock_until, IsForward-set_unlocked, IsForward-bind, IsForward-if,
  IsForward-match_option,
)
