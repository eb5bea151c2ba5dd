-- ===== src/Commands/Gate/Needs.antt =====
-- A whole handler of src/vault/commands.ts and the second factor.
use bert_mm_bot.Prelude.{ℕ, ◌≡◌, ◌⊎◌, refl, inl, inr, String, Bool, true, Option, none, some, arith}
use bert_mm_bot.Store.{Db}
use bert_mm_bot.Commands.Chat.{Chat, Handler, Outside, ◌>>=◌, pure, asks, reads, match_option}
use bert_mm_bot.Commands.Gate.Guards.{requests, HasFactor, Guards}
use bert_mm_bot.Commands.Gate.Rules.{Guards-pure}

-- The handler leaves the requests alone, or the user has the factor when it begins.
pub record NeedsFactor {F : Type 0} (out : Outside F) (user : ℕ) (code : String) {A : Type 0}
    (m : Handler F A) : Type 0 where
  pub at :
      (c : Chat F)
      → (requests (m c).1.world.db ≡ requests c.world.db)
          × ((m c).1.unlocked_until ≡ c.unlocked_until)
        ⊎ HasFactor out user code c (m c).1.moment

module _ {F : Type 0} {out : Outside F} {user : ℕ} {code : String} where
  pub Guards-NeedsFactor :
      {A : Type 0} (watch : Bool) (m : Handler F A)
      → ((start : Chat F) → Guards out user code start watch m)
      → NeedsFactor out user code m
  Guards-NeedsFactor watch m h = record {
    at = λ c.
        elim ((h c).at c (record {
          same_requests = refl;
          same_factor = λ _. refl;
          same_unlock = refl;
          later = omega arith;
        })) [ inl calm ↦ inl (calm.same_requests, calm.same_unlock) | inr shown ↦ inr shown ];
  }

  pub asks-NeedsFactor :
      {A B : Type 0} (f : Chat F → A) (k : A → Handler F B)
      → ((a : A) → NeedsFactor out user code (k a))
      → NeedsFactor out user code (asks f >>= k)
  unfolding asks ◌>>=◌
  asks-NeedsFactor f k h = record { at = λ c. (h (f c)).at c }

  pub reads-NeedsFactor :
      {A B : Type 0} (f : Db F → A) (k : A → Handler F B)
      → ((a : A) → NeedsFactor out user code (k a))
      → NeedsFactor out user code (reads f >>= k)
  unfolding reads ◌>>=◌
  reads-NeedsFactor f k h = record { at = λ c. (h (f c.world.db)).at c }

  pub match_option-NeedsFactor :
      {A : Type 0} (o : Option A) (k : A → Handler F (Unit {0}))
      → ((a : A) → NeedsFactor out user code (k a))
      → NeedsFactor out user code (match_option o (pure tt) k)
  unfolding match_option
  match_option-NeedsFactor none k h = Guards-NeedsFactor true _ (λ start. Guards-pure tt)
  match_option-NeedsFactor (some a) k h = h a
