-- ===== src/Commands/Gate/Rules.antt =====
-- What a handler of src/vault/commands.ts does to the requests that need a second factor: it leaves them
-- alone, or the user has shown the factor. One rule for each way to build a handler.
use bert_mm_bot.Prelude.{
  ℕ, ◌≤◌, ◌≡◌, ◌⊎◌, refl, ◌∙◌, inl, inr, String, Bool, true, false, Option, none, some,
  if◌then◌else◌, arith,
}
use bert_mm_bot.Prelude.Int.{ℤ}
use bert_mm_bot.Store.{Db, Result, ok, err, write_audit, AuditEvent}
use bert_mm_bot.StoreKeeps.{exec-Keeps}
use bert_mm_bot.RateLimiter.{Table, TotpRateLimiter}
use bert_mm_bot.Commands.Chat.{
  Chat, Handler, Outside, PendingAction, Reply, continue, ◌>>=◌, pure, asks, of_result, reads, lift,
  set_pending, clear_pending, set_setup_failures, limiting, match_option, type_error, now_ms, reply,
  nav, fresh,
}
use bert_mm_bot.Commands.Gate.Forward.{IsForward-bind}
use bert_mm_bot.Commands.Gate.Guards.{
  requests, factor_of, IsQuiet, HasFactor, HasFactor-later, IsCalm, Guards,
}

module _ {F : Type 0} {out : Outside F} {user : ℕ} {code : String} {start : Chat F}
    {watch : Bool} where
  pub Guards-idle :
      {A : Type 0} (m : Handler F A)
      → ((c : Chat F)
          → (requests (m c).1.world.db ≡ requests c.world.db)
            × (factor_of user (m c).1.world.db ≡ factor_of user c.world.db)
            × ((m c).1.unlocked_until ≡ c.unlocked_until)
            × (c.moment ≤ (m c).1.moment))
      → Guards out user code start watch m
  Guards-idle m idle = record {
    at = λ c h.
        let (r, f, u, n) = idle c in
        let later = h.later in
        inl (record {
          same_requests = r ∙ h.same_requests;
          same_factor = λ on. f ∙ h.same_factor on;
          same_unlock = u ∙ h.same_unlock;
          later = omega arith;
        });
    forward = record { at = λ c. (idle c).3 };
  }

  pub Guards-pure : {A : Type 0} (a : A) → Guards out user code start watch (pure a)
  unfolding pure
  Guards-pure a = Guards-idle (pure a) λ c. (refl, refl, refl, omega arith)

  pub Guards-asks : {A : Type 0} (f : Chat F → A) → Guards out user code start watch (asks f)
  unfolding asks
  Guards-asks f = Guards-idle (asks f) λ c. (refl, refl, refl, omega arith)

  pub Guards-reads : {A : Type 0} (f : Db F → A) → Guards out user code start watch (reads f)
  unfolding reads
  Guards-reads f = Guards-idle (reads f) λ c. (refl, refl, refl, omega arith)

  pub Guards-of_result :
      {A : Type 0} (r : Result A) → Guards out user code start watch (of_result r)
  unfolding of_result
  Guards-of_result r = Guards-idle (of_result r) λ c. (refl, refl, refl, omega arith)

  pub Guards-type_error : {A : Type 0} → Guards out user code start watch (type_error {A = A})
  unfolding type_error
  Guards-type_error {A} = Guards-idle (type_error {A = A}) λ c. (refl, refl, refl, omega arith)

  pub Guards-set_pending :
      (id : ℕ) (a : PendingAction F) → Guards out user code start watch (set_pending id a)
  unfolding set_pending
  Guards-set_pending id a = Guards-idle (set_pending id a) λ c. (refl, refl, refl, omega arith)

  pub Guards-clear_pending : (id : ℕ) → Guards out user code start watch (clear_pending {F = F} id)
  unfolding clear_pending
  Guards-clear_pending id = Guards-idle (clear_pending id) λ c. (refl, refl, refl, omega arith)

  pub Guards-limiting :
      {A : Type 0} (f : TotpRateLimiter → A × TotpRateLimiter)
      → Guards out user code start watch (limiting f)
  unfolding limiting
  Guards-limiting f = Guards-idle (limiting f) λ c. (refl, refl, refl, omega arith)

  pub Guards-now_ms : Guards out user code start watch (now_ms out)
  unfolding now_ms
  Guards-now_ms = Guards-idle (now_ms out) λ c. (refl, refl, refl, omega arith)

  pub Guards-write_audit :
      (ts : ℕ) (id : Option ℕ) (e : AuditEvent F)
      → Guards out user code start watch (lift (write_audit ts id e))
  unfolding lift write_audit requests factor_of
  Guards-write_audit ts id e = Guards-idle (lift (write_audit ts id e)) λ c. (
    exec-Keeps (λ d. requests d ≡ requests c.world.db) _ (λ d h. h) c.world refl,
    exec-Keeps (λ d. factor_of user d ≡ factor_of user c.world.db) _ (λ d h. h) c.world refl,
    refl,
    omega arith,
  )

  pub Guards-fresh : {A : Type 0} (f : ℕ → A) → Guards out user code start watch (fresh out f)
  unfolding fresh
  Guards-fresh f = Guards-idle (fresh out f) λ c. (refl, refl, refl, omega arith)

  pub Guards-set_setup_failures :
      (f : Table ℕ → Table ℕ) → Guards out user code start watch (set_setup_failures {F = F} f)
  unfolding set_setup_failures
  Guards-set_setup_failures f =
      Guards-idle (set_setup_failures f) λ c. (refl, refl, refl, omega arith)

  pub Guards-reply :
      ⦃quiet : IsQuiet out⦄ (chat_id : ℤ) (r : Reply F)
      → Guards out user code start watch (reply out chat_id r)
  unfolding reply
  Guards-reply ⦃quiet⦄ chat_id r = Guards-idle (reply out chat_id r) λ c. (
    quiet.requests_kept c.moment c.world,
    quiet.factors_kept c.moment c.world user,
    refl,
    omega arith,
  )

  pub Guards-nav : ⦃quiet : IsQuiet out⦄ → Guards out user code start watch (nav out)
  unfolding nav
  Guards-nav ⦃quiet⦄ = Guards-idle (nav out) λ c. (
    quiet.requests_kept c.moment c.world,
    quiet.factors_kept c.moment c.world user,
    refl,
    omega arith,
  )

  pub Guards-bind :
      {A B : Type 0} (m : Handler F A) (f : A → Handler F B)
      → Guards out user code start watch m
      → ((a : A) → Guards out user code start watch (f a))
      → Guards out user code start watch (m >>= f)
  unfolding ◌>>=◌
  Guards-bind {A} {B} m f km kf = record {
    at = λ c h. go (m c) (km.at c h);
    forward = IsForward-bind m f km.forward (λ a. (kf a).forward);
  }
    where
      go :
          (x : Result A × Chat F)
          → IsCalm out user code start watch x.1 ⊎ HasFactor out user code start x.1.moment
          → IsCalm out user code start watch (continue f x).1
            ⊎ HasFactor out user code start (continue f x).1.moment
      go (ok a, c) (inr shown) =
          inr (HasFactor-later out user code start c.moment _ ((kf a).forward.at c) shown)
      go (err e, c) (inr shown) = inr shown
      go (ok a, c) (inl h) = (kf a).at c h
      go (err e, c) (inl h) = inl h

  pub Guards-if :
      {A : Type 0} (b : Bool) (m n : Handler F A)
      → Guards out user code start watch m
      → Guards out user code start watch n
      → Guards out user code start watch (if b then m else n)
  Guards-if true m n km kn = km
  Guards-if false m n km kn = kn

  pub Guards-match_option :
      {A B : Type 0} (o : Option A) (m : Handler F B) (f : A → Handler F B)
      → Guards out user code start watch m
      → ((a : A) → Guards out user code start watch (f a))
      → Guards out user code start watch (match_option o m f)
  unfolding match_option
  Guards-match_option none m f km kf = km
  Guards-match_option (some a) m f km kf = kf a
