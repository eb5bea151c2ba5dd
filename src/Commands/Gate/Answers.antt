-- ===== src/Commands/Gate/Answers.antt =====
-- What the verification of a code in src/vault/commands.ts answers: that it passed, only for a right code.
use bert_mm_bot.Prelude.{
  ℕ, suc, ◌≡◌, ◌≢◌, ◌⊎◌, refl, sym, ◌∙◌, ap, subst, inl, inr, String, Bool, true, false, List,
  Option, none, some, find, arith, Option-cases,
}
use bert_mm_bot.Store.{
  Result, ok, err, UserRow, Operation, is_user, confirmed_at, get_user, get_user_secrets,
}
use bert_mm_bot.RateLimiter.{is_locked_out, record_failure}
use bert_mm_bot.StoreLaws.{Result-cases}
use bert_mm_bot.Totp.{VerifyResult, accepted, bad_format, invalid, replay, verify_code}
use bert_mm_bot.Commands.Chat.{
  Chat, Handler, Outside, continue, ◌>>=◌, pure, of_result, reads, match_option, now_ms,
}
use bert_mm_bot.Commands.Gate.{
  verify_totp, verify_totp_gated, counted, verify_secret, after_failure, passed, denied, locked_out,
}
use bert_mm_bot.Commands.Gate.Forward.{IsForward, IsForward-bind, forward_rules}
use bert_mm_bot.Commands.Gate.Guards.{
  HasFactor-later, Factor, to_factor, factor_of, HasFactor, IsCalm, Guards,
}
use bert_mm_bot.Commands.Gate.Rules.{Guards-limiting, Guards-now_ms, Guards-write_audit}

-- A handler that leaves the requests alone and whose answer is as `Q` says, unless the factor was shown.
pub record Answers {F : Type 0} (out : Outside F) (user : ℕ) (code : String) (start : Chat F)
    {A : Type 0} (Q : A → Type 0) (m : Handler F A) : Type 0 where
  pub at :
      (c : Chat F)
      → IsCalm out user code start true c
      → (IsCalm out user code start true (m c).1 × ((a : A) → (m c).0 ≡ ok a → Q a))
        ⊎ HasFactor out user code start (m c).1.moment
  pub forward : IsForward m

module _ {F : Type 0} (out : Outside F) (user : ℕ) where
  counted-IsForward : (v : VerifyResult) → IsForward (counted out user v)
  counted-IsForward (accepted n) = search forward_rules
  counted-IsForward bad_format = search forward_rules
  counted-IsForward invalid = search forward_rules
  counted-IsForward (replay n) = search forward_rules

  verify_secret-IsForward :
      (code : String) (last : Option ℕ) (secret : List ℕ × List ℕ)
      → IsForward (verify_secret out user code last secret)
  verify_secret-IsForward code last secret = search (forward_rules, counted-IsForward)

  verify_totp-IsForward : (code : String) → IsForward (verify_totp out user code)
  unfolding verify_totp
  verify_totp-IsForward code = search (forward_rules, verify_secret-IsForward)

abbrev factor : UserRow → Factor
factor r = record {
  secret_enc = r.totp_secret_enc;
  secret_iv = r.totp_secret_iv;
  enrolled_at = r.totp_enrolled_at;
  last_used_counter = r.totp_last_used_counter;
}

module _ {F : Type 0} {out : Outside F} {user : ℕ} {code : String} {start : Chat F} where
  Answers-pure :
      {A : Type 0} {Q : A → Type 0} (a : A) → Q a → Answers out user code start Q (pure a)
  unfolding pure
  Answers-pure {A} {Q} a q = record {
    at = λ c h. inl (h, λ b e. subst Q (same b e) q);
    forward = search forward_rules;
  }
    where
      same : (b : A) → Result.ok a ≡ ok b → a ≡ b
      same b e = cc

  Answers-bind :
      {A B : Type 0} {Q : B → Type 0} (m : Handler F A) (f : A → Handler F B)
      → Guards out user code start true m
      → ((a : A) → Answers out user code start Q (f a))
      → Answers out user code start Q (m >>= f)
  unfolding ◌>>=◌
  Answers-bind {A} {B} {Q} m f km kf = record {
    at = λ c h. go (m c) (km.at c h);
    forward = IsForward-bind m f km.forward (λ a. (kf a).forward);
  }
    where
      go :
          (x : Result A × Chat F)
          → IsCalm out user code start true x.1 ⊎ HasFactor out user code start x.1.moment
          → (IsCalm out user code start true (continue f x).1
              × ((b : B) → (continue f x).0 ≡ ok b → Q b))
            ⊎ HasFactor out user code start (continue f x).1.moment
      go (ok a, c) (inr shown) =
          inr (HasFactor-later out user code start c.moment _ ((kf a).forward.at c) shown)
      go (err e, c) (inr shown) = inr shown
      go (ok a, c) (inl h) = (kf a).at c h
      go (err e, c) (inl h) = inl (h, λ b e. cc)

  Answers-then :
      {A B : Type 0} {Q : A → Type 0} {R : B → Type 0} (m : Handler F A) (f : A → Handler F B)
      → ((a : A) → IsForward (f a))
      → Answers out user code start Q m
      → ((a : A) → Q a → Answers out user code start R (f a))
      → Answers out user code start R (m >>= f)
  unfolding ◌>>=◌
  Answers-then {A} {B} {Q} {R} m f ahead km kf = record {
    at = λ c h. go (m c) (km.at c h);
    forward = IsForward-bind m f km.forward ahead;
  }
    where
      go :
          (x : Result A × Chat F)
          → (IsCalm out user code start true x.1 × ((a : A) → x.0 ≡ ok a → Q a))
            ⊎ HasFactor out user code start x.1.moment
          → (IsCalm out user code start true (continue f x).1
              × ((b : B) → (continue f x).0 ≡ ok b → R b))
            ⊎ HasFactor out user code start (continue f x).1.moment
      go (ok a, c) (inr shown) =
          inr (HasFactor-later out user code start c.moment _ ((ahead a).at c) shown)
      go (err e, c) (inr shown) = inr shown
      go (ok a, c) (inl (h, q)) = (kf a (q a refl)).at c h
      go (err e, c) (inl (h, q)) = inl (h, λ b e. cc)

  Answers-match_option :
      {A B : Type 0} {Q : B → Type 0} (o : Option A) (m : Handler F B) (f : A → Handler F B)
      → Answers out user code start Q m
      → ((a : A) → Answers out user code start Q (f a))
      → Answers out user code start Q (match_option o m f)
  unfolding match_option
  Answers-match_option none m f km kf = km
  Answers-match_option (some a) m f km kf = kf a

  pub Guards-then :
      {A B : Type 0} {Q : A → Type 0} (m : Handler F A) (f : A → Handler F B)
      → ((a : A) → IsForward (f a))
      → Answers out user code start Q m
      → ((a : A) → Q a → Guards out user code start true (f a))
      → Guards out user code start true (m >>= f)
  unfolding ◌>>=◌
  Guards-then {A} {B} {Q} m f ahead km kf = record {
    at = λ c h. go (m c) (km.at c h);
    forward = IsForward-bind m f km.forward ahead;
  }
    where
      go :
          (x : Result A × Chat F)
          → (IsCalm out user code start true x.1 × ((a : A) → x.0 ≡ ok a → Q a))
            ⊎ HasFactor out user code start x.1.moment
          → IsCalm out user code start true (continue f x).1
            ⊎ HasFactor out user code start (continue f x).1.moment
      go (ok a, c) (inr shown) =
          inr (HasFactor-later out user code start c.moment _ ((ahead a).at c) shown)
      go (err e, c) (inr shown) = inr shown
      go (ok a, c) (inl (h, q)) = (kf a (q a refl)).at c h
      go (err e, c) (inl (h, q)) = inl h

  pub later :
      (c : Chat F)
      → IsCalm out user code start true c
      → IsCalm out user code start true (record c { moment = suc c.moment })
  later c h = record {
    same_requests = h.same_requests;
    same_factor = h.same_factor;
    same_unlock = h.same_unlock;
    later = omega arith;
  }

  verify_secret-Answers :
      (f : Factor) (enc iv : List ℕ)
      → factor_of user start.world.db ≡ some f
      → f.secret_enc ≡ some enc
      → f.secret_iv ≡ some iv
      → Answers out user code start
          (λ b. b ≡ false)
          (verify_secret out user code f.last_used_counter (enc, iv))
  unfolding of_result now_ms ◌>>=◌ pure
  verify_secret-Answers f enc iv is has_enc has_iv = record {
    at = λ c h. elim (Result-cases (out.decrypt enc iv)) [
      | inl (e, throws) ↦ rw throws (inl (h, λ b e. cc))
      | inr (secret, opens) ↦ rw opens (
          go c h secret opens
            (verify_code out.authenticator secret code f.last_used_counter (out.clock c.moment)
              (out.clock (suc c.moment)))
            refl)
    ];
    forward = verify_secret-IsForward out user code f.last_used_counter (enc, iv);
  }
    where
      go :
          (c : Chat F)
          → IsCalm out user code start true c
          → (secret : String) → out.decrypt enc iv ≡ ok secret
          → (v : VerifyResult)
          → v
            ≡ verify_code out.authenticator secret code f.last_used_counter
                (out.clock c.moment)
                (out.clock (suc c.moment))
          → (IsCalm out user code start true
                (counted out user v (record c { moment = suc (suc c.moment) })).1
              × ((b : Bool)
                  → (counted out user v (record c { moment = suc (suc c.moment) })).0 ≡ ok b
                  → b ≡ false))
            ⊎ HasFactor out user code start
                (counted out user v (record c { moment = suc (suc c.moment) })).1.moment
      go c h secret opens (accepted n) v = inr (
          inr (record {
            factor = f;
            enc = enc;
            iv = iv;
            secret = secret;
            moment = c.moment;
            since = h.later;
            before =
                let ahead =
                  (counted-IsForward out user (accepted n)).at
                    (record c { moment = suc (suc c.moment) }) in
                omega arith;
            counter = n;
            is_factor = is;
            has_enc = has_enc;
            has_iv = has_iv;
            opens = opens;
            is_right = sym v;
          }))
      go c h secret opens bad_format v = inl (later _ (later c h), λ b e. cc)
      go c h secret opens invalid v = inl (later _ (later c h), λ b e. cc)
      go c h secret opens (replay n) v = inl (later _ (later c h), λ b e. cc)

  verify_totp-Answers : Answers out user code start (λ b. b ≡ false) (verify_totp out user code)
  unfolding verify_totp get_user get_user_secrets reads match_option ◌>>=◌ pure factor_of
  verify_totp-Answers = record {
    at = λ c h. elim (Option-cases (find (is_user user) c.world.db.users)) [
      | inl e ↦ rw e (inl (h, λ b e. cc))
      | inr (r, e) ↦ elim (Option-cases (confirmed_at r.totp_enrolled_at)) [
        | inl unconfirmed ↦ rw (e, unconfirmed) (inl (h, λ b e. cc))
        | inr (t, is_confirmed) ↦ elim (Option-cases r.totp_secret_enc) [
          | inl no_enc ↦ rw (e, is_confirmed, e, no_enc) (inl (h, λ b e. cc))
          | inr (enc, has_enc) ↦ elim (Option-cases r.totp_secret_iv) [
            | inl no_iv ↦ rw (e, is_confirmed, e, has_enc, no_iv) (inl (h, λ b e. cc))
            | inr (iv, has_iv) ↦
                rw (e, is_confirmed, e, has_enc, has_iv)
                  ((verify_secret-Answers (factor r) enc iv
                      (sym (h.same_factor refl) ∙ ap to_factor e) has_enc has_iv).at
                    c h)
          ]
        ]
      ]
    ];
    forward = verify_totp-IsForward out user code;
  }

  after_failure-Answers :
      (now : ℕ) (op : Operation)
      → Answers out user code start (λ g. g ≢ passed) (after_failure out user now op)
  after_failure-Answers now op =
      Answers-bind _ _ (Guards-limiting (record_failure user now)) λ until.
        Answers-bind _ _ (Guards-write_audit _ _ _) λ _.
          Answers-match_option until _ _ (Answers-pure denied (λ e. cc)) λ t.
            Answers-bind _ _ (Guards-write_audit _ _ _) λ _. Answers-pure (locked_out t) (λ e. cc)

  pub verify_totp_gated-Answers :
      (op : Operation)
      → Answers out user code start (λ g. g ≢ passed) (verify_totp_gated out user code op)
  unfolding verify_totp_gated
  verify_totp_gated-Answers op = Answers-bind _ _ Guards-now_ms λ now.
      Answers-bind _ _ (Guards-limiting (is_locked_out user now)) λ until.
        Answers-match_option until _ _
          (Answers-then (verify_totp out user code) _
            (λ right. search forward_rules depth 20 fits 2000) verify_totp-Answers
            λ right wrong. rw wrong (after_failure-Answers now op))
          λ t. Answers-pure (locked_out t) (λ e. cc)
