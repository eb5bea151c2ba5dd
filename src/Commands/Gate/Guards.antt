-- ===== src/Commands/Gate/Guards.antt =====
-- What the operations of src/vault/commands.ts that need a second factor come to, and what it is to have shown
-- one.
use bert_mm_bot.Prelude.{
  ℕ, suc, ◌≤◌, ◌<◌, ◌≡◌, ◌⊎◌, String, Bool, true, false, List, Option, none, some, find, count, inl,
  inr, arith,
}
use bert_mm_bot.Store.{World, Db, ok, UserRow, PendingWhitelistChange, cancelled, is_user}
use bert_mm_bot.RateLimiter.{Table, get}
use bert_mm_bot.Totp.{accepted, verify_code}
use bert_mm_bot.Commands.Chat.{Chat, Handler, Outside}
use bert_mm_bot.Commands.Gate.Forward.{IsForward}

-- The columns of a user that the second factor consists of.
pub record Factor : Type 0 where
  pub secret_enc : Option (List ℕ)
  pub secret_iv : Option (List ℕ)
  pub enrolled_at : Option ℕ
  pub last_used_counter : Option ℕ

abbrev pub to_factor : Option UserRow → Option Factor
to_factor none = none
to_factor (some r) = some (record {
  secret_enc = r.totp_secret_enc;
  secret_iv = r.totp_secret_iv;
  enrolled_at = r.totp_enrolled_at;
  last_used_counter = r.totp_last_used_counter;
})

abbrev pub is_cancelled : PendingWhitelistChange → Bool
is_cancelled c = elim c.status [ cancelled ↦ true | _ ↦ false ]

-- How many withdrawals and whitelist changes were ever requested, and how many changes taken back.
pub record Requests : Type 0 where
  pub withdrawals : ℕ
  pub changes : ℕ
  pub cancellations : ℕ

module _ {F : Type 0} where
  unfoldable pub requests : Db F → Requests
  requests d = record {
    withdrawals = d.next_withdrawal;
    changes = d.next_change;
    cancellations = count is_cancelled d.changes;
  }

  unfoldable pub factor_of : ℕ → Db F → Option Factor
  factor_of user d = to_factor (find (is_user user) d.users)

  -- What the rest of the process leaves alone while a handler waits.
  pub record IsQuiet (out : Outside F) : Type 0 where
    pub requests_kept :
        (moment : ℕ) (w : World F) → requests (out.meanwhile moment w).db ≡ requests w.db
    pub factors_kept :
        (moment : ℕ) (w : World F) (user : ℕ)
        → factor_of user (out.meanwhile moment w).db ≡ factor_of user w.db

  module _ (out : Outside F) (user : ℕ) (code : String) where
    -- The code is right for the user's secret at the clock of a moment from `start` on and before `end`, and was
    -- not used before.
    pub record IsCode (start end : ℕ) (f : Option Factor) : Type 0 where
      pub factor : Factor
      pub enc : List ℕ
      pub iv : List ℕ
      pub secret : String
      pub moment : ℕ
      pub counter : ℕ
      pub is_factor : f ≡ some factor
      pub has_enc : factor.secret_enc ≡ some enc
      pub has_iv : factor.secret_iv ≡ some iv
      pub opens : out.decrypt enc iv ≡ ok secret
      pub since : start ≤ moment
      pub before : moment < end
      pub is_right :
          verify_code out.authenticator secret code factor.last_used_counter
            (out.clock moment)
            (out.clock (suc moment))
          ≡ accepted counter

    -- The user had an unlock that was alive at the clock of a moment from `start` on and before `end`.
    pub record IsUnlocked (start end : ℕ) (unlocked_until : Table ℕ) : Type 0 where
      pub until : ℕ
      pub moment : ℕ
      pub entry : get user unlocked_until ≡ some until
      pub since : start ≤ moment
      pub before : moment < end
      pub alive : out.clock moment < until

    -- The user showed the factor between the chat's moment and `end`.
    abbrev pub HasFactor : Chat F → (end : ℕ) → Type 0
    HasFactor c end =
        IsUnlocked c.moment end c.unlocked_until ⊎ IsCode c.moment end (factor_of user c.world.db)

    pub HasFactor-later :
        (c : Chat F) (end end' : ℕ) → end ≤ end' → HasFactor c end → HasFactor c end'
    HasFactor-later c end end' h (inl u) =
        let before = u.before in
        inl (record {
          until = u.until;
          moment = u.moment;
          entry = u.entry;
          since = u.since;
          before = omega arith;
          alive = u.alive;
        })
    HasFactor-later c end end' h (inr k) =
        let before = k.before in
        inr (record {
          factor = k.factor;
          enc = k.enc;
          iv = k.iv;
          secret = k.secret;
          moment = k.moment;
          counter = k.counter;
          is_factor = k.is_factor;
          has_enc = k.has_enc;
          has_iv = k.has_iv;
          opens = k.opens;
          since = k.since;
          before = omega arith;
          is_right = k.is_right;
        })

    module _ (start : Chat F) (watch : Bool) where
      -- As far as the factor goes, nothing happened since `start`; the user's columns are watched or not.
      pub record IsCalm (c : Chat F) : Type 0 where
        pub same_requests : requests c.world.db ≡ requests start.world.db
        pub same_factor : watch ≡ true → factor_of user c.world.db ≡ factor_of user start.world.db
        pub same_unlock : c.unlocked_until ≡ start.unlocked_until
        pub later : start.moment ≤ c.moment

      pub record Guards {A : Type 0} (m : Handler F A) : Type 0 where
        pub at : (c : Chat F) → IsCalm c → IsCalm (m c).1 ⊎ HasFactor start (m c).1.moment
        pub forward : IsForward m
