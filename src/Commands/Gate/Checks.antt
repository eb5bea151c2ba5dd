-- ===== src/Commands/Gate/Checks.antt =====
-- Behind the gate of src/vault/commands.ts: no handler comes to what needs a factor unless the user has
-- shown one.
use bert_mm_bot.Prelude.{
  ℕ, suc, ◌≢◌, refl, sym, ◌∙◌, ap, inl, inr, String, Bool, true, false, ltb, arith, Bool-cases,
  Option-cases,
}
use bert_mm_bot.Prelude.Int.{ℤ}
use bert_mm_bot.Store.{VaultUser, Operation}
use bert_mm_bot.RateLimiter.{get, is_locked_out}
use bert_mm_bot.Commands.Chat.{
  Chat, Handler, Outside, ◌>>=◌, pure, asks, match_option, enroll_first, now_ms,
}
use bert_mm_bot.Commands.Gate.{
  is_unlocked, reject_if_locked, verify_totp_gated, respond_gated, act_or_ask, unless_locked,
  for_enrolled, answered, GatedResult, passed, denied, locked_out,
}
use bert_mm_bot.Commands.Gate.Forward.{IsForward, forward_rules}
use bert_mm_bot.Commands.Gate.Guards.{IsQuiet, Guards}
use bert_mm_bot.Commands.Gate.Rules.{
  Guards-asks, Guards-of_result, Guards-type_error, Guards-set_pending, Guards-clear_pending,
  Guards-fresh, Guards-set_setup_failures, Guards-nav, Guards-pure, Guards-reads, Guards-limiting,
  Guards-now_ms, Guards-write_audit, Guards-reply, Guards-bind, Guards-if, Guards-match_option,
}
use bert_mm_bot.Commands.Gate.Answers.{Guards-then, verify_totp_gated-Answers, later}

act_or_ask-IsForward :
    {F : Type 0} (out : Outside F) (user : ℕ) (act ask : Handler F (Unit {0}))
    → IsForward act
    → IsForward ask
    → IsForward (act_or_ask out user act ask)
unfolding act_or_ask is_unlocked
act_or_ask-IsForward out user act ask acting asking = search forward_rules depth 20 fits 2000

module _ {F : Type 0} {out : Outside F} {user : ℕ} {code : String} {start : Chat F} where
  pub Guards-respond_gated :
      ⦃quiet : IsQuiet out⦄ (chat_id : ℤ) (op : Operation) (act : Handler F (Unit {0}))
      → IsForward act
      → Guards out user code start true (respond_gated out chat_id user code op act)
  unfolding respond_gated
  Guards-respond_gated ⦃quiet⦄ chat_id op act acting =
      Guards-then (verify_totp_gated out user code op) _ onward (verify_totp_gated-Answers op)
        refused
    where
      onward : (g : GatedResult) → IsForward (answered out chat_id op act g)
      onward passed = acting
      onward denied = search forward_rules
      onward (locked_out until) = search forward_rules

      refused :
          (g : GatedResult)
          → g ≢ passed
          → Guards out user code start true (answered out chat_id op act g)
      refused passed h = elim (h refl) [ ]
      refused denied h = Guards-reply chat_id _
      refused (locked_out until) h = Guards-bind _ _ Guards-now_ms λ now. Guards-reply chat_id _

  pub Guards-act_or_ask :
      (act ask : Handler F (Unit {0}))
      → IsForward act
      → Guards out user code start true ask
      → Guards out user code start true (act_or_ask out user act ask)
  unfolding act_or_ask is_unlocked asks now_ms pure match_option ◌>>=◌
  Guards-act_or_ask act ask acting asking = record {
    at = λ c h. elim (Option-cases (get user c.unlocked_until)) [
      | inl e ↦ rw e (asking.at c h)
      | inr (t, e) ↦ elim (Bool-cases (ltb (out.clock c.moment) t)) [
        | inr over ↦ rw (e, over) (asking.at (record c { moment = suc c.moment }) (later c h))
        | inl alive ↦
            rw (e, alive)
              (inr (
                inl (record {
                  until = t;
                  moment = c.moment;
                  entry = ap (get user) (sym h.same_unlock) ∙ e;
                  since = h.later;
                  before =
                      let ahead = acting.at (record c { moment = suc c.moment }) in omega arith;
                  alive = ground (arith, alive);
                })))
      ]
    ];
    forward = act_or_ask-IsForward out user act ask acting asking.forward;
  }

  pub Guards-unless_locked :
      {watch : Bool} ⦃quiet : IsQuiet out⦄ (chat_id : ℤ) (m : Handler F (Unit {0}))
      → Guards out user code start watch m
      → Guards out user code start watch (unless_locked out chat_id user m)
  unfolding unless_locked reject_if_locked
  Guards-unless_locked chat_id m km =
      Guards-bind _ _
        (Guards-bind _ _ Guards-now_ms λ now.
          Guards-bind _ _ (Guards-limiting (is_locked_out user now)) λ until.
            Guards-match_option until _ _ (Guards-pure false)
              λ t. Guards-bind _ _ (Guards-reply chat_id _) λ _. Guards-pure true)
        λ stop. Guards-if stop _ _ (Guards-pure tt) km

  pub Guards-for_enrolled :
      {watch : Bool} ⦃quiet : IsQuiet out⦄ (chat_id : ℤ) (m : VaultUser → Handler F (Unit {0}))
      → ((u : VaultUser) → Guards out user code start watch (m u))
      → Guards out user code start watch (for_enrolled out chat_id user m)
  unfolding for_enrolled
  Guards-for_enrolled chat_id m km =
      Guards-bind _ _ (Guards-reads _)
        λ u. Guards-match_option u _ m (Guards-reply chat_id enroll_first) km

-- How every handler is built.
pub ruleset handler_rules = (
  Guards-pure, Guards-asks, Guards-reads, Guards-of_result, Guards-type_error, Guards-set_pending,
  Guards-clear_pending, Guards-limiting, Guards-now_ms, Guards-write_audit, Guards-fresh,
  Guards-set_setup_failures, Guards-reply, Guards-nav, Guards-bind, Guards-if, Guards-match_option,
  Guards-respond_gated, Guards-act_or_ask, Guards-unless_locked, Guards-for_enrolled,
)
