-- ===== src/Tick/Laws.antt =====
-- What a tick of src/vault/tick.ts may do, and what the operator's /pausevault and /resumevault of
-- src/vault/operatorCommands.ts make of it.
use bert_mm_bot.Prelude.{
  ℕ, ◌≡◌, ◌⊎◌, refl, ap, ◌∙◌, Bool, true, false, List, [], ◌∷◌, none, some, Option-cases, inl, inr,
  Bool-cases,
}
use bert_mm_bot.Store.{
  list_users, World, Action, Result, Thrown, ok, err, pure, recover, for_each, and_then,
  write_audit, ◌>>◌, when,
}
use bert_mm_bot.StoreLaws.{Result-cases, statement-ok, and_then-ok}
use bert_mm_bot.Tick.{
  VaultTickDeps, swallow, is_vault_paused, get_flag, set_flag, vault_paused_flag,
  run_vault_pre_rebalance, drain_when_healthy, activate_and_log, run_vault_post_rebalance,
  run_vault_tick,
}
use bert_mm_bot.OperatorCommands.{handle_pause}

module _ {F : Type 0} where
  -- `m` returns, whatever it is run on.
  record IsSilent (m : Action F (Unit {0})) : Type 0 where
    at : (w : World F) → (m w).0 ≡ ok tt

  swallow-IsSilent : (m : Action F (Unit {0})) → IsSilent (swallow m)
  unfolding recover
  swallow-IsSilent m = record { at = λ w. go (m w) }
    where
      go : (x : Result (Unit {0}) × World F) → (recover (λ _. pure tt) x).0 ≡ ok tt
      go (ok _, w) = refl
      go (err e, w) = refl

  then-IsSilent : (m k : Action F (Unit {0})) → IsSilent m → IsSilent k → IsSilent (m >> k)
  unfolding and_then
  then-IsSilent m k hm hk = record { at = λ w. go (m w) (hm.at w) }
    where
      go : (x : Result (Unit {0}) × World F) → x.0 ≡ ok tt → (and_then (λ _. k) x).0 ≡ ok tt
      go (ok _, w) h = hk.at w
      go (err e, w) h = cc

  for_each-IsSilent :
      {A : Type 0} (f : A → Action F (Unit {0}))
      → ((a : A) → IsSilent (f a))
      → (xs : List A) → IsSilent (for_each f xs)
  for_each-IsSilent f h [] = record { at = λ w. refl }
  for_each-IsSilent f h (x ∷ xs) = then-IsSilent (f x) _ (h x) (for_each-IsSilent f h xs)

  when-IsSilent : (b : Bool) (m : Action F (Unit {0})) → IsSilent m → IsSilent (when b m)
  when-IsSilent true m h = h
  when-IsSilent false m h = record { at = λ w. refl }

  activate-IsSilent : (deps : VaultTickDeps F) → IsSilent (activate_and_log deps)
  unfolding activate_and_log
  activate-IsSilent deps = swallow-IsSilent _

  next : (m k : Action F (Unit {0})) → IsSilent m → (w : World F) → (m >> k) w ≡ k (m w).1
  unfolding and_then
  next m k h w = go (m w) (h.at w)
    where
      go : (x : Result (Unit {0}) × World F) → x.0 ≡ ok tt → and_then (λ _. k) x ≡ k x.1
      go (ok _, u) e = refl
      go (err e', u) e = cc

  swallowed : (m : Action F (Unit {0})) (w : World F) → (swallow m w).1 ≡ (m w).1
  unfolding recover
  swallowed m w = go (m w)
    where
      go : (x : Result (Unit {0}) × World F) → (recover (λ _. pure tt) x).1 ≡ x.1
      go (ok _, u) = refl
      go (err e, u) = refl

  -- What the part after the rebalance comes to, by what its reads of the flag and of the degraded flag answered.
  abbrev pub Drains : VaultTickDeps F → World F → Type 0
  Drains deps w =
      (deps.is_degraded ≡ ok false)
        × (deps.is_killed ≡ false)
        × (is_vault_paused w.db ≡ false)
        × (run_vault_post_rebalance deps w ≡ activate_and_log deps (deps.drain w).1)
      ⊎ ((deps.is_degraded ≡ ok true)
          ⊎ ((degraded : Bool) × (deps.is_degraded ≡ ok degraded))
            × ((deps.is_killed ≡ true) ⊎ (is_vault_paused w.db ≡ true)))
        × (run_vault_post_rebalance deps w ≡ activate_and_log deps w)

  -- A read threw `e`: that of the flag, or else that of the degraded flag.
  abbrev pub ReadThrew : VaultTickDeps F → Thrown → Type 0
  ReadThrew deps e =
      (deps.get_flag_throws ≡ some e) ⊎ (deps.get_flag_throws ≡ none) × (deps.is_degraded ≡ err e)

  -- The drain runs if the bot is neither degraded nor killed and the vault is not paused, and otherwise
  -- nothing comes before the activation of whitelist changes. In both cases that activation follows. If a
  -- read of one of these flags throws, there is neither.
  pub drain_only_when_healthy :
      (deps : VaultTickDeps F) (w : World F)
      → ((e : Thrown) × ReadThrew deps e × (run_vault_post_rebalance deps w ≡ (err e, w)))
        ⊎ (deps.get_flag_throws ≡ none) × Drains deps w
  unfolding run_vault_post_rebalance drain_when_healthy and_then activate_and_log
  drain_only_when_healthy deps w = elim (Option-cases deps.get_flag_throws) [
    | inr (e, throws) ↦ inl (e, inl throws, rw throws refl)
    | inl reads ↦ elim (Result-cases deps.is_degraded) [
      | inl (e, throws) ↦ inl (e, inr (reads, throws), rw (reads, throws) refl)
      | inr (true, degraded) ↦ inr (reads, inr (inl degraded, rw (reads, degraded) refl))
      | inr (false, sound) ↦ elim (Bool-cases deps.is_killed) [
        | inl killed ↦
            inr (reads, inr (inr ((false, sound), inl killed), rw (reads, sound, killed) refl))
        | inr alive ↦ elim (Bool-cases (is_vault_paused w.db)) [
          | inl paused ↦
              inr (
                reads,
                inr (inr ((false, sound), inr paused), rw (reads, sound, alive, paused) refl),
              )
          | inr running ↦ inr (
            reads,
            inl (
              sound,
              alive,
              running,
              rw (reads, sound, alive, running)
                  (next (swallow deps.drain) _ (swallow-IsSilent deps.drain) w
                    ∙ ap (activate_and_log deps) (swallowed deps.drain w)),
            ),
          )
        ]
      ]
    ]
  ]

  post_ends :
      (deps : VaultTickDeps F) (w : World F)
      → ((run_vault_post_rebalance deps w).0 ≡ ok tt)
        ⊎ ((e : Thrown) × ReadThrew deps e × ((run_vault_post_rebalance deps w).0 ≡ err e))
  post_ends deps w = elim (drain_only_when_healthy deps w) [
    | inl (e, threw, same) ↦ inr (e, threw, ap (λ x. x.0) same)
    | inr (_, inl (_, _, _, same)) ↦
        inl (ap (λ x. x.0) same ∙ (activate-IsSilent deps).at (deps.drain w).1)
    | inr (_, inr (_, same)) ↦ inl (ap (λ x. x.0) same ∙ (activate-IsSilent deps).at w)
  ]

  -- A tick is the part before the rebalance followed by the part after it. It returns whatever a poll, the drain
  -- or an activation throws, and throws only what one of its own reads threw: that of the users, of the
  -- pause flag or of the degraded flag.
  pub run_vault_tick_ends :
      (deps : VaultTickDeps F) (w : World F)
      → (run_vault_tick deps w ≡ (run_vault_pre_rebalance deps >> run_vault_post_rebalance deps) w)
        × (((run_vault_tick deps w).0 ≡ ok tt)
            ⊎ ((e : Thrown) × ((deps.list_users_throws ≡ some e) ⊎ ReadThrew deps e)
                × ((run_vault_tick deps w).0 ≡ err e)))
  unfolding run_vault_tick run_vault_pre_rebalance run_vault_post_rebalance and_then
      activate_and_log drain_when_healthy
  run_vault_tick_ends deps w = elim (Option-cases deps.list_users_throws) [
    | inr (e, throws) ↦ (rw throws refl, inr (e, inl throws, rw throws refl))
    | inl reads ↦
        let polls =
          for_each-IsSilent (λ u. swallow (deps.poll_address u.deposit_address))
            (λ u. swallow-IsSilent _) (list_users w.db) in
        let poll : Action F (Unit {0}) =
          for_each (λ u. swallow (deps.poll_address u.deposit_address)) (list_users w.db) in
        let same : run_vault_tick deps w ≡ run_vault_post_rebalance deps (poll w).1 =
          rw reads (next poll (run_vault_post_rebalance deps) polls w) in
        (
          rw reads refl,
          elim (post_ends deps (poll w).1) [
            | inl returns ↦ inl (ap (λ x. x.0) same ∙ returns)
            | inr (e, threw, throws) ↦ inr (e, inr threw, ap (λ x. x.0) same ∙ throws)
          ],
        )
  ]

  paused_after :
      (operator now : ℕ) (w : World F)
      → (handle_pause operator now w).0 ≡ ok tt
      → is_vault_paused (handle_pause operator now w).1.db ≡ true
  unfolding handle_pause set_flag write_audit is_vault_paused get_flag
  paused_after operator now w h =
      let (_, first, same, last) = and_then-ok _ (set_flag vault_paused_flag "1" w) h in
      let (d1, _, _) = statement-ok _ _ _ w first in
      let (d2, _, _) = statement-ok _ _ _ (set_flag vault_paused_flag "1" w).1 last in
      ap (λ x. is_vault_paused x.1.db) same ∙ ap is_vault_paused d2 ∙ ap (λ d. is_vault_paused d) d1

  -- After the operator's /pausevault has returned, a tick's second part does not drain withdrawals, whatever the
  -- health of the bot: the activation of whitelist changes is all there is, or a read throws and there is nothing.
  pub pause_stops_drain :
      (operator now : ℕ) (deps : VaultTickDeps F) (w : World F)
      → (handle_pause operator now w).0 ≡ ok tt
      → let paused = (handle_pause operator now w).1 in
        (run_vault_post_rebalance deps paused ≡ activate_and_log deps paused)
        ⊎ ((e : Thrown) × ReadThrew deps e
            × (run_vault_post_rebalance deps paused ≡ (err e, paused)))
  pause_stops_drain operator now deps w h =
      elim (drain_only_when_healthy deps (handle_pause operator now w).1) [
        | inl threw ↦ inr threw
        | inr (_, inl (_, _, running, _)) ↦ elim (contradiction running) [ ]
        | inr (_, inr (_, same)) ↦ inl same
      ]
    where
      contradiction : is_vault_paused (handle_pause operator now w).1.db ≡ false → ⊥
      contradiction running = let paused = paused_after operator now w h in cc
