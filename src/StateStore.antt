-- ===== src/StateStore.antt =====
-- src/stateStore.ts: the bot's own tables, which are its position, the log of rebalances, the flags and
-- the operator's actions. Whether a statement throws is decided where it is called.
pub mod Laws
mod Tests
use bert_mm_bot.Prelude.{
  ℕ, ◌+◌, ◌*◌, ◌/◌, String, str_eq, Bool, true, false, not, ◌&&◌, List, [], ◌∷◌, ◌++◌, Option, none,
  some, ltb, leb, if◌then◌else◌, count, select, order_by, take,
}

pub record StoredPosition (F : Type 0) : Type 0 where
  pub nft_mint : String
  pub lower_usd : F
  pub upper_usd : F
  pub center_usd : F
  pub opened_at : ℕ

pub record RebalanceRecord (F : Type 0) : Type 0 where
  pub ts : ℕ
  pub old_center_usd : F
  pub new_center_usd : F
  pub fees_collected_usd : F

pub record OperatorAction : Type 0 where
  pub ts : ℕ
  pub command : String
  pub os_user : String

pub record Flag : Type 0 where
  pub key : String
  pub value : String
  pub updated_at : ℕ
  pub reason : Option String

pub record BotDb (F : Type 0) : Type 0 where
  -- The row of `position_state`, whose id is 1 always.
  pub position_state : Option (StoredPosition F)
  pub rebalance_log : List (RebalanceRecord F)
  pub flags : List Flag
  pub operator_actions : List OperatorAction

abbrev pub day_ms : ℕ
day_ms = 86400000

abbrev pub start_of_day : ℕ → ℕ
start_of_day now = now / day_ms * day_ms

-- `MAX(ts)`
abbrev pub later_of : ℕ → Option ℕ → Option ℕ
later_of t none = some t
later_of t (some u) = if ltb u t then some t else some u

abbrev pub find_flag : String → List Flag → Option Flag
find_flag key [] = none
find_flag key (f ∷ fs) = if str_eq f.key key then some f else find_flag key fs

abbrev pub delete_flag : String → List Flag → List Flag
delete_flag key [] = []
delete_flag key (f ∷ fs) =
    let rest = delete_flag key fs in if str_eq f.key key then rest else f ∷ rest

abbrev pub flag_value : Option Flag → Option String
flag_value none = none
flag_value (some f) = some f.value

abbrev pub is_one : Option String → Bool
is_one none = false
is_one (some v) = str_eq v "1"

abbrev pub degraded_key : String
degraded_key = "degraded"

module _ {F : Type 0} where
  unfoldable pub get_current_position : BotDb F → Option (StoredPosition F)
  get_current_position d = d.position_state

  unfoldable pub set_current_position : StoredPosition F → BotDb F → BotDb F
  set_current_position p d = record d { position_state = some p }

  unfoldable pub clear_current_position : BotDb F → BotDb F
  clear_current_position d = record d { position_state = none }

  unfoldable pub record_rebalance : RebalanceRecord F → BotDb F → BotDb F
  record_rebalance r d = record d { rebalance_log = d.rebalance_log ++ r ∷ [] }

  abbrev pub is_on_day : ℕ → RebalanceRecord F → Bool
  is_on_day now r = leb (start_of_day now) r.ts && ltb r.ts (start_of_day now + day_ms)

  unfoldable pub get_rebalances_today : ℕ → BotDb F → ℕ
  get_rebalances_today now d = count (is_on_day now) d.rebalance_log

  abbrev pub latest : List (RebalanceRecord F) → Option ℕ
  latest [] = none
  latest (r ∷ rs) = later_of r.ts (latest rs)

  unfoldable pub last_rebalance_at : BotDb F → Option ℕ
  last_rebalance_at d = latest d.rebalance_log

  -- `ON CONFLICT(key) DO UPDATE`; `updated_at` is `Date.now()`.
  unfoldable pub set_flag :
      (key value : String) (reason : Option String) (updated_at : ℕ) → BotDb F → BotDb F
  set_flag key value reason updated_at d = record d {
    flags =
        record { key = key; value = value; updated_at = updated_at; reason = reason }
        ∷ delete_flag key d.flags;
  }

  unfoldable pub get_flag : String → BotDb F → Option String
  get_flag key d = flag_value (find_flag key d.flags)

  unfoldable pub set_degraded :
      (value : Bool) (reason : String) (updated_at : ℕ) → BotDb F → BotDb F
  unfolding set_flag
  set_degraded value reason updated_at d =
      set_flag degraded_key (if value then "1" else "0") (some reason) updated_at d

  unfoldable pub is_degraded : BotDb F → Bool
  unfolding get_flag
  is_degraded d = is_one (get_flag degraded_key d)

  unfoldable pub record_operator_action : OperatorAction → BotDb F → BotDb F
  record_operator_action a d = record d { operator_actions = d.operator_actions ++ a ∷ [] }

  unfoldable pub list_operator_actions : ℕ → BotDb F → List OperatorAction
  list_operator_actions limit d = take limit (order_by (λ a b. ltb b.ts a.ts) d.operator_actions)

  unfoldable pub list_rebalances_since : ℕ → BotDb F → List (RebalanceRecord F)
  list_rebalances_since since d =
      order_by (λ a b. ltb b.ts a.ts) (select (λ r. leb since r.ts) d.rebalance_log)

  unfoldable pub list_operator_actions_since : ℕ → BotDb F → List OperatorAction
  list_operator_actions_since since d =
      order_by (λ a b. ltb b.ts a.ts) (select (λ a. leb since a.ts) d.operator_actions)
