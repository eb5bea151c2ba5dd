-- ===== src/Store/Journal.antt =====
-- The NAV snapshots and the audit log of src/vault/depositorStore.ts.
use bert_mm_bot.Prelude.{
  ℕ, Bool, List, [], ◌∷◌, ◌++◌, Option, none, some, ltb, leb, ◌==◌, find, update, select, first,
  order_by, take,
}
use bert_mm_bot.Store.Rows.{Db, NavSnapshotRow, AuditRow, AuditEvent}
use bert_mm_bot.Store.Monad.{Action, exec}

module _ {F : Type 0} where
  abbrev pub set_navs : (List (NavSnapshotRow F) → List (NavSnapshotRow F)) → Db F → Db F
  set_navs f d = record d { navs = f d.navs }

  abbrev pub upsert : NavSnapshotRow F → List (NavSnapshotRow F) → List (NavSnapshotRow F)
  upsert r rows = elim (find (λ s. s.ts == r.ts) rows) [
    | none ↦ rows ++ r ∷ []
    | some _ ↦ update (λ s. s.ts == r.ts) (λ _. r) rows
  ]

  -- `ts` is the primary key; a second snapshot at the same time replaces the first.
  unfoldable pub insert_nav_snapshot : NavSnapshotRow F → Action F (Unit {0})
  insert_nav_snapshot r = exec (set_navs (upsert r))

  newer : NavSnapshotRow F → NavSnapshotRow F → Bool
  newer r s = ltb s.ts r.ts

  unfoldable pub latest_nav_snapshot : Db F → Option (NavSnapshotRow F)
  unfolding newer
  latest_nav_snapshot d = first (order_by newer d.navs)

  unfoldable pub nav_snapshot_at_or_before : ℕ → Db F → Option (NavSnapshotRow F)
  unfolding newer
  nav_snapshot_at_or_before ts d = first (order_by newer (select (λ r. leb r.ts ts) d.navs))

  unfoldable pub write_audit :
      (ts : ℕ) (telegram_id : Option ℕ) (event : AuditEvent F) → Action F (Unit {0})
  write_audit ts id event = exec (λ d. record d {
    audit = d.audit ++ record { ts = ts; telegram_id = id; event = event } ∷ [];
  })

  -- Newest first; of two rows at one time, the one written later.
  later_row : AuditRow F → AuditRow F → Bool
  later_row r s = leb s.ts r.ts

  unfoldable pub list_recent_audit_events : ℕ → Db F → List (AuditRow F)
  unfolding later_row
  list_recent_audit_events n d = take n (order_by later_row d.audit)
