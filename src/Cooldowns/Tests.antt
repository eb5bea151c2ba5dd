-- ===== src/Cooldowns/Tests.antt =====
-- Whitelist changes at concrete inputs.
use bert_mm_bot.Prelude.{
  ℕ, ◌+◌, ◌≡◌, ◌⊎◌, refl, inr, String, true, false, [], ◌∷◌, ◌++◌, none, some,
}
use bert_mm_bot.Store.{
  World, Db, Thrown, ok, err, not_found, UserRow, depositor, PendingWhitelistChange, pending,
}
use bert_mm_bot.Cooldowns.{ChangeAnswer, request_change, activate_due, cancel_pending}
use bert_mm_bot.Cooldowns.Laws.{IsCooled, Justified, address, activate_due_waits}
use bert_mm_bot.Cooldowns.Requests.{put_off, cooldowns-IsCooled, request_change_waits}

abbrev bob : UserRow
bob = record {
  telegram_id = 7;
  role = depositor;
  deposit_address = "DepositAddr";
  deposit_secret_enc = [];
  deposit_secret_iv = [];
  totp_secret_enc = none;
  totp_secret_iv = none;
  totp_enrolled_at = some 5;
  totp_last_used_counter = none;
  whitelist_address = some "Wallet";
  whitelist_set_at = some 6;
  disclaimer_at = 1;
  created_at = 1;
}

abbrev cooldown : ℕ
cooldown = 86400000

abbrev waiting : PendingWhitelistChange
waiting = record {
  id = 1;
  telegram_id = 7;
  old_address = some "Wallet";
  new_address = "Other";
  requested_at = 100;
  activates_at = 86400100;
  status = pending;
  cancel_reason = none;
}

abbrev db : Db ℕ
db = record {
  users = bob ∷ [];
  shares = [];
  deposits = [];
  withdrawals = [];
  changes = waiting ∷ [];
  navs = [];
  audit = [];
  flags = [];
  next_deposit = 1;
  next_withdrawal = 1;
  next_change = 2;
}

-- The second statement fails.
abbrev world : World ℕ
world = record { db = db; faults = false ∷ true ∷ []; paid = [] }

db-IsCooled : IsCooled cooldown db
db-IsCooled = (inr refl, tt)

activate_due_waits_example : Justified cooldown 86400200 7 db (activate_due 86400200 world).1.db
activate_due_waits_example = activate_due_waits cooldown 86400200 7 world db-IsCooled

cooldowns-IsCooled_example :
    IsCooled cooldown (request_change cooldown 7 "Third" 300 world).1.db
    × IsCooled cooldown (activate_due 300 world).1.db
    × IsCooled cooldown (cancel_pending 7 "user" world).1.db
cooldowns-IsCooled_example = cooldowns-IsCooled cooldown 7 300 "Third" "user" world db-IsCooled

request_change_waits_example :
    let x = request_change cooldown 7 "Third" 300 world in
    (address 7 db ≡ none) × (x.0 ≡ err not_found) × (x.1 ≡ world)
    ⊎ ((address 7 db ≡ some none)
          × (((e : Thrown) × (x.0 ≡ err e) × (x.1.db ≡ db))
              ⊎ ((a : ChangeAnswer) × (x.0 ≡ ok a)
                  × (a.immediate ≡ true)
                  × (address 7 x.1.db ≡ some (some "Third"))))
        ⊎ (old : String) × (address 7 db ≡ some (some old))
          × (x.1.db.users ≡ db.users)
          × (((e : Thrown) × (x.0 ≡ err e))
              ⊎ ((a : ChangeAnswer) × (x.0 ≡ ok a)
                  × (a.immediate ≡ false)
                  × (a.activates_at ≡ 300 + cooldown)
                  × (x.1.db.changes
                      ≡ db.changes ++ put_off cooldown 7 old "Third" 300 a.pending_id ∷ []))))
request_change_waits_example = request_change_waits cooldown 7 300 "Third" world
