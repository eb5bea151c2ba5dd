-- ===== src/Store/Users.antt =====
-- The users of src/vault/depositorStore.ts.
use bert_mm_bot.Prelude.{
  ℕ, zero, suc, String, Bool, List, [], ◌∷◌, ◌++◌, Option, none, some, ltb, ◌==◌, if◌then◌else◌,
  ◌||◌, str_eq, find, update, count, order_by, map,
}
use bert_mm_bot.Store.Rows.{UserRow, VaultUser, Role, Db, unique_violation, not_found}
use bert_mm_bot.Store.Monad.{Action, statement, exec, throw, pure, ◌>>=◌}

-- 0 in `totp_enrolled_at` means that the secret is stored and not confirmed; callers see null.
abbrev pub confirmed_at : Option ℕ → Option ℕ
confirmed_at none = none
confirmed_at (some zero) = none
confirmed_at (some (suc n)) = some (suc n)

abbrev pub row_to_user : UserRow → VaultUser
row_to_user r = record {
  telegram_id = r.telegram_id;
  role = r.role;
  deposit_address = r.deposit_address;
  totp_enrolled_at = confirmed_at r.totp_enrolled_at;
  totp_last_used_counter = r.totp_last_used_counter;
  whitelist_address = r.whitelist_address;
  whitelist_set_at = r.whitelist_set_at;
  disclaimer_at = r.disclaimer_at;
  created_at = r.created_at;
}

abbrev pub is_user : ℕ → UserRow → Bool
is_user id r = r.telegram_id == id

abbrev pub to_user : Option UserRow → Option VaultUser
to_user none = none
to_user (some r) = some (row_to_user r)

-- What `getUserSecrets` selects.
pub record Secrets : Type 0 where
  pub deposit_secret_enc : List ℕ
  pub deposit_secret_iv : List ℕ
  pub totp_secret_enc : Option (List ℕ)
  pub totp_secret_iv : Option (List ℕ)

abbrev pub to_secrets : Option UserRow → Option Secrets
to_secrets none = none
to_secrets (some r) = some (record {
  deposit_secret_enc = r.deposit_secret_enc;
  deposit_secret_iv = r.deposit_secret_iv;
  totp_secret_enc = r.totp_secret_enc;
  totp_secret_iv = r.totp_secret_iv;
})

-- `telegram_id` is the primary key, and `deposit_address` is UNIQUE.
abbrev pub clashes : UserRow → UserRow → Bool
clashes r s = s.telegram_id == r.telegram_id || str_eq s.deposit_address r.deposit_address

module _ {F : Type 0} where
  abbrev pub set_users : (List UserRow → List UserRow) → Db F → Db F
  set_users f d = record d { users = f d.users }

  unfoldable pub create_user :
      (telegram_id : ℕ) (role : Role) (deposit_address : String) (enc iv : List ℕ)
      (disclaimer_at created_at : ℕ)
      → Action F (Unit {0})
  create_user telegram_id role deposit_address enc iv disclaimer_at created_at =
      let r : UserRow = record {
        telegram_id = telegram_id;
        role = role;
        deposit_address = deposit_address;
        deposit_secret_enc = enc;
        deposit_secret_iv = iv;
        totp_secret_enc = none;
        totp_secret_iv = none;
        totp_enrolled_at = none;
        totp_last_used_counter = none;
        whitelist_address = none;
        whitelist_set_at = none;
        disclaimer_at = disclaimer_at;
        created_at = created_at;
      } in
      statement
        (λ d. elim (find (clashes r) d.users) [ some _ ↦ some unique_violation | none ↦ none ])
        (λ _. tt) (set_users (λ us. us ++ r ∷ []))

  unfoldable pub get_user : ℕ → Db F → Option VaultUser
  get_user id d = to_user (find (is_user id) d.users)

  unfoldable pub get_user_by_deposit_address : String → Db F → Option VaultUser
  get_user_by_deposit_address addr d = to_user (find (λ r. str_eq r.deposit_address addr) d.users)

  unfoldable pub list_users : Db F → List VaultUser
  list_users d = map row_to_user (order_by (λ a b. ltb a.created_at b.created_at) d.users)

  unfoldable pub get_user_secrets : ℕ → Db F → Option Secrets
  get_user_secrets id d = to_secrets (find (is_user id) d.users)

  unfoldable pub set_totp :
      (telegram_id : ℕ) (enc iv : List ℕ) (enrolled_at : ℕ) → Action F (Unit {0})
  set_totp id enc iv enrolled_at = exec (
      set_users (
        update (is_user id) (λ r. record r {
          totp_secret_enc = some enc;
          totp_secret_iv = some iv;
          totp_enrolled_at = some enrolled_at;
        })))

  unfoldable pub set_totp_last_counter : ℕ → ℕ → Action F (Unit {0})
  set_totp_last_counter id counter =
      exec
        (set_users (update (is_user id) (λ r. record r { totp_last_used_counter = some counter })))

  unfoldable pub clear_user_totp : ℕ → Action F (Unit {0})
  clear_user_totp id = do
    changes ←
        statement (λ _. none) (λ d. count (is_user id) d.users)
          (set_users (
            update (is_user id) (λ r. record r {
              totp_secret_enc = none;
              totp_secret_iv = none;
              totp_enrolled_at = none;
              totp_last_used_counter = none;
            })))
    if changes == 1 then pure tt else throw not_found

  unfoldable pub set_whitelist_immediate :
      (telegram_id : ℕ) (address : String) (ts : ℕ) → Action F (Unit {0})
  set_whitelist_immediate id address ts = exec (
      set_users (
        update (is_user id)
          (λ r. record r { whitelist_address = some address; whitelist_set_at = some ts })))
