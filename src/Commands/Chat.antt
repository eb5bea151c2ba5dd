-- ===== src/Commands/Chat.antt =====
-- The state of `CommandHandlers` in src/vault/commands.ts, and what its handlers use of the world
-- outside: the clock, Telegram, the prices, the libraries. At each `await` other code of the process
-- may run, which is the parameter `meanwhile`.
use bert_mm_bot.Prelude.{ℕ, suc, String, Bool, List, [], ◌∷◌, ◌++◌, Option, none, some}
use bert_mm_bot.Prelude.Int.{ℤ}
use bert_mm_bot.Store.{World, Db, Action, Result, ok, err, Operation, external}
use bert_mm_bot.RateLimiter.{Table, TotpRateLimiter, Remaining, put, delete}
use bert_mm_bot.Totp.{Authenticator}

pub data PendingAction (F : Type 0) : Type 0 where
  disclaimer totp_setup deposit_reveal_code balance_reveal_code withdraw_amount_entry :
      PendingAction F
  withdraw_code : (amount_usd : F) → PendingAction F
  setwhitelist_address_entry : PendingAction F
  setwhitelist_first setwhitelist_change : (address : String) → PendingAction F
  cancelwhitelist : PendingAction F

pub data Reply (F : Type 0) : Type 0 where
  disclaimer_text account_ready no_pending_action declined enroll_first welcome main_menu : Reply F
  scan_secret : (secret : String) → Reply F
  locked : Remaining → Reply F
  ask_code code_invalid : Operation → Reply F
  setup_code_invalid too_many_codes nav_unavailable stats_unavailable : Reply F
  balance : (shares usd nav_per_share : F) → Reply F
  stats : (tvl nav_per_share : F) → (delta_pct : Option F) → (enrolled : Bool) → Reply F
  deposit_address : String → Reply F
  set_destination_first how_much invalid_percentage invalid_amount queue_full no_whitelist_address :
      Reply F
  below_minimum exceeds_balance : F → Reply F
  daily_limit_reached : ℕ → Reply F
  daily_usd_cap : (cap used : F) → Reply F
  confirm_withdrawal : (amount_usd : F) → (destination : String) → Reply F
  withdrawal_is_queued : (id : ℕ) → (amount_usd : F) → Reply F
  usage_setwhitelist bad_address : Reply F
  first_whitelist change_requested whitelist_now : (address : String) → Reply F
  whitelist_queued : (activates_at : ℕ) → Reply F
  change_cancelled nothing_to_cancel settings_menu enter_usd_amount paste_address cancelled_action :
      Reply F

pub record CommandsConfig (F : Type 0) : Type 0 where
  pub withdrawal_fee_bps : F
  pub min_withdrawal_usd : F
  pub max_daily_withdrawals_per_user : ℕ
  pub max_daily_withdrawal_usd_per_user : F
  pub max_pending_withdrawals : ℕ
  -- `Cooldowns.cooldownMs`
  pub cooldown_ms : ℕ

-- What `getNav` answers.
pub record Nav (F : Type 0) : Type 0 where
  pub total_usd : F
  pub total_shares : F

pub record Encrypted : Type 0 where
  pub ciphertext : List ℕ
  pub iv : List ℕ

pub record Keypair : Type 0 where
  pub public_key : String
  pub secret_key : List ℕ

-- Code outside the handlers. A `moment` counts the clock readings and the awaits of the process.
pub record Outside (F : Type 0) : Type 0 where
  pub clock : (moment : ℕ) → ℕ
  pub meanwhile : (moment : ℕ) → World F → World F
  pub get_nav : (moment : ℕ) → Result (Option (Nav F))
  -- `Number(text)`, if it is finite.
  pub number : String → Option F
  -- Whether `new PublicKey(text)` returns.
  pub is_public_key : String → Bool
  pub authenticator : Authenticator
  pub decrypt : (ciphertext iv : List ℕ) → Result String
  pub encrypt : (moment : ℕ) → List ℕ → Encrypted
  pub utf8 : String → List ℕ
  pub generate_keypair : (moment : ℕ) → Keypair
  pub generate_secret : (moment : ℕ) → String
  pub ensure_ata : (moment : ℕ) → (deposit_address : String) → Result (Unit {0})

pub record Chat (F : Type 0) : Type 0 where
  pub pending : Table (PendingAction F)
  pub totp_setup_failures : Table ℕ
  pub unlocked_until : Table ℕ
  pub limiter : TotpRateLimiter
  pub world : World F
  -- The oldest first.
  pub replies : List (ℤ × Reply F)
  pub moment : ℕ

abbrev pub Handler : Type 0 → Type 0 → Type 0
Handler F A = Chat F → Result A × Chat F

module _ {F : Type 0} where
  abbrev pub continue : {A B : Type 0} → (A → Handler F B) → Result A × Chat F → Result B × Chat F
  continue f (ok a, c) = f a c
  continue f (err e, c) = (err e, c)

  infixl 5 ◌>>=◌ ◌>>◌
  unfoldable pub ◌>>=◌ : {A B : Type 0} → Handler F A → (A → Handler F B) → Handler F B
  ◌>>=◌ m f c = continue f (m c)

  abbrev pub ◌>>◌ : {B : Type 0} → Handler F (Unit {0}) → Handler F B → Handler F B
  m >> k = m >>= λ _. k

  unfoldable pub pure : {A : Type 0} → A → Handler F A
  pure a c = (ok a, c)

  unfoldable pub asks : {A : Type 0} → (Chat F → A) → Handler F A
  asks f c = (ok (f c), c)

  unfoldable pub of_result : {A : Type 0} → Result A → Handler F A
  of_result r c = (r, c)

  unfoldable pub reads : {A : Type 0} → (Db F → A) → Handler F A
  reads f c = (ok (f c.world.db), c)

  -- Reading a field of null.
  unfoldable pub type_error : {A : Type 0} → Handler F A
  type_error c = (err (external "TypeError"), c)

  -- A call of the store, or of what works on the store alone.
  unfoldable pub lift : {A : Type 0} → Action F A → Handler F A
  lift m c = ((m c.world).0, record c { world = (m c.world).1 })

  unfoldable pub set_pending : ℕ → PendingAction F → Handler F (Unit {0})
  set_pending user action c = (ok tt, record c { pending = put user action c.pending })

  unfoldable pub clear_pending : ℕ → Handler F (Unit {0})
  clear_pending user c = (ok tt, record c { pending = delete user c.pending })

  unfoldable pub set_setup_failures : (Table ℕ → Table ℕ) → Handler F (Unit {0})
  set_setup_failures f c = (ok tt, record c { totp_setup_failures = f c.totp_setup_failures })

  -- A method of the rate limiter.
  unfoldable pub limiting : {A : Type 0} → (TotpRateLimiter → A × TotpRateLimiter) → Handler F A
  limiting f c = (ok (f c.limiter).0, record c { limiter = (f c.limiter).1 })

  -- `if (o === null) m; else f(o)`
  unfoldable pub match_option :
      {A B : Type 0} → Option A → Handler F B → (A → Handler F B) → Handler F B
  match_option none m f = m
  match_option (some a) m f = f a

  module _ (out : Outside F) where
    unfoldable pub now_ms : Handler F ℕ
    now_ms c = (ok (out.clock c.moment), record c { moment = suc c.moment })

    abbrev pub pause : Chat F → Chat F
    pause c = record c { world = out.meanwhile c.moment c.world; moment = suc c.moment }

    -- `TelegramCommander.reply` logs what it fails to send and never throws.
    unfoldable pub reply : ℤ → Reply F → Handler F (Unit {0})
    reply chat_id text c = (ok tt, pause (record c { replies = c.replies ++ (chat_id, text) ∷ [] }))

    unfoldable pub nav : Handler F (Option (Nav F))
    nav c = (out.get_nav c.moment, pause c)

    -- An answer of a library that depends on the moment.
    unfoldable pub fresh : {A : Type 0} → (ℕ → A) → Handler F A
    fresh f c = (ok (f c.moment), record c { moment = suc c.moment })
