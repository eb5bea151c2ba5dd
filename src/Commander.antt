-- ===== src/Commander.antt =====
-- src/telegramCommander.ts: which handler an incoming message reaches, and how the updates are polled.
pub mod Polling
pub mod Laws
mod Tests
use Prim.Native.Char.{Char, code}
use bert_mm_bot.Prelude.{
  ℕ, ◌+◌, String, Bool, true, false, ◌&&◌, ◌||◌, List, [], ◌∷◌, Option, none, some, leb, ◌==◌,
  if◌then◌else◌,
}
use bert_mm_bot.Prelude.Int.{ℤ}
use bert_mm_bot.Text.{is_space}

pub data Kind : Type 0 where
  operator vault public enrollment : Kind

pub record IncomingMessage : Type 0 where
  pub chat_id : ℤ
  pub user_id : ℕ
  pub text : String

abbrev pub is_upper : Char → Bool
is_upper c = leb 65 (code c) && leb (code c) 90

-- A character of `[a-z_]` under the flag `i`.
abbrev pub is_name_char : Char → Bool
is_name_char c = is_upper c || (leb 97 (code c) && leb (code c) 122) || code c == 95

abbrev pub lower : Char → ℕ
lower c = if is_upper c then code c + 32 else code c

-- A text in lower case, as the numbers of its characters.
abbrev pub lower_codes : String → List ℕ
lower_codes String.[] = []
lower_codes (String.◌∷◌ c s) = lower c ∷ lower_codes s

abbrev pub same_codes : List ℕ → List ℕ → Bool
same_codes [] [] = true
same_codes [] (n ∷ ns) = false
same_codes (m ∷ ms) [] = false
same_codes (m ∷ ms) (n ∷ ns) = m == n && same_codes ms ns

abbrev pub onto : ℕ → Option (List ℕ) → Option (List ℕ)
onto n none = none
onto n (some ns) = some (n ∷ ns)

-- The rest of a name, up to a space or the end of the text.
abbrev pub name_rest : String → Option (List ℕ)
name_rest String.[] = some []
name_rest (String.◌∷◌ c s) =
    let rest = name_rest s in
    if is_name_char c then onto (lower c) rest else if is_space c then some [] else none

abbrev pub name_start : String → Option (List ℕ)
name_start String.[] = none
name_start (String.◌∷◌ c s) = if is_name_char c then onto (lower c) (name_rest s) else none

-- What `/^\/([a-z_]+)(?:\s|$)/i` captures, in lower case.
unfoldable pub command_name : String → Option (List ℕ)
command_name String.[] = none
command_name (String.◌∷◌ c s) = if code c == 47 then name_start s else none

-- A command of the registry, whose name may be written in any case.
pub record Entry (M : Type 0) : Type 0 where
  pub name : String
  pub kind : Kind
  pub fn : IncomingMessage → M

module _ {M : Type 0} where
  unfoldable pub lookup : List ℕ → List (Entry M) → Option (Entry M)
  lookup name [] = none
  lookup name (e ∷ es) = if same_codes (lower_codes e.name) name then some e else lookup name es

  module _ (operator_user_id : ℕ) (registry : List (Entry M))
      (fallback : Option (IncomingMessage → M)) (skip : M) where
    -- `known` is whether `getUser(msg.userId)` finds a row.
    abbrev pub permitted : Kind → (known : Bool) → IncomingMessage → Bool
    permitted operator known msg = msg.user_id == operator_user_id
    permitted vault known msg = known
    permitted public known msg = true
    permitted enrollment known msg = true

    abbrev pub run_entry : (known : Bool) → IncomingMessage → Option (Entry M) → M
    run_entry known msg none = skip
    run_entry known msg (some e) = if permitted e.kind known msg then e.fn msg else skip

    abbrev pub run_fallback : (known : Bool) → IncomingMessage → Option (IncomingMessage → M) → M
    run_fallback known msg none = skip
    run_fallback known msg (some fn) = if known then fn msg else skip

    abbrev pub dispatch_name : (known : Bool) → IncomingMessage → Option (List ℕ) → M
    dispatch_name known msg none = run_fallback known msg fallback
    dispatch_name known msg (some name) = run_entry known msg (lookup name registry)

    unfoldable pub dispatch : (known : Bool) → IncomingMessage → M
    dispatch known msg = dispatch_name known msg (command_name msg.text)
