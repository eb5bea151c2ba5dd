-- ===== src/Text.antt =====
-- What the command handlers of src/vault/commands.ts and src/telegramCommander.ts use of JavaScript
-- texts.
use Prim.Native.Char.{Char, code}
use bert_mm_bot.Prelude.{
  ℕ, zero, suc, String, Bool, true, false, not, ◌&&◌, ◌||◌, List, [], ◌∷◌, Option, none, some, leb,
  ◌==◌, if◌then◌else◌, select,
}

-- `\s` of a regular expression, which is what `trim` takes off too.
abbrev pub is_space_code : ℕ → Bool
is_space_code c =
    (leb 9 c && leb c 13)
    || c == 32
    || c == 160
    || c == 5760
    || (leb 8192 c && leb c 8202)
    || c == 8232
    || c == 8233
    || c == 8239
    || c == 8287
    || c == 12288
    || c == 65279

abbrev pub is_space : Char → Bool
is_space c = is_space_code (code c)

abbrev pub is_empty : String → Bool
is_empty String.[] = true
is_empty (String.◌∷◌ c s) = false

unfoldable pub trim_start : String → String
trim_start String.[] = String.[]
trim_start (String.◌∷◌ c s) = if is_space c then trim_start s else String.◌∷◌ c s

unfoldable pub trim_end : String → String
trim_end String.[] = String.[]
trim_end (String.◌∷◌ c s) =
    let rest = trim_end s in if is_space c && is_empty rest then String.[] else String.◌∷◌ c rest

unfoldable pub trim : String → String
unfolding trim_start trim_end
trim s = trim_end (trim_start s)

abbrev pub onto_first : Char → List String → List String
onto_first c [] = String.◌∷◌ c String.[] ∷ []
onto_first c (w ∷ ws) = String.◌∷◌ c w ∷ ws

-- The texts between two spaces next to each other, empty ones included.
abbrev pub pieces : String → List String
pieces String.[] = String.[] ∷ []
pieces (String.◌∷◌ c s) =
    let rest = pieces s in if is_space c then String.[] ∷ rest else onto_first c rest

abbrev pub second : List String → Option String
second [] = none
second (w ∷ []) = none
second (w ∷ v ∷ ws) = some v

-- `text.trim().split(/\s+/)[1]`
unfoldable pub argument : String → Option String
argument s = second (select (λ w. not (is_empty w)) (pieces s))

abbrev pub before_last : Char → String → Option String → Option String
before_last c s none = none
before_last c s (some r) = some (String.◌∷◌ c r)

-- `raw.slice(0, -1)` if `raw.endsWith('%')`.
unfoldable pub percent : String → Option String
percent String.[] = none
percent (String.◌∷◌ c String.[]) = if code c == 37 then some String.[] else none
percent (String.◌∷◌ c (String.◌∷◌ d s)) = before_last c s (percent (String.◌∷◌ d s))

abbrev pub is_digit : Char → Bool
is_digit c = leb 48 (code c) && leb (code c) 57

-- `/^\d{n}$/`
unfoldable pub is_digits : ℕ → String → Bool
is_digits zero String.[] = true
is_digits zero (String.◌∷◌ c s) = false
is_digits (suc n) String.[] = false
is_digits (suc n) (String.◌∷◌ c s) = is_digit c && is_digits n s
