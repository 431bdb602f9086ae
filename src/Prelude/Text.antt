-- ===== src/Prelude/Text.antt =====
-- The text operations that the source takes from JavaScript: `trim`, `toUpperCase`, `endsWith`,
-- `includes` on an array of texts. `to_upper` and
-- `to_lower` change the ASCII letters, and no other character.
use Prim.Native.Nat.{ℕ, ◌+◌}
use Prim.Native.Char.{Char, code}
use Prim.Native.String.{String}
use mathlib.Core.Path.{◌≡◌, refl}
use mathlib.Core.Logic.{inl, inr}
use mathlib.Core.Bool.{Bool, true, false, ◌&&◌, ◌||◌, false≢true}
use mathlib.Core.Option
use mathlib.Core.Option.{Option, none, some}
use mathlib.Core.List.{List, [], ◌∷◌}
use text.Mathlib.Text.{◌==◌ as text_eq}
use text.Mathlib.TextEquality.{eq_iff}
use my_detail_os_backend.Prelude.Tests.{if◌then◌else◌, eqb, leb, and_split, or_split}
use my_detail_os_backend.Prelude.Lists.{any, all, All}

-- `===` on texts
infix 50 ◌==◌
abbrev pub ◌==◌ : String → String → Bool
◌==◌ = text_eq

-- WhiteSpace and LineTerminator of ECMAScript
is_space : ℕ → Bool
is_space c =
    leb 9 c && leb c 13
    || eqb c 32
    || eqb c 160
    || eqb c 0x1680
    || leb 0x2000 c && leb c 0x200a
    || leb 0x2028 c && leb c 0x2029
    || eqb c 0x202f
    || eqb c 0x205f
    || eqb c 0x3000
    || eqb c 0xfeff

-- Falsiness of a text.
abbrev pub is_empty : String → Bool
is_empty String.[] = true
is_empty (String.◌∷◌ c s) = false

trim_start : String → String
trim_start String.[] = String.[]
trim_start (String.◌∷◌ c s) =
    let rest = trim_start s in if is_space (code c) then rest else String.◌∷◌ c s

trim_end : String → String
trim_end String.[] = String.[]
trim_end (String.◌∷◌ c s) =
    let rest = trim_end s in
    if is_space (code c) && is_empty rest then String.[] else String.◌∷◌ c rest

-- `s.trim()`
unfoldable pub trim : String → String
unfolding trim_start trim_end is_space
trim s = trim_end (trim_start s)

-- `!s.trim()`
abbrev pub is_blank : String → Bool
is_blank s = is_empty (trim s)

-- The letter of `us` that stands where `ls` has `c`.
letter_in : String → String → Char → Char
letter_in String.[] us c = c
letter_in (String.◌∷◌ l ls) String.[] c = c
letter_in (String.◌∷◌ l ls) (String.◌∷◌ u us) c =
    if eqb (code l) (code c) then u else letter_in ls us c

upper_all : String → String
upper_all String.[] = String.[]
upper_all (String.◌∷◌ c s) =
    String.◌∷◌ (letter_in "abcdefghijklmnopqrstuvwxyz" "ABCDEFGHIJKLMNOPQRSTUVWXYZ" c) (upper_all s)

-- `s.toUpperCase()`
unfoldable pub to_upper : String → String
unfolding upper_all letter_in
to_upper s = upper_all s

lower_all : String → String
lower_all String.[] = String.[]
lower_all (String.◌∷◌ c s) =
    String.◌∷◌ (letter_in "ABCDEFGHIJKLMNOPQRSTUVWXYZ" "abcdefghijklmnopqrstuvwxyz" c) (lower_all s)

-- `s.toLowerCase()`
unfoldable pub to_lower : String → String
unfolding lower_all letter_in
to_lower s = lower_all s

-- `s.endsWith(t)`
unfoldable pub ends_with : String → String → Bool
ends_with t String.[] = t == ""
ends_with t (String.◌∷◌ c s) = String.◌∷◌ c s == t || ends_with t s

-- `xs.includes(s)`
abbrev pub includes : String → List String → Bool
includes s xs = any (λ x. x == s) xs

-- The rest of `s` behind the prefix `t`: `s.startsWith(t) ? s.slice(t.length) : null`.
unfoldable pub strip_prefix : String → String → Option String
strip_prefix String.[] s = some s
strip_prefix (String.◌∷◌ d t) String.[] = none
strip_prefix (String.◌∷◌ d t) (String.◌∷◌ c s) =
    let rest = strip_prefix t s in if eqb (code d) (code c) then rest else none

-- What stands in `s` before the ending `t`, if it ends so.
unfoldable pub strip_suffix : String → String → Option String
strip_suffix t String.[] = if t == "" then some "" else none
strip_suffix t (String.◌∷◌ c s) =
    let rest = Option.map (λ r. String.◌∷◌ c r) (strip_suffix t s) in
    if String.◌∷◌ c s == t then some "" else rest

-- `s.split("?")[0]`, for a separator of one character
unfoldable pub before : ℕ → String → String
before sep String.[] = ""
before sep (String.◌∷◌ c s) =
    let rest = before sep s in if eqb (code c) sep then "" else String.◌∷◌ c rest

starts_with : String → String → Bool
starts_with String.[] s = true
starts_with (String.◌∷◌ d t) String.[] = false
starts_with (String.◌∷◌ d t) (String.◌∷◌ c s) = eqb (code d) (code c) && starts_with t s

-- `s.includes(t)`
unfoldable pub contains : String → String → Bool
unfolding starts_with
contains t String.[] = is_empty t
contains t (String.◌∷◌ c s) = starts_with t (String.◌∷◌ c s) || contains t s

-- `s.length`, in units of UTF-16
unfoldable pub utf16_length : String → ℕ
utf16_length String.[] = 0
utf16_length (String.◌∷◌ c s) = (if leb 0x10000 (code c) then 2 else 1) + utf16_length s

text_tests :
    (trim "  a b \n" ≡ "a b")
    × (to_upper "Put" ≡ "PUT")
    × (ends_with "_EDIT" "STAFF_EDIT" ≡ true)
    × (ends_with "_EDIT" "EDIT" ≡ false)
    × (is_blank " \t" ≡ true)
    × (strip_prefix "Bearer " "Bearer x" ≡ some "x")
    × (strip_suffix "_VIEW" "A_B_VIEW" ≡ some "A_B")
    × (before b'?' "/a?b=c" ≡ "/a")
    × (contains "dome" "odometer" ≡ true)
    × (utf16_length "abc" ≡ 3)
unfolding trim to_upper ends_with strip_prefix strip_suffix before contains utf16_length
text_tests = (refl, refl, refl, refl, refl, refl, refl, refl, refl, refl)

-- What holds of every text of a list holds of a text that the list includes.
pub all-includes :
    (q : String → Bool) (c : String) (xs : List String)
    → all q xs ≡ true
    → includes c xs ≡ true
    → q c ≡ true
all-includes q c [] h m = cc
all-includes q c (x ∷ xs) h m = elim (or_split _ _ m) [
  | inl e ↦ rw (← (eq_iff x c).0 e) (and_split _ _ h).0
  | inr e ↦ all-includes q c xs (and_split _ _ h).1 e
]

pub All-includes {κ} :
    (P : String → Type κ) (c : String) (xs : List String) → includes c xs ≡ true → All P xs → P c
All-includes P c [] m h = absurd (false≢true m)
All-includes P c (x ∷ xs) m h = elim (or_split _ _ m) [
  | inl e ↦ rw (← (eq_iff x c).0 e) h.0
  | inr e ↦ All-includes P c xs e h.1
]
