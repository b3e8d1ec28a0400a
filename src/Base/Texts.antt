-- ===== src/Base/Texts.antt =====
-- Go's functions on texts that the program calls: `strings.Split`, `strings.ToLower`,
-- `strings.TrimSpace`, `strings.Contains`, and `%d`. The lower case is that of ASCII letters: the
-- program compares the result with an ASCII word that no other character lowers into.
use Prim.Native.Nat.{ℕ, zero, suc, ◌+◌, ◌/◌, ◌%◌}
use Prim.Native.Char.{Char, code}
use Prim.Native.String.{String, [], ◌∷◌, ◌++◌ as ◌<>◌, len, find}
use mathlib.Core.Bool.{Bool, true, false, ◌&&◌, ◌||◌}
use mathlib.Core.List.{List, [], ◌∷◌}
use wcwcpp_backend.Base.Tests.{ltb, leb, nat_beq, if◌then◌else◌}

abbrev pub with_first : Char → List String → List String
with_first c [] = (c ∷ []) ∷ []
with_first c (t ∷ ts) = (c ∷ t) ∷ ts

-- At each character with the code `sep`.
unfoldable pub split : ℕ → String → List String
split sep [] = [] ∷ []
split sep (c ∷ s) =
    let rest = split sep s in if nat_beq (code c) sep then [] ∷ rest else with_first c rest

-- `unicode.IsSpace`.
abbrev pub is_space : ℕ → Bool
is_space n =
    (leb 9 n && leb n 13)
    || nat_beq n 32
    || nat_beq n 133
    || nat_beq n 160
    || nat_beq n 5760
    || (leb 8192 n && leb n 8202)
    || nat_beq n 8232
    || nat_beq n 8233
    || nat_beq n 8239
    || nat_beq n 8287
    || nat_beq n 12288

abbrev pub trim_left : String → String
trim_left [] = []
trim_left (c ∷ s) = let rest = trim_left s in if is_space (code c) then rest else c ∷ s

abbrev pub keep_unless_blank : Char → String → String
keep_unless_blank c [] = if is_space (code c) then [] else c ∷ []
keep_unless_blank c (d ∷ s) = c ∷ d ∷ s

abbrev pub trim_right : String → String
trim_right [] = []
trim_right (c ∷ s) = keep_unless_blank c (trim_right s)

unfoldable pub trim_space : String → String
trim_space s = trim_right (trim_left s)

abbrev pub contains : String → String → Bool
contains s part = leb (find s part) (len s)

-- The codes of the text in lower case.
abbrev pub lower_code : ℕ → ℕ
lower_code n = if leb 65 n && leb n 90 then n + 32 else n

abbrev pub lower_codes : String → List ℕ
lower_codes [] = []
lower_codes (c ∷ s) = lower_code (code c) ∷ lower_codes s

abbrev pub same_codes : List ℕ → List ℕ → Bool
same_codes [] [] = true
same_codes [] (n ∷ ns) = false
same_codes (m ∷ ms) [] = false
same_codes (m ∷ ms) (n ∷ ns) = nat_beq m n && same_codes ms ns

-- `strings.ToLower(s) == word`, for a word in lower case.
abbrev pub lower_is : String → String → Bool
lower_is s word = same_codes (lower_codes s) (lower_codes word)

abbrev pub nth : ℕ → List String → String
nth n [] = ""
nth zero (s ∷ ss) = s
nth (suc n) (s ∷ ss) = nth n ss

abbrev pub digit : ℕ → String
digit n = nth n ("0" ∷ "1" ∷ "2" ∷ "3" ∷ "4" ∷ "5" ∷ "6" ∷ "7" ∷ "8" ∷ "9" ∷ [])

-- A number has fewer digits than its successor counts.
abbrev pub decimal_on : ℕ → ℕ → String
decimal_on zero n = ""
decimal_on (suc fuel) n =
    let rest = decimal_on fuel (n / 10) in if ltb n 10 then digit n else rest <> digit (n % 10)

unfoldable pub decimal : ℕ → String
decimal n = decimal_on (suc n) n
