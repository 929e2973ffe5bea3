-- ===== src/Base/Text.antt =====
-- Texts as lists of code points, and the ways in which Python prints numbers.
use Prim.Native.Nat.{ℕ, zero, suc, ◌+◌, ◌/◌, ◌%◌}
use Prim.Native.Char.{code}
use Prim.Native.String.{String}
use mathlib.Core.Bool.{Bool, true, false, ◌&&◌, ◌||◌}
use mathlib.Core.List.{List, [], ◌∷◌, ◌++◌}
use spacerocks_coa.Base.Tests.{ltb, ◌==◌, if◌then◌else◌}

-- the code points of a text
abbrev pub codes : String → List ℕ
codes String.[] = []
codes (String.◌∷◌ c s) = code c ∷ codes s

-- a digit of `int.hex`, `'0'..'9'` and `'a'..'f'`
unfoldable pub hex_digit : ℕ → ℕ
hex_digit d = if ltb d 10 then 48 + d else 87 + d

-- the last `n` hexadecimal digits of `x`, zeros included
unfoldable pub hex_digits : ℕ → ℕ → List ℕ
unfolding hex_digit
hex_digits zero x = []
hex_digits (suc n) x = hex_digits n (x / 16) ++ hex_digit (x % 16) ∷ []

unfoldable pub decimal_from : ℕ → ℕ → List ℕ
decimal_from zero n = (48 + n % 10) ∷ []
decimal_from (suc fuel) n =
    let rest = decimal_from fuel (n / 10) ++ (48 + n % 10) ∷ [] in
    if ltb n 10 then (48 + n) ∷ [] else rest

-- `str(n)`. A number has fewer digits than its own value and one.
unfoldable pub decimal : ℕ → List ℕ
unfolding decimal_from
decimal n = decimal_from n n

-- `s.startswith(p)`
unfoldable pub starts_with : List ℕ → List ℕ → Bool
starts_with [] s = true
starts_with (c ∷ p) [] = false
starts_with (c ∷ p) (d ∷ s) = c == d && starts_with p s

-- `p in s`
unfoldable pub contains_text : List ℕ → List ℕ → Bool
unfolding starts_with
contains_text p [] = starts_with p []
contains_text p (d ∷ s) = starts_with p (d ∷ s) || contains_text p s

-- `s.lower()` of a text of ASCII characters
abbrev pub lower_ascii : ℕ → ℕ
lower_ascii c = if ltb c 65 then c else if ltb 90 c then c else c + 32
