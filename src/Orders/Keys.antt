-- ===== src/Orders/Keys.antt =====
-- Keys that are built from texts, and `str` of a UUID.
use Prim.Native.String.{◌++◌, slice}
use spacerocks_coa.Base.{
  ℕ, zero, suc, ◌/◌, ◌%◌, ◌^◌, String, ◌≡◌, refl, Option, none, some, ltb, true, false,
}

abbrev pub joined : String → String → String
joined s t = s ++ t

unfoldable pub hex_char : ℕ → String
hex_char n = slice "0123456789abcdef" n (suc n)

-- the last `width` hexadecimal digits
unfoldable pub hex_string : ℕ → ℕ → String
unfolding hex_char
hex_string zero n = ""
hex_string (suc width) n = hex_string width (n / 16) ++ hex_char (n % 16)

-- str(value), for a UUID
unfoldable pub uuid_string : ℕ → String
unfolding hex_string
uuid_string id =
    hex_string 8 (id / 2 ^ 96)
    ++ ("-"
        ++ (hex_string 4 (id / 2 ^ 80)
            ++ ("-"
                ++ (hex_string 4 (id / 2 ^ 64)
                    ++ ("-" ++ (hex_string 4 (id / 2 ^ 48) ++ ("-" ++ hex_string 12 id)))))))

uuid_17 : uuid_string 0x12345678000000000000000000000011 ≡ "12345678-0000-0000-0000-000000000011"
unfolding uuid_string hex_string hex_char
uuid_17 = refl

-- a text that is given and not empty, which Python's `if` takes as true
abbrev pub given : Option String → Option String
given none = none
given (some String.[]) = none
given (some s) = some s

unfoldable pub decimal_char : ℕ → String
decimal_char n = slice "0123456789" n (suc n)

unfoldable pub decimal_string_from : ℕ → ℕ → String
unfolding decimal_char
decimal_string_from zero n = decimal_char (n % 10)
decimal_string_from (suc fuel) n = elim (ltb n 10) [
  | true ↦ decimal_char n
  | false ↦ decimal_string_from fuel (n / 10) ++ decimal_char (n % 10)
]

-- `str(n)`. A number has fewer digits than its own value and one.
unfoldable pub decimal_string : ℕ → String
unfolding decimal_string_from
decimal_string n = decimal_string_from n n

decimal_1700000000 : decimal_string 1700000000000001 ≡ "1700000000000001"
unfolding decimal_string decimal_string_from decimal_char
decimal_1700000000 = refl
