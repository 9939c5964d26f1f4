-- ===== src/Common/Text.antt =====
-- Python's text methods that the program uses.
use Prim.Native.String.{String, char_at}
use Prim.Native.Char.{Char, code}
use vysvm.Common.Errors.{Result, ok, err, value_error}
use vysvm.Common.{
  if◌then◌else◌, ℕ, leb, ◌&&◌, ◌-◌, ◌*◌, ◌+◌, suc, List, ◌%◌, Bool, ◌/◌, false, ltb, ◌∷◌, ◌||◌,
  zero, [],
}
use vysvm.Common.Eq.{str_eq}

-- `str.upper`, on ASCII.
unfoldable pub upper_char : Char → Char
upper_char c =
    if leb b'a' (code c) && leb (code c) b'z'
    then char_at "ABCDEFGHIJKLMNOPQRSTUVWXYZ" (code c - b'a')
    else c

unfoldable pub upper : String → String
unfolding upper_char
upper String.[] = String.[]
upper (String.◌∷◌ c s) = String.◌∷◌ (upper_char c) (upper s)

-- `str.lower`, on ASCII.
pub lower_char : Char → Char
lower_char c =
    if leb b'A' (code c) && leb (code c) b'Z'
    then char_at "abcdefghijklmnopqrstuvwxyz" (code c - b'A')
    else c

unfoldable pub lower : String → String
unfolding lower_char
lower String.[] = String.[]
lower (String.◌∷◌ c s) = String.◌∷◌ (lower_char c) (lower s)

-- `int` of a text of decimal digits.
pub digits_value : ℕ → String → Result ℕ
digits_value n String.[] = ok n
digits_value n (String.◌∷◌ c s) =
    if leb b'0' (code c) && leb (code c) b'9'
    then digits_value (n * 10 + (code c - b'0')) s
    else err value_error

unfoldable pub int_of : String → Result ℕ
unfolding digits_value
int_of s = if str_eq s "" then err value_error else digits_value 0 s

-- The digits of a number before those that are done, with fuel.
unfoldable pub decimal_loop : ℕ → ℕ → String → String
decimal_loop zero n done = done
decimal_loop (suc fuel) n done =
    let digits = String.◌∷◌ (char_at "0123456789" (n % 10)) done in
    let rest = decimal_loop fuel (n / 10) digits in if ltb n 10 then digits else rest

-- `str` of a number; each round divides it by ten.
unfoldable pub decimal : ℕ → String
unfolding decimal_loop
decimal n = decimal_loop (suc n) n ""

-- `s in texts`
unfoldable pub in_texts : String → List String → Bool
in_texts s [] = false
in_texts s (t ∷ texts) = str_eq s t || in_texts s texts
