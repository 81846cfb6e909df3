-- ===== src/Base/Hex.antt =====
-- Text that is walked, as the list of its codes, and hexadecimal numbers: what JavaScript's
-- `toLowerCase`, `replace(/^0x/, "")`, `padStart`, `toString(16)` and `BigInt("0x" + …)` do on ASCII.
pub mod Numbers
use Prim.Native.Char.{code}
use Prim.Native.Nat.{ℕ, zero, suc, ◌+◌, ◌-◌, ◌*◌, ◌/◌, ◌%◌}
use Prim.Native.String.{String}
use mathlib.Core.Bool.{Bool, true, false, ◌&&◌, ◌||◌}
use mathlib.Core.List.{List, [], ◌∷◌, ◌++◌, map}
use mathlib.Core.Option.{Option, none, some}
use dappdata.Base.Lists.{length, take}
use dappdata.Base.Tests.{ltb, leb, ◌==◌, if◌then◌else◌}

abbrev pub Text : Type 0
Text = List ℕ

-- `String` has its own `[]` and `∷`.
abbrev pub codes : String → Text
codes String.[] = []
codes (String.◌∷◌ c s) = code c ∷ codes s

abbrev pub lower_code : ℕ → ℕ
lower_code c = if leb 65 c && leb c 90 then c + 32 else c

abbrev pub to_lower_case : Text → Text
to_lower_case t = map lower_code t

abbrev pub strip_0x : Text → Text
strip_0x [] = []
strip_0x (a ∷ []) = a ∷ []
strip_0x (a ∷ b ∷ t) = if a == 48 && b == 120 then t else a ∷ b ∷ t

abbrev pub zeros : ℕ → Text
zeros zero = []
zeros (suc n) = 48 ∷ zeros n

-- `padStart(n, "0")`
abbrev pub pad_start : ℕ → Text → Text
pad_start n t = zeros (n - length t) ++ t

abbrev pub digit_code : ℕ → ℕ
digit_code d = if ltb d 10 then d + 48 else d + 87

-- `n.toString(16)`: `n` rounds are enough, as a quotient by 16 is smaller.
unfoldable pub digits_in : ℕ → ℕ → Text
digits_in zero n = digit_code n ∷ []
digits_in (suc fuel) n = elim (ltb n 16) [
  | true ↦ digit_code n ∷ []
  | false ↦ digits_in fuel (n / 16) ++ digit_code (n % 16) ∷ []
]

unfoldable pub hex_digits : ℕ → Text
unfolding digits_in
hex_digits n = digits_in n n

-- The value of a digit of either letter case.
abbrev pub digit_value : ℕ → Option ℕ
digit_value c =
    if leb 48 c && leb c 57
    then some (c - 48)
    else if leb 97 c && leb c 102
    then some (c - 87)
    else if leb 65 c && leb c 70
    then some (c - 55)
    else none

-- The digits of a number, behind those whose value is `acc`.
abbrev pub add_digit : ℕ → Option ℕ → Option ℕ
add_digit acc none = none
add_digit acc (some d) = some (acc * 16 + d)

abbrev pub read_digits : Option ℕ → Text → Option ℕ
read_digits none t = none
read_digits (some acc) [] = some acc
read_digits (some acc) (c ∷ t) = read_digits (add_digit acc (digit_value c)) t

-- `BigInt("0x" + t)`, which throws where there is no digit, or another character.
unfoldable pub read_hex : Text → Option ℕ
read_hex [] = none
read_hex (c ∷ t) = read_digits (some 0) (c ∷ t)

-- `/^[0-9a-f]*$/`
abbrev pub is_hex_digit : ℕ → Bool
is_hex_digit c = leb 48 c && leb c 57 || leb 97 c && leb c 102

abbrev pub all_hex : Text → Bool
all_hex [] = true
all_hex (c ∷ t) = is_hex_digit c && all_hex t

-- `b.toString(16).padStart(2, "0")`, for every byte.
unfoldable pub hex_of_bytes : List ℕ → Text
hex_of_bytes [] = []
hex_of_bytes (b ∷ rest) = digit_code (b / 16) ∷ digit_code (b % 16) ∷ hex_of_bytes rest

-- The pairs of digits of a text of hexadecimal digits.
abbrev pub digit_or_zero : Option ℕ → ℕ
digit_or_zero none = 0
digit_or_zero (some d) = d

unfoldable pub hex_to_bytes : Text → List ℕ
hex_to_bytes [] = []
hex_to_bytes (a ∷ []) = []
hex_to_bytes (a ∷ b ∷ rest) =
    (digit_or_zero (digit_value a) * 16 + digit_or_zero (digit_value b)) ∷ hex_to_bytes rest
