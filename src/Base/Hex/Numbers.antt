-- ===== src/Base/Hex/Numbers.antt =====
-- Hexadecimal text and the number that it is read as.
use native.Mathlib.Nat.{pow-suc}
use dappdata.Base.{
  ℕ, zero, suc, ◌+◌, ◌-◌, ◌*◌, ◌/◌, ◌%◌, ◌^◌, ◌≤◌, ◌<◌, ◌≡◌, refl, ap, ◌∙◌, true, ◌&&◌, Bool-cases,
  inl, inr, Option, none, some, [], ◌∷◌, ◌++◌, arith, ltb, ltb→lt, ltb→le, length, length-append,
}
use dappdata.Base.Hex.{
  Text, zeros, pad_start, digit_code, digits_in, hex_digits, digit_value, add_digit, read_digits,
  read_hex, is_hex_digit, all_hex, strip_0x,
}

pub digit_value-digit_code : (d : ℕ) → d < 16 → digit_value (digit_code d) ≡ some d
digit_value-digit_code d h = ground arith

read_digits-append :
    (o : Option ℕ) (s t : Text) → read_digits o (s ++ t) ≡ read_digits (read_digits o s) t
read_digits-append none [] t = refl
read_digits-append none (c ∷ s) t = refl
read_digits-append (some acc) [] t = refl
read_digits-append (some acc) (c ∷ s) t = read_digits-append (add_digit acc (digit_value c)) s t

read_digits-none : (t : Text) → read_digits none t ≡ none
read_digits-none t = refl

digits_in-small : (fuel n : ℕ) → n < 16 → digits_in fuel n ≡ digit_code n ∷ []
unfolding digits_in
digits_in-small zero n h = refl
digits_in-small (suc fuel) n h = ground (arith, h)

digits_in-large :
    (fuel n : ℕ)
    → 16 ≤ n
    → digits_in (suc fuel) n ≡ digits_in fuel (n / 16) ++ digit_code (n % 16) ∷ []
unfolding digits_in
digits_in-large fuel n h = ground (arith, h)

read_one : (acc d : ℕ) → d < 16 → read_digits (some acc) (digit_code d ∷ []) ≡ some (acc * 16 + d)
read_one acc d h = ap (λ o. read_digits (add_digit acc o) []) (digit_value-digit_code d h)

-- A number is at most its number of rounds, so the fuel suffices.
read_digits-digits_in : (fuel n : ℕ) → n ≤ fuel → read_digits (some 0) (digits_in fuel n) ≡ some n
read_digits-digits_in zero n h =
    rw (digits_in-small zero n (omega arith)) (read_one 0 n (omega arith) ∙ ap some (omega arith))
read_digits-digits_in (suc fuel) n h = elim (Bool-cases (ltb n 16)) [
  | inl e ↦
      rw (digits_in-small (suc fuel) n (ltb→lt n 16 e))
        (read_one 0 n (ltb→lt n 16 e) ∙ ap some (omega arith))
  | inr e ↦
      rw
        (
          digits_in-large fuel n (ltb→le n 16 e),
          read_digits-append (some 0) (digits_in fuel (n / 16)) (digit_code (n % 16) ∷ []),
          read_digits-digits_in fuel (n / 16) (omega (arith, ltb→le n 16 e)),
        )
        (read_one (n / 16) (n % 16) (omega arith) ∙ ap some (omega arith))
]

-- A number below 16 ^ (k + 1) has at most k + 1 digits.
length-digits_in : (k fuel n : ℕ) → n < 16 ^ suc k → n ≤ fuel → length (digits_in fuel n) ≤ suc k
length-digits_in k zero n h l = rw (digits_in-small zero n (omega arith)) (omega arith)
length-digits_in zero (suc fuel) n h l =
    rw (digits_in-small (suc fuel) n (omega (arith, pow-suc 16 0))) (omega arith)
length-digits_in (suc k) (suc fuel) n h l = elim (Bool-cases (ltb n 16)) [
  | inl e ↦ rw (digits_in-small (suc fuel) n (ltb→lt n 16 e)) (omega arith)
  | inr e ↦
      let shorter =
        length-digits_in k fuel (n / 16) (omega (arith, pow-suc 16 (suc k)))
          (omega (arith, ltb→le n 16 e)) in
      rw
        (
          digits_in-large fuel n (ltb→le n 16 e),
          length-append (digits_in fuel (n / 16)) (digit_code (n % 16) ∷ []),
        )
        (omega arith)
]

read_digits-zeros :
    (n : ℕ) (t : Text) → read_digits (some 0) (zeros n ++ t) ≡ read_digits (some 0) t
read_digits-zeros zero t = refl
read_digits-zeros (suc n) t = read_digits-zeros n t

length-zeros : (n : ℕ) → length (zeros n) ≡ n
length-zeros zero = refl
length-zeros (suc n) = ap suc (length-zeros n)

pub length-pad_start : (n : ℕ) (t : Text) → length t ≤ n → length (pad_start n t) ≡ n
length-pad_start n t h =
    length-append (zeros (n - length t)) t ∙ omega (arith, length-zeros (n - length t))

pub length-hex_digits : (k n : ℕ) → n < 16 ^ suc k → length (hex_digits n) ≤ suc k
unfolding hex_digits
length-hex_digits k n h = length-digits_in k n n h (omega arith)

pub read_digits-padded : (k n : ℕ) → read_digits (some 0) (pad_start k (hex_digits n)) ≡ some n
unfolding hex_digits
read_digits-padded k n =
    read_digits-zeros (k - length (digits_in n n)) (digits_in n n)
    ∙ read_digits-digits_in n n (omega arith)

read_hex-read_digits : (t : Text) → 0 < length t → read_hex t ≡ read_digits (some 0) t
unfolding read_hex
read_hex-read_digits [] h = absurd (omega (arith, h))
read_hex-read_digits (c ∷ t) h = refl

pub read_hex-padded : (k n : ℕ) → 0 < k → read_hex (pad_start k (hex_digits n)) ≡ some n
read_hex-padded k n h =
    let size = length-append (zeros (k - length (hex_digits n))) (hex_digits n) in
    read_hex-read_digits (pad_start k (hex_digits n))
      (omega (arith, h, size, length-zeros (k - length (hex_digits n))))
    ∙ read_digits-padded k n

all_hex-append : (s t : Text) → all_hex s ≡ true → all_hex t ≡ true → all_hex (s ++ t) ≡ true
all_hex-append [] t a b = b
all_hex-append (c ∷ s) t a b = ground (arith, all_hex-append s t)

digit_code_hex : (d : ℕ) → d < 16 → is_hex_digit (digit_code d) ≡ true
digit_code_hex d h = ground arith

all_hex-digit : (d : ℕ) → d < 16 → all_hex (digit_code d ∷ []) ≡ true
all_hex-digit d h = ap (λ b. b && true) (digit_code_hex d h)

all_hex-digits_in : (fuel n : ℕ) → n ≤ fuel → all_hex (digits_in fuel n) ≡ true
all_hex-digits_in zero n h =
    rw (digits_in-small zero n (omega arith)) (all_hex-digit n (omega arith))
all_hex-digits_in (suc fuel) n h = elim (Bool-cases (ltb n 16)) [
  | inl e ↦ rw (digits_in-small (suc fuel) n (ltb→lt n 16 e)) (all_hex-digit n (ltb→lt n 16 e))
  | inr e ↦ rw (digits_in-large fuel n (ltb→le n 16 e)) (
      all_hex-append (digits_in fuel (n / 16)) (digit_code (n % 16) ∷ [])
        (all_hex-digits_in fuel (n / 16) (omega (arith, ltb→le n 16 e)))
        (all_hex-digit (n % 16) (omega arith)))
]

pub all_hex-hex_digits : (n : ℕ) → all_hex (hex_digits n) ≡ true
unfolding hex_digits
all_hex-hex_digits n = all_hex-digits_in n n (omega arith)

-- An `x` is no digit.
pub strip_0x-all_hex : (t : Text) → all_hex t ≡ true → strip_0x t ≡ t
strip_0x-all_hex [] h = refl
strip_0x-all_hex (a ∷ []) h = refl
strip_0x-all_hex (a ∷ b ∷ t) h = ground (arith, h)
