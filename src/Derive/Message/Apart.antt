-- ===== src/Derive/Message/Apart.antt =====
-- The messages of packages/dappdata/src/derive/message.ts, told apart.
use dappdata.Base.{
  ℕ, zero, suc, ◌+◌, ◌*◌, ◌<◌, ◌≡◌, refl, ap, true, Bool-cases, ◌&&◌, inl, inr, String, [], ◌∷◌,
  ◌++◌, arith, ◌==◌, ==_iff, ok, length, append_same,
}
use dappdata.Base.Hex.{
  Text, codes, to_lower_case, strip_0x, all_hex, is_hex_digit, digit_value, digit_or_zero,
  hex_to_bytes,
}
use dappdata.Errors.{Bytes}
use dappdata.Derive.Message.{purpose, struct_type, zero_bytes, address32, hash, struct_input}

abbrev value : ℕ → ℕ
value c = digit_or_zero (digit_value c)

value-injective :
    (c d : ℕ) → is_hex_digit c ≡ true → is_hex_digit d ≡ true → value c ≡ value d → c ≡ d
value-injective c d hc hd e = ground arith

value-small : (c : ℕ) → is_hex_digit c ≡ true → value c < 16
value-small c h = ground arith

hex_to_bytes-injective :
    (n : ℕ) (t u : Text)
    → length t ≡ n + n
    → length u ≡ n + n
    → all_hex t ≡ true
    → all_hex u ≡ true
    → hex_to_bytes t ≡ hex_to_bytes u
    → t ≡ u
unfolding hex_to_bytes
hex_to_bytes-injective zero [] [] m k ht hu e = refl
hex_to_bytes-injective zero (a ∷ t) u m k ht hu e = absurd (omega arith)
hex_to_bytes-injective zero [] (b ∷ u) m k ht hu e = absurd (omega arith)
hex_to_bytes-injective (suc n) (a ∷ b ∷ t) (c ∷ d ∷ u) m k ht hu e =
    let sum : value a * 16 + value b ≡ value c * 16 + value d = cc in
    let rest : hex_to_bytes t ≡ hex_to_bytes u = cc in
    let a_hex : is_hex_digit a ≡ true = ground (arith, ht) in
    let b_hex : is_hex_digit b ≡ true = ground (arith, ht) in
    let c_hex : is_hex_digit c ≡ true = ground (arith, hu) in
    let d_hex : is_hex_digit d ≡ true = ground (arith, hu) in
    let first : a ≡ c =
      value-injective a c a_hex c_hex
        (omega (arith, sum, value-small b b_hex, value-small d d_hex)) in
    let second : b ≡ d =
      value-injective b d b_hex d_hex
        (omega (arith, sum, value-small b b_hex, value-small d d_hex)) in
    let t_hex : all_hex t ≡ true = ground (arith, ht) in
    let u_hex : all_hex u ≡ true = ground (arith, hu) in
    let tails =
      hex_to_bytes-injective n t u (omega (arith, m)) (omega (arith, k)) t_hex u_hex rest in
    cc
hex_to_bytes-injective (suc n) [] u m k ht hu e = absurd (omega arith)
hex_to_bytes-injective (suc n) (a ∷ []) u m k ht hu e = absurd (omega arith)
hex_to_bytes-injective (suc n) (a ∷ b ∷ t) [] m k ht hu e = absurd (omega arith)
hex_to_bytes-injective (suc n) (a ∷ b ∷ t) (c ∷ []) m k ht hu e = absurd (omega arith)

-- The digits of an account, letter case and `0x` aside.
abbrev pub digits_of : String → Text
digits_of account = strip_0x (to_lower_case (codes account))

address32-digits :
    (account : String) (a : Bytes)
    → address32 account ≡ ok a
    → (length (digits_of account) ≡ 40)
      × (all_hex (digits_of account) ≡ true)
      × (a ≡ zero_bytes 12 ++ hex_to_bytes (digits_of account))
unfolding address32
address32-digits account a e =
    elim (Bool-cases (length (digits_of account) == 40 && all_hex (digits_of account))) [
      | inl b ↦
          let size : (length (digits_of account) == 40) ≡ true = ground (arith, b) in
          let digits : all_hex (digits_of account) ≡ true = ground (arith, b) in
          let o : address32 account ≡ ok (zero_bytes 12 ++ hex_to_bytes (digits_of account)) =
            (rw b refl) in
          ((==_iff (length (digits_of account)) 40).0 size, digits, cc)
      | inr b ↦ absurd (let o = (rw b at e) in cc)
    ]

length-hex_to_bytes : (n : ℕ) (t : Text) → length t ≡ n + n → length (hex_to_bytes t) ≡ n
unfolding hex_to_bytes
length-hex_to_bytes zero [] h = refl
length-hex_to_bytes zero (a ∷ t) h = absurd (omega arith)
length-hex_to_bytes (suc n) [] h = absurd (omega arith)
length-hex_to_bytes (suc n) (a ∷ []) h = absurd (omega arith)
length-hex_to_bytes (suc n) (a ∷ b ∷ t) h = omega (arith, length-hex_to_bytes n t (omega arith))

same_size :
    (a a' : Bytes) (account account' : String)
    → length (digits_of account) ≡ 40
    → length (digits_of account') ≡ 40
    → a ≡ zero_bytes 12 ++ hex_to_bytes (digits_of account)
    → a' ≡ zero_bytes 12 ++ hex_to_bytes (digits_of account')
    → length a ≡ length a'
same_size a a' account account' n n' p p' = omega (
  arith,
  ap length p,
  ap length p',
  length-hex_to_bytes 20 (digits_of account) n,
  length-hex_to_bytes 20 (digits_of account') n',
)

module _ (keccak : Bytes → Bytes) (utf8 : Text → Bytes) where
  -- If two accounts are addresses and the structs of their messages hash the same bytes, then the
  -- accounts are the same, letter case aside, and the apps have the same hash.
  pub struct_input_apart :
      (account account' app app' : String) (a a' : Bytes)
      → ((b : Bytes) → length (keccak b) ≡ 32)
      → address32 account ≡ ok a
      → address32 account' ≡ ok a'
      → struct_input keccak utf8 a app ≡ struct_input keccak utf8 a' app'
      → (digits_of account ≡ digits_of account')
        × (hash keccak utf8 (codes app) ≡ hash keccak utf8 (codes app'))
  unfolding struct_input hash
  struct_input_apart account account' app app' a a' size k k' e =
      let (n, h, p) = address32-digits account a k in
      let (n', h', p') = address32-digits account' a' k' in
      let (l, e1) =
        append_same (keccak (utf8 struct_type)) (keccak (utf8 struct_type)) _ _ refl e in
      let (l', e2) = append_same (keccak (utf8 purpose)) (keccak (utf8 purpose)) _ _ refl e1 in
      let (same, e3) = append_same a a' _ _ (same_size a a' account account' n n' p p') e2 in
      let (apps, l'') =
        append_same (keccak (utf8 (codes app))) (keccak (utf8 (codes app'))) _ _
          (omega (arith, size (utf8 (codes app)), size (utf8 (codes app')))) e3 in
      let zs =
        append_same (zero_bytes 12) (zero_bytes 12) (hex_to_bytes (digits_of account))
          (hex_to_bytes (digits_of account')) refl (cc) in
      (hex_to_bytes-injective 20 (digits_of account) (digits_of account') n n' h h' (zs.1), apps)
