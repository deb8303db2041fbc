-- ===== src/IntegrationEnv/Names/Suffix.antt =====
-- What randomSuffix of internal/testutil/integrationenv/env.go gives: eight hexadecimal digits.
use Prim.Native.String.{[], ◌∷◌}
use platform_mihomo_service.Base.{
  ℕ, zero, suc, ◌+◌, ◌-◌, ◌%◌, ◌/◌, ◌<◌, ◌≤◌, Char, String, Option, none, some, code, ◌≡◌, refl,
  ltb, eqb, arith, inl, inr, ◌⊎◌, Bool-cases, List, [], ◌∷◌, ◌&&◌,
}
use platform_mihomo_service.Base.Text.{to_char, code-to_char}
use platform_mihomo_service.IntegrationEnv.Text.{size, take, same_char}
use platform_mihomo_service.IntegrationEnv.Names.Lengths.{NonePass}
use platform_mihomo_service.IntegrationEnv.Names.{
  Entropy, hex_digit, hex_bytes, hex_digits, random_suffix,
}

abbrev IsHexDigit : Char → Type 0
IsHexDigit c = ((b'0' ≤ code c) × (code c ≤ b'9')) ⊎ ((b'a' ≤ code c) × (code c ≤ b'f'))

-- All characters are hexadecimal digits.
abbrev pub IsHex : String → Type 0
IsHex [] = Unit
IsHex (c ∷ s) = IsHexDigit c × IsHex s

hex_digit-IsHexDigit : (d : ℕ) → d < 16 → IsHexDigit (hex_digit d)
unfolding hex_digit
hex_digit-IsHexDigit d h = elim (Bool-cases (ltb d 10)) [
  | inl e ↦
      let k : code (to_char (b'0' + d)) ≡ b'0' + d = code-to_char (b'0' + d) (omega arith) in
      rw e (inl (omega arith, ground arith))
  | inr e ↦
      let k : code (to_char (b'a' + (d - 10))) ≡ b'a' + (d - 10) =
        code-to_char (b'a' + (d - 10)) (omega arith) in
      rw e (inr (omega arith, omega arith))
]

hex_bytes-IsHex : (bs : List ℕ) → IsHex (hex_bytes bs)
unfolding hex_bytes
hex_bytes-IsHex [] = tt
hex_bytes-IsHex (b ∷ bs) = (
  hex_digit-IsHexDigit (b / 16 % 16) (omega arith),
  (hex_digit-IsHexDigit (b % 16) (omega arith), hex_bytes-IsHex bs),
)

hex_digits-IsHex : (f width n : ℕ) (out : String) → IsHex out → IsHex (hex_digits f width n out)
unfolding hex_digits
hex_digits-IsHex zero width n out h = h
hex_digits-IsHex (suc f) width n out h = elim (Bool-cases (eqb n 0 && eqb width 0)) [
  | inl e ↦ rw (e, hex_digits) h
  | inr e ↦
      rw (e, hex_digits)
        (hex_digits-IsHex f (width - 1) (n / 16) (hex_digit (n % 16) ∷ out)
          (hex_digit-IsHexDigit (n % 16) (omega arith), h))
]

-- Enough rounds print at least the digits of the width.
size-hex_digits :
    (f width n : ℕ) (out : String) → width ≤ f → width + size out ≤ size (hex_digits f width n out)
unfolding hex_digits
size-hex_digits zero width n out h = omega arith
size-hex_digits (suc f) width n out h = elim (Bool-cases (eqb n 0 && eqb width 0)) [
  | inl e ↦ rw (e, hex_digits) (ground arith)
  | inr e ↦
      let rest = size-hex_digits f (width - 1) (n / 16) (hex_digit (n % 16) ∷ out) (omega arith) in
      rw (e, hex_digits) (omega arith)
]

size-take : (n : ℕ) (s : String) → n ≤ size s → size (take n s) ≡ n
size-take zero s h = refl
size-take (suc n) [] h = absurd (omega arith)
size-take (suc n) (c ∷ s) h = let rest = size-take n s (omega arith) in omega arith

take-IsHex : (n : ℕ) (s : String) → IsHex s → IsHex (take n s)
take-IsHex zero s h = tt
take-IsHex (suc n) [] h = tt
take-IsHex (suc n) (c ∷ s) (d, h) = (d, take-IsHex n s h)

pub size-random_suffix : (e : Entropy) → size (random_suffix e) ≡ 8
unfolding random_suffix
size-random_suffix e = sized e.random
  where
    sized : (r : Option (ℕ × ℕ × ℕ × ℕ)) → size (random_suffix (record e { random = r })) ≡ 8
    sized none =
        let long = size-hex_digits (e.unix_nano + 8) 8 e.unix_nano [] (omega arith) in
        size-take 8 (hex_digits (e.unix_nano + 8) 8 e.unix_nano []) (omega arith)
    sized (some bytes) = refl

pub random_suffix-IsHex : (e : Entropy) → IsHex (random_suffix e)
unfolding random_suffix
random_suffix-IsHex e = hex e.random
  where
    hex : (r : Option (ℕ × ℕ × ℕ × ℕ)) → IsHex (random_suffix (record e { random = r }))
    hex none = take-IsHex 8 _ (hex_digits-IsHex (e.unix_nano + 8) 8 e.unix_nano [] tt)
    hex (some (a, b, c, d)) = hex_bytes-IsHex (a ∷ b ∷ c ∷ d ∷ [])

-- No hexadecimal digit is the separator of names.
pub IsHex-NonePass : (s : String) → IsHex s → NonePass (same_char "_") s
IsHex-NonePass [] h = tt
IsHex-NonePass (c ∷ s) (d, h) = (ground arith, IsHex-NonePass s h)
