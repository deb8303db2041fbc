-- ===== src/AccountKey/Decimal.antt =====
-- `%d` of a uint64 and `strconv.ParseUint(s, 10, 64)`, and that the second undoes the first.
use Prim.Native.String.{[], ◌∷◌}
use platform_mihomo_service.Base.{
  ℕ, zero, suc, ◌+◌, ◌-◌, ◌*◌, ◌/◌, ◌%◌, ◌^◌, ◌<◌, Char, String, Option, none, some, Bool, true,
  false, ◌&&◌, code, ◌≡◌, ◌≢◌, ◌∙◌, ap, refl, ltb, leb, eqb, if◌then◌else◌, arith, inl, inr,
  Bool-cases,
}

digit : ℕ → Char
digit zero = "0"
digit (suc zero) = "1"
digit (suc (suc zero)) = "2"
digit (suc (suc (suc zero))) = "3"
digit (suc (suc (suc (suc zero)))) = "4"
digit (suc (suc (suc (suc (suc zero))))) = "5"
digit (suc (suc (suc (suc (suc (suc zero)))))) = "6"
digit (suc (suc (suc (suc (suc (suc (suc zero))))))) = "7"
digit (suc (suc (suc (suc (suc (suc (suc (suc zero)))))))) = "8"
digit (suc (suc (suc (suc (suc (suc (suc (suc (suc _))))))))) = "9"

-- The digits of n in front of `out`, from the last; `suc n` rounds are enough.
emit : ℕ → ℕ → String → String
emit zero n out = out
emit (suc f) n out = elim (eqb (n / 10) 0) [
  | true ↦ digit (n % 10) ∷ out
  | false ↦ emit f (n / 10) (digit (n % 10) ∷ out)
]

unfoldable pub format_uint : ℕ → String
unfolding emit digit
format_uint n = emit (suc n) n []

is_digit : ℕ → Bool
is_digit c = leb b'0' c && leb c b'9'

-- The loop of `ParseUint`: a byte that is no digit and a value past 2^64 - 1 are errors.
scan : String → ℕ → Option ℕ
unfolding is_digit
scan [] n = some n
scan (c ∷ s) n =
    let next = n * 10 + (code c - b'0') in
    let rest = scan s next in
    if is_digit (code c) then if ltb next (2 ^ 64) then rest else none else none

unfoldable pub parse_uint : String → Option ℕ
unfolding scan
parse_uint [] = none
parse_uint (c ∷ s) = scan (c ∷ s) 0

code-digit : (d : ℕ) → d < 10 → code (digit d) ≡ b'0' + d
unfolding digit
code-digit zero h = refl
code-digit (suc zero) h = refl
code-digit (suc (suc zero)) h = refl
code-digit (suc (suc (suc zero))) h = refl
code-digit (suc (suc (suc (suc zero)))) h = refl
code-digit (suc (suc (suc (suc (suc zero))))) h = refl
code-digit (suc (suc (suc (suc (suc (suc zero)))))) h = refl
code-digit (suc (suc (suc (suc (suc (suc (suc zero))))))) h = refl
code-digit (suc (suc (suc (suc (suc (suc (suc (suc zero)))))))) h = refl
code-digit (suc (suc (suc (suc (suc (suc (suc (suc (suc n))))))))) h = omega arith

scan-cons :
    (c : Char) (d n : ℕ) (s : String)
    → code c ≡ b'0' + d
    → d < 10
    → n * 10 + d < 2 ^ 64
    → scan (c ∷ s) n ≡ scan s (n * 10 + d)
unfolding scan
scan-cons c d n s e h k =
    let same : code c - b'0' ≡ d = omega arith in
    let low : leb b'0' (code c) ≡ true = ground arith in
    let high : leb (code c) b'9' ≡ true = ground arith in
    let fits : ltb (n * 10 + d) (2 ^ 64) ≡ true = ground arith in rw (low, high, same, fits)

scan-digit :
    (d n : ℕ) (s : String)
    → d < 10
    → n * 10 + d < 2 ^ 64
    → scan (digit d ∷ s) n ≡ scan s (n * 10 + d)
scan-digit d n s h k = scan-cons (digit d) d n s (code-digit d h) h k

-- Reading the digits of n from 0 gives n, and goes on with what follows them.
scan-emit : (f n : ℕ) (out : String) → n < f → n < 2 ^ 64 → scan (emit f n out) 0 ≡ scan out n
unfolding emit
scan-emit zero n out h k = absurd (omega arith)
scan-emit (suc f) n out h k =
    let low : scan (digit (n % 10) ∷ out) 0 ≡ scan out (0 * 10 + n % 10) =
      scan-digit (n % 10) 0 out (omega arith) (omega arith) in
    let high : scan (digit (n % 10) ∷ out) (n / 10) ≡ scan out (n / 10 * 10 + n % 10) =
      scan-digit (n % 10) (n / 10) out (omega arith) (omega arith) in
    let whole : n / 10 * 10 + n % 10 ≡ n = omega arith in
    elim (Bool-cases (eqb (n / 10) 0)) [
      | inl last ↦
          let small : 0 * 10 + n % 10 ≡ n = ground arith in
          rw (last, emit) (low ∙ ap (scan out) small)
      | inr more ↦
          let less : n / 10 < f = ground arith in
          rw (more, emit)
            (scan-emit f (n / 10) (digit (n % 10) ∷ out) less (omega arith)
              ∙ high
              ∙ ap (scan out) whole)
    ]

emit-cons : (f n : ℕ) (out : String) → n < f → (c : Char) × (s : String) × (emit f n out ≡ c ∷ s)
unfolding emit
emit-cons zero n out h = absurd (omega arith)
emit-cons (suc f) n out h = elim (Bool-cases (eqb (n / 10) 0)) [
  | inl last ↦ (digit (n % 10), out, rw (last, emit))
  | inr more ↦
      let (c, s, e) = emit-cons f (n / 10) (digit (n % 10) ∷ out) (ground arith) in
      (c, s, rw (more, emit) e)
]

-- No character of the text is the separator '_'.
abbrev pub NoSeparator : String → Type 0
NoSeparator [] = Unit
NoSeparator (c ∷ s) = (code c ≢ b'_') × NoSeparator s

emit-NoSeparator : (f n : ℕ) (out : String) → NoSeparator out → NoSeparator (emit f n out)
unfolding emit
emit-NoSeparator zero n out h = h
emit-NoSeparator (suc f) n out h =
    let plain : code (digit (n % 10)) ≢ b'_' =
      let e : code (digit (n % 10)) ≡ b'0' + n % 10 = code-digit (n % 10) (omega arith) in
      omega arith in
    elim (Bool-cases (eqb (n / 10) 0)) [
      | inl last ↦ rw (last, emit) (plain, h)
      | inr more ↦ rw (more, emit) (emit-NoSeparator f (n / 10) (digit (n % 10) ∷ out) (plain, h))
    ]

pub format_uint-cons : (n : ℕ) → (c : Char) × (s : String) × (format_uint n ≡ c ∷ s)
unfolding format_uint
format_uint-cons n = emit-cons (suc n) n [] (omega arith)

pub format_uint-NoSeparator : (n : ℕ) → NoSeparator (format_uint n)
unfolding format_uint
format_uint-NoSeparator n = emit-NoSeparator (suc n) n [] tt

scan-format_uint : (n : ℕ) → n < 2 ^ 64 → scan (format_uint n) 0 ≡ some n
unfolding format_uint scan
scan-format_uint n h = scan-emit (suc n) n [] (omega arith) h

-- Reading what was printed gives the number back.
pub parse_uint-format_uint : (n : ℕ) → n < 2 ^ 64 → parse_uint (format_uint n) ≡ some n
unfolding parse_uint
parse_uint-format_uint n h =
    let (c, s, e) = format_uint-cons n in rw e (rw e at (scan-format_uint n h))

scan_bound : (s : String) (n v : ℕ) → n < 2 ^ 64 → scan s n ≡ some v → v < 2 ^ 64
unfolding scan
scan_bound [] n v h e = ground arith
scan_bound (c ∷ s) n v h e = ground (arith, scan_bound s (n * 10 + (code c - b'0')) v)

-- Every value that is read is a uint64.
pub parse_uint_bound : (s : String) (v : ℕ) → parse_uint s ≡ some v → v < 2 ^ 64
unfolding parse_uint
parse_uint_bound [] v e = cc
parse_uint_bound (c ∷ s) v e = scan_bound (c ∷ s) 0 v (omega arith) e
