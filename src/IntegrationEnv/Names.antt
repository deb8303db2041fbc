-- ===== src/IntegrationEnv/Names.antt =====
-- Names of databases and Redis prefixes that no other run uses: sanitizeIdentifier, randomSuffix,
-- UniqueDatabaseName and UniqueRedisPrefix of internal/testutil/integrationenv/env.go.
pub mod Identifier
mod Lengths
mod Suffix
pub mod Unique
use Prim.Native.String.{[], ◌∷◌, ◌++◌}
use platform_mihomo_service.Base.{
  ℕ, zero, suc, ◌+◌, ◌-◌, ◌/◌, ◌%◌, Char, String, Option, none, some, Bool, true, false, ◌&&◌, ◌||◌,
  code, ltb, leb, eqb, ◌==◌, if◌then◌else◌, List, [], ◌∷◌,
}
use platform_mihomo_service.Base.Text.{to_char}
use platform_mihomo_service.IntegrationEnv.Text.{size, take, drop, same_char, trim, trim_space}

-- `unicode.ToLower` where its result is in ASCII; `sanitize_identifier` treats every letter outside
-- ASCII alike.
unfoldable pub to_lower : Char → Char
to_lower c =
    if leb b'A' (code c) && leb (code c) b'Z'
    then to_char (code c + 32)
    else if eqb (code c) 0x130
    then "i"
    else if eqb (code c) 0x212a
    then "k"
    else c

unfoldable pub map_text : (Char → Char) → String → String
map_text f [] = []
map_text f (c ∷ s) = f c ∷ map_text f s

-- The cases of the `switch` that write the character itself.
unfoldable pub is_plain : Char → Bool
is_plain c = (leb b'a' (code c) && leb (code c) b'z') || (leb b'0' (code c) && leb (code c) b'9')

-- The loop, with `lastWasSeparator` before the text.
unfoldable pub written : Char → Bool → String → String
unfolding is_plain
written separator last_was_separator [] = []
written separator last_was_separator (c ∷ s) = elim (is_plain c) [
  | true ↦ c ∷ written separator false s
  | false ↦ elim last_was_separator [
    | true ↦ written separator true s
    | false ↦ separator ∷ written separator true s
  ]
]

-- What follows the early return for a text without contents.
unfoldable pub sanitized : Char → String → String → String
unfolding written trim
sanitized separator fallback trimmed =
    let result = trim (same_char separator) (written separator false trimmed) in
    if result == "" then fallback else result

unfoldable pub sanitize_identifier : String → Char → String → String
unfolding sanitized trim_space map_text to_lower
sanitize_identifier value separator fallback =
    let trimmed = trim_space (map_text to_lower value) in
    if trimmed == "" then fallback else sanitized separator fallback trimmed

unfoldable pub hex_digit : ℕ → Char
hex_digit d = if ltb d 10 then to_char (b'0' + d) else to_char (b'a' + (d - 10))

-- `hex.EncodeToString(buf)`
unfoldable pub hex_bytes : List ℕ → String
unfolding hex_digit
hex_bytes [] = []
hex_bytes (b ∷ bs) = hex_digit (b / 16 % 16) ∷ hex_digit (b % 16) ∷ hex_bytes bs

-- `fmt.Sprintf("%08x", n)`: at least `width` digits, in front of `out`; `f` rounds.
unfoldable pub hex_digits : ℕ → ℕ → ℕ → String → String
unfolding hex_digit
hex_digits zero width n out = out
hex_digits (suc f) width n out = elim (eqb n 0 && eqb width 0) [
  | true ↦ out
  | false ↦ hex_digits f (width - 1) (n / 16) (hex_digit (n % 16) ∷ out)
]

-- What the process takes from its surroundings for a suffix: the four bytes of `rand.Read`, if it
-- succeeds, and the clock, a count of nanoseconds.
pub record Entropy : Type 0 where
  pub random : Option (ℕ × ℕ × ℕ × ℕ)
  pub unix_nano : ℕ

unfoldable pub random_suffix : Entropy → String
unfolding hex_bytes hex_digits
random_suffix e = elim e.random [
  | none ↦ take 8 (hex_digits (e.unix_nano + 8) 8 e.unix_nano [])
  | some (a, b, c, d) ↦ hex_bytes (a ∷ b ∷ c ∷ d ∷ [])
]

abbrev pub join3 : Char → String → String → String → String
join3 c a b s = a ++ (c ∷ (b ++ (c ∷ s)))

-- `64 - len(name) - len(suffix) - 2`, raised to 8; a difference below 0 is raised too.
abbrev pub max_base_len : String → String → ℕ
max_base_len name suffix = let n = 64 - size name - size suffix - 2 in if ltb n 8 then 8 else n

-- The base where the whole is too long.
unfoldable pub short_base : ℕ → String → String
unfolding trim
short_base n base =
    if ltb n (size base)
    then (let cut = trim (same_char "_") (take n base) in if cut == "" then "itest" else cut)
    else base

-- The last 64 characters, without separators at the ends.
unfoldable pub last_64 : String → String
unfolding trim
last_64 value =
    trim (same_char "_") (if ltb 64 (size value) then drop (size value - 64) value else value)

unfoldable pub database_name : String → String → String → String
unfolding short_base last_64
database_name base name suffix =
    if leb (size (join3 "_" base name suffix)) 64
    then join3 "_" base name suffix
    else last_64 (join3 "_" (short_base (max_base_len name suffix) base) name suffix)

unfoldable pub unique_database_name : Entropy → String → String → String
unfolding database_name sanitize_identifier random_suffix
unique_database_name e base_name test_name =
    database_name (sanitize_identifier base_name "_" "itest")
      (sanitize_identifier test_name "_" "test") (random_suffix e)

unfoldable pub unique_redis_prefix : Entropy → String → String → String
unfolding sanitize_identifier random_suffix
unique_redis_prefix e base_prefix test_name =
    join3 ":" (sanitize_identifier base_prefix ":" "itest")
      (sanitize_identifier test_name ":" "test") (random_suffix e)
