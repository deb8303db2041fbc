-- ===== src/IntegrationEnv/Text.antt =====
-- The functions of packages strings, strconv and hex that the tools use on texts.
use Prim.Native.String.{[], ◌∷◌}
use platform_mihomo_service.Base.{
  ℕ, zero, suc, Char, String, Option, none, some, Bool, false, ◌&&◌, ◌||◌, code, leb, eqb,
  if◌then◌else◌,
}

-- `len(s)` of a text of ASCII characters.
abbrev pub size : String → ℕ
size [] = 0
size (c ∷ s) = suc (size s)

-- `s[:n]` and `s[n:]`
abbrev pub take : ℕ → String → String
take zero s = []
take (suc n) [] = []
take (suc n) (c ∷ s) = c ∷ take n s

abbrev pub drop : ℕ → String → String
drop zero s = s
drop (suc n) [] = []
drop (suc n) (c ∷ s) = drop n s

-- `unicode.IsSpace(r)`
unfoldable pub is_space : Char → Bool
is_space c =
    (leb 9 (code c) && leb (code c) 13)
    || eqb (code c) 0x20
    || eqb (code c) 0x85
    || eqb (code c) 0xa0
    || eqb (code c) 0x1680
    || (leb 0x2000 (code c) && leb (code c) 0x200a)
    || eqb (code c) 0x2028
    || eqb (code c) 0x2029
    || eqb (code c) 0x202f
    || eqb (code c) 0x205f
    || eqb (code c) 0x3000

unfoldable pub trim_left : (Char → Bool) → String → String
trim_left p [] = []
trim_left p (c ∷ s) = if p c then trim_left p s else c ∷ s

abbrev pub trimmed_cons : (Char → Bool) → Char → String → String
trimmed_cons p c [] = if p c then [] else c ∷ []
trimmed_cons p c (d ∷ s) = c ∷ d ∷ s

unfoldable pub trim_right : (Char → Bool) → String → String
trim_right p [] = []
trim_right p (c ∷ s) = trimmed_cons p c (trim_right p s)

-- `strings.TrimFunc(s, p)`
unfoldable pub trim : (Char → Bool) → String → String
unfolding trim_left trim_right
trim p s = trim_right p (trim_left p s)

-- `strings.TrimSpace(s)`
unfoldable pub trim_space : String → String
unfolding trim is_space
trim_space s = trim is_space s

abbrev pub same_char : Char → Char → Bool
same_char a b = eqb (code a) (code b)

-- `strings.HasPrefix(s, string(c))` and `strings.HasSuffix(s, string(c))`
unfoldable pub begins_with : Char → String → Bool
begins_with a [] = false
begins_with a (c ∷ s) = same_char a c

unfoldable pub ends_with : Char → String → Bool
ends_with a [] = false
ends_with a (c ∷ []) = same_char a c
ends_with a (c ∷ d ∷ s) = ends_with a (d ∷ s)

abbrev pub with_first : Char → Option (String × String) → Option (String × String)
with_first c none = none
with_first c (some (s, t)) = some (c ∷ s, t)

-- `strings.Cut(s, string(a))`, with `none` where the character is not there.
unfoldable pub cut : Char → String → Option (String × String)
cut a [] = none
cut a (c ∷ s) = if same_char a c then some ([], s) else with_first c (cut a s)
