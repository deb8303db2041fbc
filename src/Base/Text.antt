-- ===== src/Base/Text.antt =====
-- The functions of package strings that the service uses on texts, over their code points.
use Prim.Native.Nat.{ℕ, ◌+◌, ◌<◌, compare, Ordering}
use Prim.Native.Char.{Char, char, code, IsScalar}
use mathlib.Core.Path.{◌≡◌, refl}
use native.Mathlib.Omega.{arith}
use Prim.Native.String.{String}
use mathlib.Core.Bool.{Bool, true, false, ◌||◌, ◌&&◌}
use mathlib.Core.List.{List, [], ◌∷◌, map}
use platform_mihomo_service.Base.Tests.{eqb, leb, if◌then◌else◌}

abbrev pub codes : String → List ℕ
codes String.[] = []
codes (String.◌∷◌ c s) = code c ∷ codes s

begins : List ℕ → List ℕ → Bool
begins s [] = true
begins [] (p ∷ ps) = false
begins (c ∷ s) (p ∷ ps) = if eqb p c then begins s ps else false

occurs : List ℕ → List ℕ → Bool
unfolding begins
occurs [] sub = begins [] sub
occurs (c ∷ s) sub = begins (c ∷ s) sub || occurs s sub

-- `strings.Contains(s, sub)`
unfoldable pub contains : String → String → Bool
unfolding occurs
contains s sub = occurs (codes s) (codes sub)

-- `unicode.ToLower` where its result is an ASCII letter; any other letter maps to no ASCII one.
abbrev lower : ℕ → ℕ
lower c =
    if leb b'A' c && leb c b'Z'
    then c + 32
    else if eqb c 0x130
    then b'i'
    else if eqb c 0x212a
    then b'k'
    else c

-- `strings.Contains(strings.ToLower(s), sub)` for an ASCII text `sub`.
unfoldable pub contains_lower : String → String → Bool
unfolding occurs
contains_lower s sub = occurs (map lower (codes s)) (codes sub)

pub scalar : (n : ℕ) → compare n 55296 ≡ Ordering.lt → IsScalar n
scalar n e = rw e tt

abbrev pub char_of : (n : ℕ) (o : Ordering) → compare n 55296 ≡ o → Char
char_of n Ordering.lt e = char n (scalar n e)
char_of n Ordering.eq e = char 0 tt
char_of n Ordering.gt e = char 0 tt

-- The character of a number below the surrogates.
abbrev pub to_char : ℕ → Char
to_char n = char_of n (compare n 55296) refl

code-char_of :
    (n : ℕ) (o : Ordering) (e : compare n 55296 ≡ o) → n < 55296 → code (char_of n o e) ≡ n
code-char_of n Ordering.lt e h = refl
code-char_of n Ordering.eq e h = absurd (ground arith)
code-char_of n Ordering.gt e h = absurd (ground arith)

pub code-to_char : (n : ℕ) → n < 55296 → code (to_char n) ≡ n
code-to_char n h = code-char_of n (compare n 55296) refl h
