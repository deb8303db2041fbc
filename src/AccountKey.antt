-- ===== src/AccountKey.antt =====
-- internal/usecase/platform_account_key.go: the text key of a platform account, which carries the
-- id of its binding. The proofs are in the modules below.
mod Decimal
mod Separator
pub mod RoundTrip
pub mod Sound
mod Tests
use platform_mihomo_service.Base.{
  ℕ, Char, String, Option, none, some, Bool, code, eqb, ◌==◌, if◌then◌else◌,
}
use Prim.Native.String.{[], ◌∷◌, ◌++◌}
use platform_mihomo_service.Outcome.{Result, ok, err, invalid_account_key, invalid_binding_id}
unfoldable pub use Decimal.{format_uint, parse_uint}

-- `fmt.Sprintf("binding_%d_%s", bindingID, accountID)`
unfoldable pub format_platform_account_id : ℕ → String → String
unfolding format_uint
format_platform_account_id binding_id account_id =
    "binding_" ++ (format_uint binding_id ++ ("_" ++ account_id))

-- `strings.HasPrefix(s, p)` with `strings.TrimPrefix(s, p)`: what follows the prefix p.
unfoldable pub cut_prefix : String → String → Option String
cut_prefix [] s = some s
cut_prefix (p ∷ ps) [] = none
cut_prefix (p ∷ ps) (c ∷ s) = if eqb (code p) (code c) then cut_prefix ps s else none

abbrev prepend : Char → Option String → Option String
prepend c none = none
prepend c (some s) = some (c ∷ s)

-- `rest[:strings.IndexByte(rest, '_')]`, if the byte is there.
unfoldable pub before_separator : String → Option String
before_separator [] = none
before_separator (c ∷ s) = if eqb (code c) b'_' then some [] else prepend c (before_separator s)

-- The `separator <= 0` test of both branches: no separator, or nothing in front of it.
binding_id_part : String → String → Result String
unfolding before_separator
binding_id_part key rest = elim (before_separator rest) [
  | none ↦ err (invalid_account_key key)
  | some part ↦ if part == "" then err (invalid_account_key key) else ok part
]

-- The `switch` on the two prefixes.
select_part : String → Result String
unfolding cut_prefix binding_id_part
select_part key = elim (cut_prefix "binding_" key) [
  | some rest ↦ binding_id_part key rest
  | none ↦ elim (cut_prefix "hoyo_ref_" key) [
    | some rest ↦ binding_id_part key rest
    | none ↦ err (invalid_account_key key)
  ]
]

unfoldable pub binding_id_from_platform_account_id : String → Result ℕ
unfolding select_part parse_uint
binding_id_from_platform_account_id key = elim (select_part key) [
  | err e ↦ err e
  | ok part ↦ elim (parse_uint part) [
    | none ↦ err (invalid_binding_id part)
    | some binding_id ↦ ok binding_id
  ]
]
