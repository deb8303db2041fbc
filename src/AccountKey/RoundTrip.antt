-- ===== src/AccountKey/RoundTrip.antt =====
-- A platform account key gives back the binding id that it was made from, in both formats.
use Prim.Native.String.{[], ◌∷◌, ◌++◌}
use text.Mathlib.TextLemmas.{nil-append, cons-append, cons≢nil}
use platform_mihomo_service.Base.{
  ℕ, ◌<◌, ◌^◌, Char, String, none, some, false, code, ◌≡◌, ◌∙◌, sym, refl, ◌==◌, eq_iff, arith, inl,
  inr, Bool-cases,
}
use platform_mihomo_service.Outcome.{ok}
use platform_mihomo_service.AccountKey.Decimal.{
  NoSeparator, format_uint-cons, format_uint-NoSeparator, parse_uint-format_uint,
}
use platform_mihomo_service.AccountKey.Separator.{underscore, underscore-append}
use platform_mihomo_service.AccountKey.{
  format_uint, format_platform_account_id, cut_prefix, before_separator, binding_id_part,
  select_part, binding_id_from_platform_account_id,
}

cut_prefix-append : (p s : String) → cut_prefix p (p ++ s) ≡ some s
unfolding cut_prefix
cut_prefix-append [] s = rw nil-append
cut_prefix-append (c ∷ p) s = rw cons-append (ground (arith, cut_prefix-append p s))

before_separator-append :
    (p : String) (c : Char) (s : String)
    → NoSeparator p
    → code c ≡ b'_'
    → before_separator (p ++ (c ∷ s)) ≡ some p
unfolding before_separator
before_separator-append [] c s h e = rw nil-append (ground arith)
before_separator-append (d ∷ p) c s (plain, h) e =
    rw cons-append (ground (arith, before_separator-append p c s h e))

-- The legacy key of a binding, `hoyo_ref_<id>_<account>`, which the parser still reads.
abbrev pub legacy_key : ℕ → String → String
legacy_key binding_id account_id = "hoyo_ref_" ++ (format_uint binding_id ++ ("_" ++ account_id))

found_separator :
    (n : ℕ) (account_id : String)
    → before_separator (format_uint n ++ ("_" ++ account_id)) ≡ some (format_uint n)
found_separator n account_id =
    rw (underscore-append account_id) (
      before_separator-append (format_uint n) underscore account_id (format_uint-NoSeparator n)
        refl)

format_uint_not_empty : (n : ℕ) → (format_uint n == "") ≡ false
format_uint_not_empty n =
    let (c, s, e) = format_uint-cons n in
    elim (Bool-cases (format_uint n == "")) [
      | inl empty ↦ absurd (cons≢nil (sym e ∙ (eq_iff (format_uint n) "").0 empty))
      | inr filled ↦ filled
    ]

binding_id_part-format_uint :
    (key : String) (n : ℕ) (account_id : String)
    → binding_id_part key (format_uint n ++ ("_" ++ account_id)) ≡ ok (format_uint n)
unfolding binding_id_part
binding_id_part-format_uint key n account_id =
    rw (found_separator n account_id, binding_id_part) (rw (format_uint_not_empty n))

-- A binding key is split by its first prefix.
select_part-format :
    (n : ℕ) (account_id : String)
    → select_part (format_platform_account_id n account_id) ≡ ok (format_uint n)
unfolding select_part format_platform_account_id
select_part-format n account_id =
    rw (cut_prefix-append "binding_" (format_uint n ++ ("_" ++ account_id)), select_part)
      (binding_id_part-format_uint _ n account_id)

-- The id of a binding key is the id that the key was made from, for every account id, also one
-- that holds separators.
pub binding_id-format_platform_account_id :
    (n : ℕ) (account_id : String)
    → n < 2 ^ 64
    → binding_id_from_platform_account_id (format_platform_account_id n account_id) ≡ ok n
unfolding binding_id_from_platform_account_id
binding_id-format_platform_account_id n account_id h =
    rw (select_part-format n account_id, binding_id_from_platform_account_id)
      (rw (parse_uint-format_uint n h))

not_binding_prefix : (s : String) → cut_prefix "binding_" ("hoyo_ref_" ++ s) ≡ none
unfolding cut_prefix
not_binding_prefix s = rw cons-append

select_part-legacy_key :
    (n : ℕ) (account_id : String) → select_part (legacy_key n account_id) ≡ ok (format_uint n)
unfolding select_part
select_part-legacy_key n account_id =
    rw (not_binding_prefix (format_uint n ++ ("_" ++ account_id)), select_part)
      (rw (cut_prefix-append "hoyo_ref_" (format_uint n ++ ("_" ++ account_id)), select_part)
        (binding_id_part-format_uint _ n account_id))

-- The parser also reads the legacy key of a binding.
pub binding_id-legacy_key :
    (n : ℕ) (account_id : String)
    → n < 2 ^ 64
    → binding_id_from_platform_account_id (legacy_key n account_id) ≡ ok n
unfolding binding_id_from_platform_account_id
binding_id-legacy_key n account_id h =
    rw (select_part-legacy_key n account_id, binding_id_from_platform_account_id)
      (rw (parse_uint-format_uint n h))
