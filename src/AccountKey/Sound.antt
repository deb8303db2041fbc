-- ===== src/AccountKey/Sound.antt =====
-- What an accepted platform account key looks like.
use Prim.Native.String.{[], ◌∷◌, ◌++◌}
use text.Mathlib.TextLemmas.{nil-append, cons-append}
use text.Mathlib.TextEquality.{Char-path}
use platform_mihomo_service.Base.{
  ℕ, ◌<◌, ◌^◌, Char, String, some, code, ◌≡◌, ◌∙◌, ap, sym, refl, eqb, eqb_iff, ◌⊎◌, arith, inl,
  inr, Bool-cases, Option-cases,
}
use platform_mihomo_service.Outcome.{Result, ok, err}
use platform_mihomo_service.AccountKey.Decimal.{parse_uint_bound}
use platform_mihomo_service.AccountKey.Separator.{underscore, underscore-append}
use platform_mihomo_service.AccountKey.{
  parse_uint, cut_prefix, before_separator, binding_id_part, select_part,
  binding_id_from_platform_account_id,
}

cut_prefix_sound : (p s r : String) → cut_prefix p s ≡ some r → s ≡ p ++ r
unfolding cut_prefix
cut_prefix_sound [] s r e = rw nil-append (ground arith)
cut_prefix_sound (c ∷ p) [] r e = cc
cut_prefix_sound (c ∷ p) (d ∷ s) r e = elim (Bool-cases (eqb (code c) (code d))) [
  | inl same ↦
      let heads : c ≡ d = Char-path c d ((eqb_iff _ _).0 same) in
      rw cons-append (cc (heads, cut_prefix_sound p s r (ground arith)))
  | inr other ↦ absurd (ground arith)
]

before_separator_sound :
    (s p : String) → before_separator s ≡ some p → (r : String) × (s ≡ p ++ ("_" ++ r))
unfolding before_separator
before_separator_sound [] p e = cc
before_separator_sound (c ∷ s) p e = elim (Bool-cases (eqb (code c) b'_')) [
  | inl stop ↦
      let head : c ≡ underscore = Char-path c underscore ((eqb_iff _ _).0 stop) in
      let nothing : p ≡ [] = ground arith in
      (
        s,
        rw nothing (sym (nil-append _ ∙ underscore-append s ∙ ap (λ (d : Char). d ∷ s) (sym head))),
      )
  | inr go ↦ elim (Option-cases (before_separator s)) [
    | inl missing ↦ absurd (ground arith)
    | inr (q, found) ↦
        let (r, same) = before_separator_sound s q found in
        let whole : p ≡ c ∷ q = ground arith in
        (r, rw (whole, cons-append) (ap (λ (t : String). c ∷ t) same))
  ]
]

binding_id_part_sound :
    (key rest part : String)
    → binding_id_part key rest ≡ ok part
    → (r : String) × (rest ≡ part ++ ("_" ++ r))
unfolding binding_id_part
binding_id_part_sound key rest part e = elim (Option-cases (before_separator rest)) [
  | inl missing ↦ absurd (ground arith)
  | inr (q, found) ↦
      let same : q ≡ part = ground arith in rw (← same) (before_separator_sound rest q found)
]

-- The two formats of a key: the binding's, and the legacy one.
abbrev pub HasPart : String → String → Type 0
HasPart key part =
    ((r : String) × (key ≡ "binding_" ++ (part ++ ("_" ++ r))))
    ⊎ ((r : String) × (key ≡ "hoyo_ref_" ++ (part ++ ("_" ++ r))))

select_part_sound : (key part : String) → select_part key ≡ ok part → HasPart key part
unfolding select_part
select_part_sound key part e = elim (Option-cases (cut_prefix "binding_" key)) [
  | inr (rest, cut) ↦
      let (r, same) = binding_id_part_sound key rest part (rw (cut, select_part) at e) in
      inl (r, cut_prefix_sound "binding_" key rest cut ∙ ap (λ (t : String). "binding_" ++ t) same)
  | inl other ↦ elim (Option-cases (cut_prefix "hoyo_ref_" key)) [
    | inr (rest, cut) ↦
        let (r, same) = binding_id_part_sound key rest part (ground arith) in
        inr (
          r,
          cut_prefix_sound "hoyo_ref_" key rest cut ∙ ap (λ (t : String). "hoyo_ref_" ++ t) same,
        )
    | inl neither ↦ absurd (ground arith)
  ]
]

-- A key is accepted with id n only if it is "binding_<part>_…" or "hoyo_ref_<part>_…" where the
-- part is the decimal text of n; and n is a uint64.
pub binding_id_sound :
    (key : String) (n : ℕ)
    → binding_id_from_platform_account_id key ≡ ok n
    → (part : String) × HasPart key part × (parse_uint part ≡ some n) × (n < 2 ^ 64)
unfolding binding_id_from_platform_account_id
binding_id_sound key n e = go (select_part key) refl
  where
    go :
        (r : Result String)
        → select_part key ≡ r
        → (part : String) × HasPart key part × (parse_uint part ≡ some n) × (n < 2 ^ 64)
    go (err x) same = absurd (ground arith)
    go (ok part) same =
        let read : parse_uint part ≡ some n = ground arith in
        (part, select_part_sound key part same, read, parse_uint_bound part n read)
