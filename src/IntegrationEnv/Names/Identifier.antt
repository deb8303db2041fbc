-- ===== src/IntegrationEnv/Names/Identifier.antt =====
-- What sanitizeIdentifier of internal/testutil/integrationenv/env.go gives: words of small letters
-- and digits with single separators between them.
use Prim.Native.String.{[], ◌∷◌}
use text.Mathlib.TextEquality.{Char-path, eq_iff}
use platform_mihomo_service.Base.{
  Char, String, Bool, true, false, not, code, ◌≡◌, sym, ap, refl, eqb_iff, ◌==◌, if◌then◌else◌, ◌⊎◌,
  inl, inr, Bool-cases,
}
use platform_mihomo_service.IntegrationEnv.Text.{
  same_char, trim, trim_left, trim_right, trim_space, trimmed_cons,
}
use platform_mihomo_service.IntegrationEnv.Names.{
  is_plain, written, sanitized, sanitize_identifier, map_text, to_lower,
}

-- The rest of a name: `after` says that it stands after a letter or digit, where a separator may
-- follow and the name may end.
abbrev pub IsRest : Char → Bool → String → Type 0
IsRest separator after [] = after ≡ true
IsRest separator after (c ∷ s) =
    ((is_plain c ≡ true) × IsRest separator true s)
    ⊎ ((after ≡ true) × (c ≡ separator) × IsRest separator false s)

-- Words of small letters and digits, each of one or more, with one separator between two of them.
abbrev pub IsIdentifier : Char → String → Type 0
IsIdentifier separator s = IsRest separator false s

-- The same with a separator allowed at the end.
abbrev IsOpen : Char → Bool → String → Type 0
IsOpen separator after [] = Unit
IsOpen separator after (c ∷ s) =
    ((is_plain c ≡ true) × IsOpen separator true s)
    ⊎ ((after ≡ true) × (c ≡ separator) × IsOpen separator false s)

module _ (separator : Char) (h : is_plain separator ≡ false) where
  written-IsOpen :
      (last : Bool) (s : String) → IsOpen separator (not last) (written separator last s)
  unfolding written
  written-IsOpen last [] = tt
  written-IsOpen true (c ∷ s) = elim (Bool-cases (is_plain c)) [
    | inl plain ↦ rw (plain, written) (inl (plain, written-IsOpen false s))
    | inr other ↦ rw (other, written) (written-IsOpen true s)
  ]
  written-IsOpen false (c ∷ s) = elim (Bool-cases (is_plain c)) [
    | inl plain ↦ rw (plain, written) (inl (plain, written-IsOpen false s))
    | inr other ↦ rw (other, written) (inr (refl, refl, written-IsOpen true s))
  ]

  plain-differs : (c : Char) → is_plain c ≡ true → same_char separator c ≡ false
  plain-differs c p = elim (Bool-cases (same_char separator c)) [
    | inl same ↦
        let e : separator ≡ c = Char-path separator c ((eqb_iff _ _).0 same) in
        absurd (cc (ap is_plain e, p, h))
    | inr other ↦ other
  ]

  trim_left-IsOpen : (s : String) → IsOpen separator false s → trim_left (same_char separator) s ≡ s
  unfolding trim_left
  trim_left-IsOpen [] o = refl
  trim_left-IsOpen (c ∷ s) (inl (p, o)) = rw (plain-differs c p)
  trim_left-IsOpen (c ∷ s) (inr (e, _, _)) = absurd (cc e)

  trim_left_opens :
      (s : String)
      → IsOpen separator true s
      → IsOpen separator false (trim_left (same_char separator) s)
  unfolding trim_left
  trim_left_opens [] o = tt
  trim_left_opens (c ∷ s) (inl (p, o)) = rw (plain-differs c p) (inl (p, o))
  trim_left_opens (c ∷ s) (inr (_, e, o)) =
      let same : same_char separator c ≡ true = (eqb_iff _ _).1 (ap code (sym e)) in
      rw (same, trim_left-IsOpen s o) o

  trimmed_cons_plain :
      (c : Char) (t : String)
      → same_char separator c ≡ false
      → trimmed_cons (same_char separator) c t ≡ c ∷ t
  trimmed_cons_plain c [] e = rw e
  trimmed_cons_plain c (d ∷ t) e = refl

  trimmed_cons-IsRest :
      (c : Char) (t : String)
      → IsRest separator false t
      → trimmed_cons (same_char separator) c t ≡ c ∷ t
  trimmed_cons-IsRest c [] r = absurd (cc r)
  trimmed_cons-IsRest c (d ∷ t) r = refl

  trim_right-IsRest :
      (after : Bool) (s : String)
      → IsOpen separator after s
      → (trim_right (same_char separator) s ≡ [])
        ⊎ IsRest separator after (trim_right (same_char separator) s)
  unfolding trim_right
  trim_right-IsRest after [] o = inl refl
  trim_right-IsRest after (c ∷ s) (inl (p, o)) = elim (trim_right-IsRest true s o) [
    | inl e ↦ rw (e, plain-differs c p) (inr (inl (p, refl)))
    | inr r ↦
        rw (trimmed_cons_plain c (trim_right (same_char separator) s) (plain-differs c p))
          (inr (inl (p, r)))
  ]
  trim_right-IsRest after (c ∷ s) (inr (a, e, o)) = elim (trim_right-IsRest false s o) [
    | inl f ↦
        let same : same_char separator c ≡ true = (eqb_iff _ _).1 (ap code (sym e)) in
        rw (f, same) (inl refl)
    | inr r ↦
        rw (trimmed_cons-IsRest c (trim_right (same_char separator) s) r) (inr (inr (a, e, r)))
  ]

module _ (separator : Char) (h : is_plain separator ≡ false) where
  pub sanitized-IsIdentifier :
      (fallback trimmed : String)
      → IsIdentifier separator fallback
      → IsIdentifier separator (sanitized separator fallback trimmed)
  unfolding sanitized trim
  sanitized-IsIdentifier fallback trimmed k =
      let raw = trim_left (same_char separator) (written separator false trimmed) in
      let opened : IsOpen separator false raw =
        trim_left_opens separator h (written separator false trimmed)
          (written-IsOpen separator h false trimmed) in
      elim (trim_right-IsRest separator h false raw opened) [
        | inl e ↦ rw e k
        | inr r ↦ chosen (trim_right (same_char separator) raw) r
      ]
    where
      chosen :
          (t : String)
          → IsIdentifier separator t
          → IsIdentifier separator (if t == "" then fallback else t)
      chosen [] r = k
      chosen (c ∷ t) r = elim (Bool-cases ((c ∷ t) == "")) [
        | inl e ↦ absurd (cc ((eq_iff (c ∷ t) "").0 e))
        | inr e ↦ rw e r
      ]

  pub sanitize_identifier-IsIdentifier :
      (value fallback : String)
      → IsIdentifier separator fallback
      → IsIdentifier separator (sanitize_identifier value separator fallback)
  unfolding sanitize_identifier
  sanitize_identifier-IsIdentifier value fallback k =
      elim (Bool-cases (trim_space (map_text to_lower value) == "")) [
        | inl empty ↦ rw empty k
        | inr more ↦
            rw more (sanitized-IsIdentifier fallback (trim_space (map_text to_lower value)) k)
      ]
