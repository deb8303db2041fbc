-- ===== src/IntegrationEnv/Names/Unique.antt =====
-- That UniqueDatabaseName of internal/testutil/integrationenv/env.go gives names that MySQL takes
-- and that no other run uses.
use Prim.Native.String.{[], ◌∷◌, ◌++◌}
use text.Mathlib.TextLemmas.{nil-append, cons-append, append_assoc}
use platform_mihomo_service.Base.{
  ◌-◌, ◌≤◌, Char, String, ◌≡◌, ◌∙◌, sym, ap, arith, inl, inr, Bool-cases, leb, ltb,
}
use platform_mihomo_service.IntegrationEnv.Text.{size, drop, same_char, trim}
use platform_mihomo_service.IntegrationEnv.Names.Lengths.{
  size-append, size-drop, size-trim, drop-append_left, append_cancel, trim-append, NonePass,
}
use platform_mihomo_service.IntegrationEnv.Names.Suffix.{
  size-random_suffix, random_suffix-IsHex, IsHex-NonePass,
}
use platform_mihomo_service.IntegrationEnv.Names.{
  Entropy, join3, max_base_len, short_base, last_64, database_name, random_suffix,
  unique_database_name, sanitize_identifier,
}

-- The text ends in the suffix.
abbrev EndsWith : String → String → Type 0
EndsWith suffix value = (r : String) × (value ≡ r ++ suffix)

size-last_64 : (value : String) → size (last_64 value) ≤ 64
unfolding last_64
size-last_64 value = elim (Bool-cases (ltb 64 (size value))) [
  | inl e ↦
      let cut = size-drop (size value - 64) value in
      let trimmed = size-trim (same_char "_") (drop (size value - 64) value) in
      let long : 64 ≤ size value = ground arith in rw (e, last_64) (omega arith)
  | inr e ↦
      let trimmed = size-trim (same_char "_") value in
      let short : size value ≤ 64 = ground arith in rw (e, last_64) (omega arith)
]

size-database_name : (base name suffix : String) → size (database_name base name suffix) ≤ 64
unfolding database_name
size-database_name base name suffix =
    elim (Bool-cases (leb (size (join3 "_" base name suffix)) 64)) [
      | inl e ↦ rw (e, database_name) (ground arith)
      | inr e ↦
          rw (e, database_name)
            (size-last_64 (join3 "_" (short_base (max_base_len name suffix) base) name suffix))
    ]

-- A name of a database has at most the 64 characters that MySQL takes.
pub size-unique_database_name :
    (e : Entropy) (base_name test_name : String)
    → size (unique_database_name e base_name test_name) ≤ 64
unfolding unique_database_name
size-unique_database_name e base_name test_name =
    size-database_name (sanitize_identifier base_name "_" "itest")
      (sanitize_identifier test_name "_" "test") (random_suffix e)

last_64-EndsWith :
    (q : String) (c : Char) (s : String)
    → size (c ∷ s) ≤ 64
    → NonePass (same_char "_") (c ∷ s)
    → EndsWith (c ∷ s) (last_64 (q ++ (c ∷ s)))
unfolding last_64
last_64-EndsWith q c s h k =
    let whole = size-append q (c ∷ s) in
    elim (Bool-cases (ltb 64 (size (q ++ (c ∷ s))))) [
      | inl e ↦
          let n = size (q ++ (c ∷ s)) - 64 in
          let cut : drop n (q ++ (c ∷ s)) ≡ drop n q ++ (c ∷ s) =
            drop-append_left n q (c ∷ s) (omega arith) in
          let (r, t) = trim-append (same_char "_") (drop n q) c s k in
          (r, rw (e, last_64) (ap (trim (same_char "_")) cut ∙ t))
      | inr e ↦ let (r, t) = trim-append (same_char "_") q c s k in (r, rw (e, last_64) t)
    ]

join3-EndsWith : (base name suffix : String) → EndsWith suffix (join3 "_" base name suffix)
join3-EndsWith base name suffix =
    let inner : "_" ∷ suffix ≡ ("_" ∷ []) ++ suffix =
      sym (cons-append "_" [] suffix ∙ ap (λ t. "_" ∷ t) (nil-append suffix)) in
    (
      base ++ ("_" ∷ (name ++ ("_" ∷ []))),
      ap (λ t. base ++ ("_" ∷ (name ++ t))) inner
          ∙ ap (λ t. base ++ ("_" ∷ t)) (sym (append_assoc name ("_" ∷ []) suffix))
          ∙ ap (λ t. base ++ t) (sym (cons-append "_" (name ++ ("_" ∷ [])) suffix))
          ∙ sym (append_assoc base ("_" ∷ (name ++ ("_" ∷ []))) suffix),
    )

database_name-EndsWith :
    (base name : String) (c : Char) (s : String)
    → size (c ∷ s) ≤ 64
    → NonePass (same_char "_") (c ∷ s)
    → EndsWith (c ∷ s) (database_name base name (c ∷ s))
unfolding database_name
database_name-EndsWith base name c s h k =
    elim (Bool-cases (leb (size (join3 "_" base name (c ∷ s))) 64)) [
      | inl e ↦ rw (e, database_name) (join3-EndsWith base name (c ∷ s))
      | inr e ↦
          let short = short_base (max_base_len name (c ∷ s)) base in
          let (q, t) = join3-EndsWith short name (c ∷ s) in
          let (r, u) = last_64-EndsWith q c s h k in (r, rw (e, database_name) (ap last_64 t ∙ u))
    ]

ends_in_suffix :
    (base name suffix : String)
    → size suffix ≡ 8
    → NonePass (same_char "_") suffix
    → EndsWith suffix (database_name base name suffix)
ends_in_suffix base name [] h k = absurd (omega arith)
ends_in_suffix base name (c ∷ s) h k = database_name-EndsWith base name c s (omega arith) k

unique_database_name-EndsWith :
    (e : Entropy) (base_name test_name : String)
    → EndsWith (random_suffix e) (unique_database_name e base_name test_name)
unfolding unique_database_name
unique_database_name-EndsWith e base_name test_name =
    ends_in_suffix (sanitize_identifier base_name "_" "itest")
      (sanitize_identifier test_name "_" "test") (random_suffix e) (size-random_suffix e)
      (IsHex-NonePass (random_suffix e) (random_suffix-IsHex e))

-- Two runs have the same name of a database, whatever the base and the test are called, only if
-- they drew the same suffix.
pub unique_database_name-random_suffix :
    (e f : Entropy) (base_name test_name other_base other_test : String)
    → unique_database_name e base_name test_name ≡ unique_database_name f other_base other_test
    → random_suffix e ≡ random_suffix f
unique_database_name-random_suffix e f base_name test_name other_base other_test same =
    let (p, s) = unique_database_name-EndsWith e base_name test_name in
    let (q, t) = unique_database_name-EndsWith f other_base other_test in
    append_cancel p q (random_suffix e) (random_suffix f)
      (size-random_suffix e ∙ sym (size-random_suffix f)) (sym s ∙ same ∙ t)
