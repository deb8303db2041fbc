-- ===== src/IntegrationEnv/Settings/Resolved.antt =====
-- How pickString, pickStringDefault and pickIntDefault of internal/testutil/integrationenv/env.go
-- settle one variable.
use platform_mihomo_service.Base.Int.{ℤ}
use platform_mihomo_service.Base.{
  String, eq_refl, Option, none, some, Bool, true, false, not, ◌||◌, ◌==◌, if◌then◌else◌, ◌≡◌, refl,
  ap, ◌∙◌, arith,
}
use platform_mihomo_service.IntegrationEnv.Defs.{
  Source, shell, file, default_value, done, Table, get, put, Host,
}
use platform_mihomo_service.IntegrationEnv.Text.{trim_space}
use platform_mihomo_service.IntegrationEnv.Settings.{
  pick_string, pick_string_default, pick_int_default, integer_or_fail, atoi, picked_or_default,
}

abbrev pub source_of : Option (Source × String) → Option Source → Option Source
source_of none other = other
source_of (some (s, v)) other = some s

abbrev pub value_of : Option (Source × String) → String → String
value_of none other = other
value_of (some (s, v)) other = v

-- The number that a variable holds, or the default where it is set nowhere.
abbrev pub IsNumber : Option (Source × String) → ℤ → ℤ → Type 0
IsNumber none fallback n = n ≡ fallback
IsNumber (some (s, raw)) fallback n = atoi (trim_space raw) ≡ some n

module _ (host : Host) (file_values : Table String) where
  -- Where a variable is set, and to what.
  abbrev pub origin : String → Option (Source × String)
  origin key = elim (host.lookup_env key) [
    | some value ↦ some (shell, value)
    | none ↦ elim (get key file_values) [ some value ↦ some (file, value) | none ↦ none ]
  ]

  pub pick_string-value :
      (key : String) (sources : Table Source)
      → (pick_string host file_values key sources).1 ≡ value_of (origin key) ""
  unfolding pick_string
  pick_string-value key sources = ground arith

  pub pick_string-source :
      (key j : String) (sources : Table Source)
      → get j (pick_string host file_values key sources).0
        ≡ (if key == j then source_of (origin key) (get j sources) else get j sources)
  unfolding pick_string
  pick_string-source key j sources = ground arith

  or_true : (b : Bool) → (b || true) ≡ true
  or_true true = refl
  or_true false = refl

  -- The default is taken where neither the environment nor the file sets the variable.
  pick_string_default_lem :
      (key fallback : String) (sources : Table Source)
      → get key sources ≡ none
      → pick_string_default host file_values key fallback sources ≡ elim (origin key) [
        | none ↦ (put key default_value sources, fallback)
        | some (s, v) ↦ (put key s sources, v)
      ]
  unfolding pick_string_default
  pick_string_default_lem key fallback sources h =
      go (host.lookup_env key) refl (get key file_values) refl
    where
      go :
          (o : Option String)
          → host.lookup_env key ≡ o
          → (f : Option String) → get key file_values ≡ f
          → pick_string_default host file_values key fallback sources ≡ elim (origin key) [
            | none ↦ (put key default_value sources, fallback)
            | some (s, v) ↦ (put key s sources, v)
          ]
      go (some v) e f k =
          let set : pick_string host file_values key sources ≡ (put key shell sources, v) =
            rw (e, pick_string) refl in
          ap (picked_or_default key fallback) set
          ∙ rw (e, eq_refl key, or_true (not (v == ""))) refl
      go none e (some v) k =
          let set : pick_string host file_values key sources ≡ (put key file sources, v) =
            rw (e, k, pick_string) refl in
          ap (picked_or_default key fallback) set
          ∙ rw (e, k, eq_refl key, or_true (not (v == ""))) refl
      go none e none k =
          let unset : pick_string host file_values key sources ≡ (sources, "") =
            rw (e, k, pick_string) refl in
          ap (picked_or_default key fallback) unset ∙ rw (e, k, h) refl

  pub pick_string_default-value :
      (key fallback : String) (sources : Table Source)
      → get key sources ≡ none
      → (pick_string_default host file_values key fallback sources).1
        ≡ value_of (origin key) fallback
  pick_string_default-value key fallback sources h =
      let e = pick_string_default_lem key fallback sources h in rw e (ground arith)

  pub pick_string_default-source :
      (key fallback j : String) (sources : Table Source)
      → get key sources ≡ none
      → get j (pick_string_default host file_values key fallback sources).0
        ≡ (if key == j then source_of (origin key) (some default_value) else get j sources)
  pick_string_default-source key fallback j sources h =
      let e = pick_string_default_lem key fallback sources h in rw e (ground arith)

  pub pick_int_default-source :
      (key j : String) (fallback : ℤ) (sources : Table Source)
      → get j (pick_int_default host file_values key fallback sources).0
        ≡ (if key == j then source_of (origin key) (some default_value) else get j sources)
  unfolding pick_int_default
  pick_int_default-source key j fallback sources = ground arith

  pub pick_int_default-IsNumber :
      (key : String) (fallback n : ℤ) (sources : Table Source)
      → (pick_int_default host file_values key fallback sources).1 ≡ done n
      → IsNumber (origin key) fallback n
  unfolding pick_int_default
  pick_int_default-IsNumber key fallback n sources h =
      go (host.lookup_env key) refl (get key file_values) refl
    where
      number : (s : Source) (o : Option ℤ) → integer_or_fail key s o ≡ done n → o ≡ some n
      number s none e = absurd (cc e)
      number s (some m) e = cc e

      go :
          (o : Option String)
          → host.lookup_env key ≡ o
          → (f : Option String) → get key file_values ≡ f
          → IsNumber (origin key) fallback n
      go (some raw) e f k =
          rw (e, IsNumber) (number shell (atoi (trim_space raw)) (rw (e, pick_int_default) at h))
      go none e (some raw) k =
          rw (e, k, IsNumber)
            (number file (atoi (trim_space raw)) (rw (e, k, pick_int_default) at h))
      go none e none k = rw (e, k, IsNumber) (cc (rw (e, k, pick_int_default) at h))
