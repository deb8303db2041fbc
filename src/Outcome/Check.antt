-- ===== src/Outcome/Check.antt =====
-- The sequence of checks that need no state: the first error ends it.
use platform_mihomo_service.Base.{Bool, true, false}
use platform_mihomo_service.Outcome.Defs.{Error, Result, ok, err}

infixl 5 ◌>>=◌ ◌>>◌
abbrev pub ◌>>=◌ : {A B : Type 0} → Result A → (A → Result B) → Result B
ok a >>= f = f a
err e >>= f = err e

abbrev pub ◌>>◌ : {A B : Type 0} → Result A → Result B → Result B
m >> k = m >>= λ _. k

abbrev pub guard : Bool → Error → Result (Unit {0})
guard true e = ok tt
guard false e = err e
