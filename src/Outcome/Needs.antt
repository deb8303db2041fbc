-- ===== src/Outcome/Needs.antt =====
-- What holds where a call succeeds: one rule for each way to build a call.
use platform_mihomo_service.Base.{Bool, true, false, if◌then◌else◌, ◌≡◌, refl}
use platform_mihomo_service.Outcome.{Error, ok, M, fail, guard, ◌>>=◌}
use platform_mihomo_service.Outcome.Laws.{>>=-eq-ok}

-- From state `s` the call succeeds only if `R` holds.
pub record Needs {S A : Type 0} (s : S) (R : Type 0) (m : M S A) : Type 0 where
  pub at : (a : A) (t : S) → m s ≡ (ok a, t) → R

module _ {S A : Type 0} {s : S} {R : Type 0} where
  pub Needs-fail : (e : Error) → Needs s R (fail {A = A} e)
  Needs-fail e = record { at = λ a t h. absurd cc }

  pub Needs-map : {R' : Type 0} (m : M S A) → (R' → R) → Needs s R' m → Needs s R m
  Needs-map m f k = record { at = λ a t h. f (k.at a t h) }

  pub Needs-pair : {R' : Type 0} (m : M S A) → Needs s R m → Needs s R' m → Needs s (R × R') m
  Needs-pair m k k' = record { at = λ a t h. (k.at a t h, k'.at a t h) }

  pub Needs-if :
      (b : Bool) (m n : M S A) → Needs s R m → Needs s R n → Needs s R (if b then m else n)
  Needs-if true m n km kn = km
  Needs-if false m n km kn = kn

module _ {S A B : Type 0} {s : S} {R : Type 0} where
  -- The first call's result is what the rest is given.
  pub Needs-bind :
      (m : M S A) (f : A → M S B)
      → ((a : A) (u : S) → m s ≡ (ok a, u) → Needs u R (f a))
      → Needs s R (m >>= f)
  Needs-bind m f k = record {
    at = λ b t h. let (a, u, first, rest) = >>=-eq-ok m f s h in (k a u first).at b t rest;
  }

  pub Needs-first : (m : M S A) (f : A → M S B) → Needs s R m → Needs s R (m >>= f)
  Needs-first m f k = record {
    at = λ b t h. let (a, u, first, _) = >>=-eq-ok m f s h in k.at a u first;
  }

  pub Needs-rest :
      (m : M S A) (f : A → M S B) → ((a : A) (u : S) → Needs u R (f a)) → Needs s R (m >>= f)
  Needs-rest m f k = Needs-bind m f (λ a u _. k a u)

module _ {S A : Type 0} {s : S} {R : Type 0} where
  -- Behind a check that passes, from the same state.
  pub Needs-check :
      (b : Bool) (e : Error) (f : Unit {0} → M S A)
      → (b ≡ true → Needs s R (f tt))
      → Needs s R (guard b e >>= f)
  Needs-check true e f k = record { at = λ a t h. (k refl).at a t h }
  Needs-check false e f k = record { at = λ a t h. absurd cc }

  pub Needs-check_and :
      {R' : Type 0} (b : Bool) (e : Error) (f : Unit {0} → M S A)
      → (b ≡ true → R')
      → Needs s R (f tt)
      → Needs s (R' × R) (guard b e >>= f)
  Needs-check_and true e f fact k = record { at = λ a t h. (fact refl, k.at a t h) }
  Needs-check_and false e f fact k = record { at = λ a t h. absurd cc }
