-- ===== src/Outcome/Keeps.antt =====
-- Predicates on the state of the world that a call keeps, whether it succeeds or fails: one rule for
-- each way to build a call.
use platform_mihomo_service.Base.{Bool, true, false, Option, none, some, if◌then◌else◌}
use platform_mihomo_service.Outcome.{
  Error, Result, ok, err, M, pure, fail, lift, ignore, or_fail, guard, when, ◌>>=◌, ◌>>◌,
}

pub record Keeps {S A : Type 0} (P : S → Type 0) (m : M S A) : Type 0 where
  pub at : (s : S) → P s → P (m s).1

module _ {S A : Type 0} {P : S → Type 0} where
  pub Keeps-pure : (a : A) → Keeps P (pure a)
  Keeps-pure a = record { at = λ s h. h }

  pub Keeps-fail : (e : Error) → Keeps P (fail {A = A} e)
  Keeps-fail e = record { at = λ s h. h }

  pub Keeps-lift : (r : Result A) → Keeps P (lift r)
  Keeps-lift r = record { at = λ s h. h }

  pub Keeps-or_fail : (e : Error) (a : Option A) → Keeps P (or_fail e a)
  Keeps-or_fail e none = Keeps-fail e
  Keeps-or_fail e (some a) = Keeps-pure a

  pub Keeps-ignore : (m : M S A) → Keeps P m → Keeps P (ignore m)
  Keeps-ignore m k = record { at = λ s h. k.at s h }

  pub Keeps-if : (b : Bool) (m n : M S A) → Keeps P m → Keeps P n → Keeps P (if b then m else n)
  Keeps-if true m n km kn = km
  Keeps-if false m n km kn = kn

module _ {S : Type 0} {P : S → Type 0} where
  pub Keeps-guard : (b : Bool) (e : Error) → Keeps P (guard {S = S} b e)
  Keeps-guard true e = Keeps-pure tt
  Keeps-guard false e = Keeps-fail e

  pub Keeps-when : (b : Bool) (m : M S (Unit {0})) → Keeps P m → Keeps P (when b m)
  Keeps-when true m k = k
  Keeps-when false m k = Keeps-pure tt

module _ {S A B : Type 0} {P : S → Type 0} where
  pub Keeps-bind :
      (m : M S A) (f : A → M S B) → Keeps P m → ((a : A) → Keeps P (f a)) → Keeps P (m >>= f)
  Keeps-bind m f km kf = record { at = λ s h. go (m s) (km.at s h) }
    where
      go :
          (x : Result A × S)
          → P x.1
          → let y : Result B × S = elim x.0 [ ok a ↦ f a x.1 | err e ↦ (err e, x.1) ] in P y.1
      go (ok a, t) h = (kf a).at t h
      go (err e, t) h = h

  pub Keeps-then : (m : M S A) (n : M S B) → Keeps P m → Keeps P n → Keeps P (m >> n)
  Keeps-then m n km kn = Keeps-bind m (λ _. n) km (λ _. kn)

pub ruleset keeps_rules = (
  Keeps-pure, Keeps-fail, Keeps-lift, Keeps-or_fail, Keeps-ignore, Keeps-if, Keeps-guard,
  Keeps-when, Keeps-bind, Keeps-then,
)
