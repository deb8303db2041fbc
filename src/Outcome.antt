-- ===== src/Outcome.antt =====
-- Errors as values, and the monad of a call that may fail and changes the state of the world.
mod Defs
pub mod Check
pub mod Keeps
pub mod Needs
pub mod Laws
pub use Defs.*
use platform_mihomo_service.Base.{Bool, true, false, Option, none, some}

-- A call from state `S` of everything outside the process.
abbrev pub M : Type 0 → Type 0 → Type 0
M S A = S → Result A × S

infixl 5 ◌>>=◌ ◌>>◌
abbrev pub ◌>>=◌ : {S A B : Type 0} → M S A → (A → M S B) → M S B
◌>>=◌ m f s = let (r, s') = m s in elim r [ ok a ↦ f a s' | err e ↦ (err e, s') ]

abbrev pub ◌>>◌ : {S A B : Type 0} → M S A → M S B → M S B
m >> k = m >>= λ _. k

module _ {S A : Type 0} where
  abbrev pub pure : A → M S A
  pure a s = (ok a, s)

  abbrev pub fail : Error → M S A
  fail e s = (err e, s)

  -- A call that needs no state.
  abbrev pub lift : Result A → M S A
  lift r s = (r, s)

  -- `_ = call`: the result and the error are dropped.
  abbrev pub ignore : M S A → M S (Unit {0})
  ignore m s = (ok tt, (m s).1)

  -- `if err := check; err != nil { return err }` on a pointer that may be nil.
  abbrev pub or_fail : Error → Option A → M S A
  or_fail e none = fail e
  or_fail e (some a) = pure a

abbrev pub guard : {S : Type 0} → Bool → Error → M S (Unit {0})
guard true e = pure tt
guard false e = fail e

abbrev pub when : {S : Type 0} → Bool → M S (Unit {0}) → M S (Unit {0})
when true m = m
when false m = pure tt
