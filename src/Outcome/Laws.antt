-- ===== src/Outcome/Laws.antt =====
-- Inversion of a sequence of calls: from its success, the success of each part.
use platform_mihomo_service.Base.{Bool, true, false, Option, none, some, ◌≡◌, refl, sym, ◌∙◌, ap}
use platform_mihomo_service.Outcome.{Error, Result, ok, err, M, ◌>>=◌, lift, or_fail, guard}

pub ok-injective : {A : Type 0} {a b : A} → Path (Result A) (ok a) (ok b) → a ≡ b
ok-injective h = cc

module _ {S A B : Type 0} where
  bind_at : (A → M S B) → Result A × S → Result B × S
  bind_at f (ok a, s) = f a s
  bind_at f (err e, s) = (err e, s)

  >>=-bind_at : (m : M S A) (f : A → M S B) (s : S) → (m >>= f) s ≡ bind_at f (m s)
  unfolding bind_at
  >>=-bind_at m f s = go (m s)
    where
      go : (x : Result A × S) → (elim x.0 [ ok a ↦ f a x.1 | err e ↦ (err e, x.1) ]) ≡ bind_at f x
      go (ok a, t) = refl
      go (err e, t) = refl

  -- A sequence that succeeds has a first call that succeeds.
  pub >>=-eq-ok :
      (m : M S A) (f : A → M S B) (s : S) {b : B} {t : S}
      → (m >>= f) s ≡ (ok b, t)
      → (a : A) × (u : S) × (m s ≡ (ok a, u)) × (f a u ≡ (ok b, t))
  unfolding bind_at
  >>=-eq-ok m f s {b} {t} h = go (m s) refl (sym (>>=-bind_at m f s) ∙ h)
    where
      go :
          (x : Result A × S)
          → m s ≡ x
          → bind_at f x ≡ (ok b, t)
          → (a : A) × (u : S) × (m s ≡ (ok a, u)) × (f a u ≡ (ok b, t))
      go (ok a, u) e k = (a, u, e, k)
      go (err x, u) e k = cc

  -- A sequence whose first call succeeds goes on with the second.
  pub >>=_of_ok :
      (m : M S A) (f : A → M S B) (s : S) {a : A} {u : S} → m s ≡ (ok a, u) → (m >>= f) s ≡ f a u
  unfolding bind_at
  >>=_of_ok m f s e = >>=-bind_at m f s ∙ ap (bind_at f) e

  -- A sequence whose first call fails stops there.
  pub >>=_of_err :
      (m : M S A) (f : A → M S B) (s : S) {x : Error} {u : S}
      → m s ≡ (err x, u)
      → (m >>= f) s ≡ (err x, u)
  unfolding bind_at
  >>=_of_err m f s e = >>=-bind_at m f s ∙ ap (bind_at f) e

module _ {S : Type 0} where
  -- A check that passes has a true test, and leaves the state.
  pub guard-eq-ok :
      (b : Bool) (e : Error) (s : S) {u : Unit {0}} {t : S}
      → guard b e s ≡ (ok u, t)
      → (b ≡ true) × (t ≡ s)
  guard-eq-ok true e s h = (refl, ap (λ (x : Result (Unit {0}) × S). x.1) (sym h))
  guard-eq-ok false e s h = cc

module _ {S A B C : Type 0} where
  pub >>=_assoc :
      (m : M S A) (f : A → M S B) (k : B → M S C)
      → Path (M S C) ((m >>= f) >>= k) (m >>= λ a. f a >>= k)
  unfolding bind_at
  >>=_assoc m f k i s = go (m s) refl i
    where
      go : (x : Result A × S) → m s ≡ x → ((m >>= f) >>= k) s ≡ (m >>= λ a. f a >>= k) s
      go (ok a, u) e =
          >>=-bind_at (m >>= f) k s
          ∙ ap (bind_at k) (>>=_of_ok m f s e)
          ∙ sym (>>=-bind_at (f a) k u)
          ∙ sym (>>=_of_ok m (λ a. f a >>= k) s e)
      go (err x, u) e =
          >>=_of_err (m >>= f) k s (>>=_of_err m f s e) ∙ sym (>>=_of_err m (λ a. f a >>= k) s e)

module _ {S A : Type 0} where
  pub lift-eq-ok :
      (r : Result A) (s : S) {a : A} {t : S} → lift r s ≡ (ok a, t) → (r ≡ ok a) × (t ≡ s)
  lift-eq-ok r s h = (ap (λ (x : Result A × S). x.0) h, sym (ap (λ (x : Result A × S). x.1) h))

  pub or_fail-eq-ok :
      (e : Error) (found : Option A) (s : S) {a : A} {t : S}
      → or_fail e found s ≡ (ok a, t)
      → (found ≡ some a) × (t ≡ s)
  or_fail-eq-ok e none s h = absurd cc
  or_fail-eq-ok e (some b) s h = (
    ap some (ok-injective (ap (λ (x : Result A × S). x.0) h)),
    sym (ap (λ (x : Result A × S). x.1) h),
  )

module _ {S A B V : Type 0} (view : S → V) where
  -- A sequence of calls that leave a view of the state as it is leaves it, too.
  pub >>=_keeps :
      (m : M S A) (f : A → M S B)
      → ((s : S) → view (m s).1 ≡ view s)
      → ((a : A) (s : S) → view (f a s).1 ≡ view s)
      → (s : S) → view ((m >>= f) s).1 ≡ view s
  unfolding bind_at
  >>=_keeps m f first rest s = ap (λ x. view x.1) (>>=-bind_at m f s) ∙ go (m s) refl
    where
      go : (x : Result A × S) → m s ≡ x → view (bind_at f x).1 ≡ view s
      go (ok a, u) e = rest a u ∙ sym (ap (λ x. view x.1) e) ∙ first s
      go (err x, u) e = sym (ap (λ x. view x.1) e) ∙ first s

module _ {S V : Type 0} (view : S → V) where
  pub guard_keeps : (b : Bool) (e : Error) (s : S) → view (guard b e s).1 ≡ view s
  guard_keeps true e s = refl
  guard_keeps false e s = refl

module _ {S A : Type 0} where
  -- What follows a check that passes runs from the same state.
  pub guard->>=-eq-ok :
      (b : Bool) (e : Error) (f : Unit {0} → M S A) (s : S) {a : A} {t : S}
      → (guard b e >>= f) s ≡ (ok a, t)
      → (b ≡ true) × (f tt s ≡ (ok a, t))
  guard->>=-eq-ok true e f s h = (refl, h)
  guard->>=-eq-ok false e f s h = cc
