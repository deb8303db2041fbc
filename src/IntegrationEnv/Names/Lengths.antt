-- ===== src/IntegrationEnv/Names/Lengths.antt =====
-- Lengths of texts, and what cutting and trimming leaves of a text that ends in plain characters.
use Prim.Native.String.{[], ◌∷◌, ◌++◌}
use text.Mathlib.TextLemmas.{nil-append, cons-append}
use platform_mihomo_service.Base.{
  ℕ, zero, suc, ◌+◌, ◌-◌, ◌≤◌, Char, String, Bool, false, ◌≡◌, ◌∙◌, sym, ap, refl, arith, inl, inr,
  Bool-cases,
}
use platform_mihomo_service.IntegrationEnv.Text.{
  size, drop, trim, trim_left, trim_right, trimmed_cons,
}

pub size-append : (s t : String) → size (s ++ t) ≡ size s + size t
size-append [] t = rw nil-append (omega arith)
size-append (c ∷ s) t = rw (cons-append c s t, size-append s t) (omega arith)

pub drop-append_left : (n : ℕ) (s t : String) → n ≤ size s → drop n (s ++ t) ≡ drop n s ++ t
drop-append_left zero s t h = refl
drop-append_left (suc n) [] t h = absurd (omega arith)
drop-append_left (suc n) (c ∷ s) t h = rw (cons-append c s t) (drop-append_left n s t (omega arith))

pub drop-append_self : (s t : String) → drop (size s) (s ++ t) ≡ t
drop-append_self [] t = nil-append t
drop-append_self (c ∷ s) t = rw (cons-append c s t) (drop-append_self s t)

pub size-drop : (n : ℕ) (s : String) → size (drop n s) ≡ size s - n
size-drop zero s = omega arith
size-drop (suc n) [] = omega arith
size-drop (suc n) (c ∷ s) = rw (size-drop n s) (omega arith)

-- Two texts that are equal end alike.
pub append_cancel : (p q s t : String) → size s ≡ size t → p ++ s ≡ q ++ t → s ≡ t
append_cancel p q s t h e =
    let whole : size p + size s ≡ size q + size t =
      sym (size-append p s) ∙ ap size e ∙ size-append q t in
    let same : size p ≡ size q = omega arith in
    sym (drop-append_self p s)
    ∙ ap (drop (size p)) e
    ∙ ap (λ n. drop n (q ++ t)) same
    ∙ drop-append_self q t

-- No character of the text passes the test, and there is one.
abbrev pub NonePass : (Char → Bool) → String → Type 0
NonePass p [] = Unit
NonePass p (c ∷ s) = (p c ≡ false) × NonePass p s

module _ (p : Char → Bool) where
  pub size-trim_left : (s : String) → size (trim_left p s) ≤ size s
  unfolding trim_left
  size-trim_left [] = omega arith
  size-trim_left (c ∷ s) = elim (Bool-cases (p c)) [
    | inl e ↦ let rest = size-trim_left s in rw (e, trim_left) (omega arith)
    | inr e ↦ rw (e, trim_left) (omega arith)
  ]

  size-trimmed_cons : (c : Char) (s : String) → size (trimmed_cons p c s) ≤ suc (size s)
  size-trimmed_cons c [] = elim (Bool-cases (p c)) [
    | inl e ↦ rw e (omega arith)
    | inr e ↦ rw e (omega arith)
  ]
  size-trimmed_cons c (d ∷ s) = omega arith

  pub size-trim_right : (s : String) → size (trim_right p s) ≤ size s
  unfolding trim_right
  size-trim_right [] = omega arith
  size-trim_right (c ∷ s) =
      let rest = size-trim_right s in let step = size-trimmed_cons c (trim_right p s) in omega arith

  pub size-trim : (s : String) → size (trim p s) ≤ size s
  unfolding trim
  size-trim s =
      let left = size-trim_left s in let right = size-trim_right (trim_left p s) in omega arith

  trim_right-plain : (c : Char) (s : String) → NonePass p (c ∷ s) → trim_right p (c ∷ s) ≡ c ∷ s
  unfolding trim_right
  trim_right-plain c [] (h, _) = rw h refl
  trim_right-plain c (d ∷ s) (_, k) = rw (trim_right-plain d s k) refl

  trimmed_cons-append :
      (d : Char) (q : String) (c : Char) (s : String)
      → trimmed_cons p d (q ++ (c ∷ s)) ≡ d ∷ (q ++ (c ∷ s))
  trimmed_cons-append d [] c s = rw (nil-append (c ∷ s)) refl
  trimmed_cons-append d (e ∷ q) c s = rw (cons-append e q (c ∷ s)) refl

  trim_right-append :
      (q : String) (c : Char) (s : String)
      → NonePass p (c ∷ s)
      → trim_right p (q ++ (c ∷ s)) ≡ q ++ (c ∷ s)
  unfolding trim_right
  trim_right-append [] c s h = rw (nil-append (c ∷ s)) (trim_right-plain c s h)
  trim_right-append (d ∷ q) c s h =
      rw (cons-append d q (c ∷ s), trim_right-append q c s h) (trimmed_cons-append d q c s)

  trim_left-append :
      (q : String) (c : Char) (s : String)
      → NonePass p (c ∷ s)
      → (r : String) × (trim_left p (q ++ (c ∷ s)) ≡ r ++ (c ∷ s))
  unfolding trim_left
  trim_left-append [] c s (h, _) = ([], rw (nil-append (c ∷ s), h, trim_left) refl)
  trim_left-append (d ∷ q) c s h = elim (Bool-cases (p d)) [
    | inl e ↦
        let (r, k) = trim_left-append q c s h in (r, rw (cons-append d q (c ∷ s), e, trim_left) k)
    | inr e ↦ (d ∷ q, rw (cons-append d q (c ∷ s), e, trim_left) refl)
  ]

  pub trim-append :
      (q : String) (c : Char) (s : String)
      → NonePass p (c ∷ s)
      → (r : String) × (trim p (q ++ (c ∷ s)) ≡ r ++ (c ∷ s))
  unfolding trim
  trim-append q c s h =
      let (r, e) = trim_left-append q c s h in (r, ap (trim_right p) e ∙ trim_right-append r c s h)
