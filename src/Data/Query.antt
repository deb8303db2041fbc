-- ===== src/Data/Query.antt =====
-- How the repositories read a missing row: `errors.Is(err, gorm.ErrRecordNotFound)` gives nil.
use platform_mihomo_service.Base.{Option, none, some}
use platform_mihomo_service.Outcome.{Result, ok, err, M, record_not_found}
use platform_mihomo_service.Outcome.Keeps.{Keeps}

abbrev pub found_or_none : {A : Type 0} → Result A → Result (Option A)
found_or_none (ok a) = ok (some a)
found_or_none (err record_not_found) = ok none
found_or_none (err e) = err e

abbrev pub or_none : {S A : Type 0} → M S A → M S (Option A)
or_none m s = let (r, s') = m s in (found_or_none r, s')

pub Keeps-or_none : {S A : Type 0} {P : S → Type 0} (m : M S A) → Keeps P m → Keeps P (or_none m)
Keeps-or_none m k = record { at = λ s h. k.at s h }
