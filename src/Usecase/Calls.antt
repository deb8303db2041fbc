-- ===== src/Usecase/Calls.antt =====
-- Calls of the upstream client and of the clock, an optional repository, a rollback, a transaction.
use platform_mihomo_service.Base.{none, some}
use platform_mihomo_service.Outcome.{Result, ok, err, M, external}
use platform_mihomo_service.Biz.{Time}
use platform_mihomo_service.Biz.Repositories.{Reply, answer, failure, Ports}

abbrev pub or_error : {A : Type 0} → Reply A → Result A
or_error (answer a) = ok a
or_error (failure message) = err (external message)

abbrev pub ask : {S A : Type 0} → (S → Reply A × S) → M S A
ask call s = let (r, s') = call s in (or_error r, s')

abbrev pub clock : {S : Type 0} → Ports S → M S Time
clock p s = let (t, s') = p.now s in (ok t, s')

-- A deferred function that runs where the rest of the call fails; the error is the rest's.
abbrev pub with_rollback : {S A : Type 0} → M S (Unit {0}) → M S A → M S A
with_rollback undo rest s =
    let (r, s') = rest s in elim r [ ok a ↦ (ok a, s') | err e ↦ (err e, (undo s').1) ]

-- `runInTransaction`: in a transaction, if the credential repository offers one.
unfoldable pub run_in_transaction : {S : Type 0} → Ports S → (A : Type 0) → M S A → M S A
run_in_transaction p A fn = elim p.within_transaction [
  | none ↦ fn
  | some transaction ↦ transaction A fn
]
