-- ===== src/Data/GrantInvalidationRepo/Refinement.antt =====
-- The repository of internal/data/grant_invalidation_repo.go implements a map of versions, in which
-- Upsert takes the larger version and MinimumVersion reads.
use platform_mihomo_service.Base.{
  ℕ, String, Option, none, some, List, [], ◌∷◌, ◌≡◌, refl, sym, ap, ◌∙◌, subst, All-of, eqb, ◌&&◌,
  ◌==◌, arith, if◌then◌else◌,
}
use platform_mihomo_service.Outcome.{Error, Result, ok, err, pure, record_not_found}
use platform_mihomo_service.Outcome.Laws.{>>=-eq-ok}
use platform_mihomo_service.Store.{ConsumerGrantInvalidation, World}
use platform_mihomo_service.Store.Laws.{View, IsWorld, stored_grant}
use platform_mihomo_service.Data.Query.{or_none, found_or_none}
use platform_mihomo_service.Data.GrantInvalidationRepo.{
  version_of, upsert, minimum_version, same_grant, raise_minimum,
}
use platform_mihomo_service.Data.GrantInvalidationRepo.Demands.{is_for}
use platform_mihomo_service.Data.GrantInvalidationRepo.Minimum.{grants, minimum_version_keeps}
use platform_mihomo_service.Data.GrantInvalidationRepo.Floor.{
  floor, larger, IsUnique, floor-upserted, IsUnique-upserted, floor-Among, floor_of_absent,
}

-- The specification: a map of versions, by the binding and the weight of the consumer.
abbrev pub Versions : Type 0
Versions = ℕ → String → ℕ

-- Raising the version of a binding and a weight.
abbrev pub raise : ℕ → String → ℕ → Versions → Versions
raise b c v versions b' c' =
    if eqb b b' && c == c' then larger v (versions b' c') else versions b' c'

-- One request of the log: a binding, a consumer and a version.
abbrev pub Request : Type 0
Request = ℕ × String × ℕ

-- The map after the requests of a log, the last one first.
abbrev pub versions_after : (String → String) → List Request → Versions
versions_after collate [] b c = 0
versions_after collate ((b, c, v) ∷ log) b' c' =
    raise b (collate c) v (versions_after collate log) b' c'

module _ {S : Type 0} (view : S → View) (w : World S) (ok_world : IsWorld view w) where
  -- The rows of a state stand for a map.
  abbrev pub StandsFor : S → Versions → Type 0
  StandsFor s versions =
      IsUnique w.collate (grants view w ok_world s)
      × ((b : ℕ) (c : String) → floor w.collate b c (grants view w ok_world s) ≡ versions b c)

  -- A run of the repository's operations from a state, with the log of the upserts that succeeded;
  -- reads and failed upserts leave no entry.
  pub data Run (start : S) : List Request → S → Type 0 where
    begin : Run start [] start
    recorded :
        {log : List Request} {s s' : S} (b : ℕ) (c : String) (v : ℕ)
        → Run start log s
        → upsert w b c v s ≡ (ok tt, s')
        → Run start ((b, c, v) ∷ log) s'
    refused :
        {log : List Request} {s s' : S} (b : ℕ) (c : String) (v : ℕ) (e : Error)
        → Run start log s
        → upsert w b c v s ≡ (err e, s')
        → Run start log s'
    read :
        {log : List Request} {s : S} (b : ℕ) (c : String)
        → Run start log s
        → Run start log (minimum_version w b c s).1

  -- States with the same rows stand for the same map.
  StandsFor-same :
      (s t : S) (versions : Versions)
      → view t ≡ view s
      → StandsFor s versions
      → StandsFor t versions
  StandsFor-same s t versions same (unique, floors) =
      let rows : grants view w ok_world s ≡ grants view w ok_world t =
        ap (λ x. x.tables.consumer_grant_invalidations) (sym same) in
      (
        subst (IsUnique w.collate) rows unique,
        λ b c. ap (λ r. floor w.collate b c r) (sym rows) ∙ floors b c,
      )

  StandsFor-upsert :
      (s s' : S) (versions : Versions) (b : ℕ) (c : String) (v : ℕ)
      → StandsFor s versions
      → upsert w b c v s ≡ (ok tt, s')
      → StandsFor s' (raise b (w.collate c) v versions)
  unfolding upsert
  StandsFor-upsert s s' versions b c v h e =
      let new : ConsumerGrantInvalidation = record {
        id = 0;
        binding_id = b;
        consumer = c;
        minimum_grant_version = v;
        invalidated_at = (w.now s).0;
      } in
      let (unique, floors) = StandsFor-same s (w.now s).1 versions (ok_world.clock_view s) h in
      let (id, _, after) =
        ok_world.grant_table.upsert_ok (same_grant w.collate) raise_minimum new (w.now s).1 s'
          (All-of _ (λ _. refl) _) e in
      let rows = ap (λ (x : View). x.tables.consumer_grant_invalidations) (sym after) in
      (
        subst (IsUnique w.collate) rows (
            IsUnique-upserted w.collate (stored_grant w.datetime id new) id
              (grants view w ok_world (w.now s).1) unique),
        λ b' c'.
            ap (λ r. floor w.collate b' c' r) (sym rows)
            ∙ floor-upserted w.collate (stored_grant w.datetime id new) b' c' id
                (grants view w ok_world (w.now s).1)
            ∙ ap (λ n. if is_for w.collate b' c' new then larger v n else n) (floors b' c'),
      )

  StandsFor-refused :
      (s s' : S) (versions : Versions) (b : ℕ) (c : String) (v : ℕ) (x : Error)
      → StandsFor s versions
      → upsert w b c v s ≡ (err x, s')
      → StandsFor s' versions
  unfolding upsert
  StandsFor-refused s s' versions b c v x h e =
      let same =
        ok_world.grant_table.upsert_err (same_grant w.collate) raise_minimum _ (w.now s).1 x s' e in
      StandsFor-same s s' versions (same ∙ ok_world.clock_view s) h

  Run-StandsFor :
      (start s : S) (log : List Request)
      → Run start log s
      → StandsFor start (λ _ _. 0)
      → StandsFor s (versions_after w.collate log)
  Run-StandsFor start s log begin h = h
  Run-StandsFor start s log (recorded {log = before} {s = t} b c v run e) h =
      StandsFor-upsert t s (versions_after w.collate before) b c v
        (Run-StandsFor start t before run h) e
  Run-StandsFor start s log (refused {s = t} b c v x run e) h =
      StandsFor-refused t s (versions_after w.collate log) b c v x (Run-StandsFor start t log run h)
        e
  Run-StandsFor start s log (read {s = t} b c run) h =
      StandsFor-same t s (versions_after w.collate log)
        (minimum_version_keeps view w ok_world b c t) (Run-StandsFor start t log run h)

  -- What a read finds is what the rows stand for.
  found_version :
      (b : ℕ) (c : String) (s : S) (row : Option ConsumerGrantInvalidation) (u : S)
      → IsUnique w.collate (grants view w ok_world s)
      → or_none (w.consumer_grant_invalidations.first (is_for w.collate b (w.collate c))) s
        ≡ (ok row, u)
      → version_of row ≡ floor w.collate b (w.collate c) (grants view w ok_world s)
  found_version b c s row u unique h =
      go (w.consumer_grant_invalidations.first (is_for w.collate b (w.collate c)) s) refl h
    where
      go :
          (x : Result ConsumerGrantInvalidation × S)
          → w.consumer_grant_invalidations.first (is_for w.collate b (w.collate c)) s ≡ x
          → Path
              (Result (Option ConsumerGrantInvalidation) × S)
              (found_or_none x.0, x.1)
              (ok row, u)
          → version_of row ≡ floor w.collate b (w.collate c) (grants view w ok_world s)
      go (ok r, t) e k =
          let (there, hit, _) =
            ok_world.grant_table.first_ok (is_for w.collate b (w.collate c)) s r t e in
          let value : row ≡ some r = cc in
          rw value (
            sym (
              floor-Among w.collate b (w.collate c) (grants view w ok_world s) r
                (unique b (w.collate c)) there hit))
      go (err record_not_found, t) e k =
          let missing = ok_world.grant_table.first_none (is_for w.collate b (w.collate c)) s t e in
          let value : row ≡ none = cc in
          rw value
            (sym (floor_of_absent w.collate b (w.collate c) (grants view w ok_world s) missing))
      go (err _, t) e k = cc

  -- After any run of upserts and reads from an empty table, some of which may fail, the version
  -- that is read is the largest that was recorded for the binding and a consumer of the same weight, or 0.
  pub minimum_version-versions_after :
      (start s s' : S) (log : List Request) (b : ℕ) (c : String) (n : ℕ)
      → grants view w ok_world start ≡ []
      → Run start log s
      → minimum_version w b c s ≡ (ok n, s')
      → n ≡ versions_after w.collate log b (w.collate c)
  unfolding minimum_version
  minimum_version-versions_after start s s' log b c n empty run h =
      let (unique, floors) = Run-StandsFor start s log run (
        subst (IsUnique w.collate) (sym empty) (λ _ _. omega arith),
        λ b' c'. ap (floor w.collate b' c') empty,
      ) in
      let (row, u, found, done) =
        >>=-eq-ok
          (or_none (w.consumer_grant_invalidations.first (is_for w.collate b (w.collate c))))
          (λ row. pure (version_of row)) s h in
      let value : version_of row ≡ n = ground arith in
      sym value ∙ found_version b c s row u unique found ∙ floors b (w.collate c)
