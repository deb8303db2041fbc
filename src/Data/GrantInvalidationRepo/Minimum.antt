-- ===== src/Data/GrantInvalidationRepo/Minimum.antt =====
-- The lowest accepted grant version only rises, and a read returns it.
use platform_mihomo_service.Base.{
  ℕ, ◌≤◌, String, ◌&&◌, Option, some, List, ◌≡◌, subst, refl, sym, ◌∙◌, ap, All-of, eqb, ◌==◌,
  arith,
}
use platform_mihomo_service.Outcome.{Result, ok, err, pure, record_not_found}
use platform_mihomo_service.Outcome.Laws.{>>=-eq-ok, >>=_keeps}
use platform_mihomo_service.Store.{ConsumerGrantInvalidation, World}
use platform_mihomo_service.Store.Laws.{View, IsWorld, stored_grant}
use platform_mihomo_service.Data.Query.{or_none, found_or_none}
use platform_mihomo_service.Data.GrantInvalidationRepo.{
  same_grant, raise_minimum, version_of, upsert, minimum_version,
}
use platform_mihomo_service.Data.GrantInvalidationRepo.Demands.{
  is_for, Demands, upserted-Demands_self, upserted-Demands, none_there, read_Demands,
}

module _ {S : Type 0} (view : S → View) (w : World S) (ok_world : IsWorld view w) where
  abbrev new_row : ℕ → String → ℕ → S → ConsumerGrantInvalidation
  new_row b c v s = record {
    id = 0;
    binding_id = b;
    consumer = c;
    minimum_grant_version = v;
    invalidated_at = (w.now s).0;
  }

  abbrev pub grants : S → List ConsumerGrantInvalidation
  grants s = (view s).tables.consumer_grant_invalidations

  -- After a version is recorded for a binding and a consumer, the database demands it.
  pub upsert-Demands :
      (b : ℕ) (c : String) (v : ℕ) (s s' : S)
      → upsert w b c v s ≡ (ok tt, s')
      → Demands w.collate b (w.collate c) v (grants s')
  unfolding upsert
  upsert-Demands b c v s s' h =
      let (id, _, e) =
        ok_world.grant_table.upsert_ok (same_grant w.collate) raise_minimum (new_row b c v s)
          (w.now s).1 s' (All-of _ (λ _. refl) _) h in
      subst (λ u. Demands w.collate b (w.collate c) v u.tables.consumer_grant_invalidations) (sym e)
        (upserted-Demands_self w.collate (stored_grant w.datetime id (new_row b c v s)) id
          (grants (w.now s).1))

  -- No call of `Upsert`, failed or not, lowers what the database demands.
  pub upsert_keeps_Demands :
      (b b' : ℕ) (c c' : String) (v v' : ℕ) (s s' : S) (r : Result (Unit {0}))
      → upsert w b' c' v' s ≡ (r, s')
      → Demands w.collate b (w.collate c) v (grants s)
      → Demands w.collate b (w.collate c) v (grants s')
  unfolding upsert
  upsert_keeps_Demands b b' c c' v v' s s' (ok u) h d =
      let (id, _, e) =
        ok_world.grant_table.upsert_ok (same_grant w.collate) raise_minimum (new_row b' c' v' s)
          (w.now s).1 s' (All-of _ (λ _. refl) _) h in
      let before : Demands w.collate b (w.collate c) v (grants (w.now s).1) =
        subst (λ u. Demands w.collate b (w.collate c) v u.tables.consumer_grant_invalidations)
          (sym (ok_world.clock_view s)) d in
      subst (λ u. Demands w.collate b (w.collate c) v u.tables.consumer_grant_invalidations) (sym e)
        (upserted-Demands w.collate (stored_grant w.datetime id (new_row b' c' v' s)) b
          (w.collate c) v id (grants (w.now s).1) before)
  upsert_keeps_Demands b b' c c' v v' s s' (err e) h d =
      let same =
        ok_world.grant_table.upsert_err (same_grant w.collate) raise_minimum (new_row b' c' v' s)
          (w.now s).1 e s' h in
      subst (λ u. Demands w.collate b (w.collate c) v u.tables.consumer_grant_invalidations)
        (sym (same ∙ ok_world.clock_view s)) d

  read_version :
      (b : ℕ) (c : String) (v : ℕ) (s : S) (row : Option ConsumerGrantInvalidation) (u : S)
      → Demands w.collate b (w.collate c) v (grants s)
      → or_none (w.consumer_grant_invalidations.first (is_for w.collate b (w.collate c))) s
        ≡ (ok row, u)
      → v ≤ version_of row
  read_version b c v s row u d h =
      go (w.consumer_grant_invalidations.first (is_for w.collate b (w.collate c)) s) refl h
    where
      go :
          (x : Result ConsumerGrantInvalidation × S)
          → w.consumer_grant_invalidations.first (is_for w.collate b (w.collate c)) s ≡ x
          → Path
              (Result (Option ConsumerGrantInvalidation) × S)
              (found_or_none x.0, x.1)
              (ok row, u)
          → v ≤ version_of row
      go (ok r, t) e k =
          let (there, hit, _) =
            ok_world.grant_table.first_ok (is_for w.collate b (w.collate c)) s r t e in
          let value : row ≡ some r = cc in
          rw value (read_Demands w.collate b (w.collate c) v (grants s) r d.0 there hit)
      go (err record_not_found, t) e k =
          let missing = ok_world.grant_table.first_none (is_for w.collate b (w.collate c)) s t e in
          absurd (none_there w.collate b (w.collate c) (grants s) d.1 missing)
      go (err _, t) e k = cc

  -- The version that `MinimumVersion` reads is at least the one that the database demands.
  pub minimum_version-Demands :
      (b : ℕ) (c : String) (v n : ℕ) (s s' : S)
      → Demands w.collate b (w.collate c) v (grants s)
      → minimum_version w b c s ≡ (ok n, s')
      → v ≤ n
  unfolding minimum_version
  minimum_version-Demands b c v n s s' d h =
      let (row, u, read, done) =
        >>=-eq-ok
          (or_none (w.consumer_grant_invalidations.first (is_for w.collate b (w.collate c))))
          (λ row. pure (version_of row)) s h in
      let value : version_of row ≡ n = ground arith in
      rw (← value) (read_version b c v s row u d read)

  -- A read of the version leaves the database and the cache as they are.
  pub minimum_version_keeps :
      (b : ℕ) (c : String) (s : S) → view (minimum_version w b c s).1 ≡ view s
  unfolding minimum_version
  minimum_version_keeps b c s =
      let read =
        w.consumer_grant_invalidations.first
          (λ r. eqb r.binding_id b && w.collate r.consumer == w.collate c) in
      >>=_keeps view (or_none read) (λ row. pure (version_of row)) (λ u. go u (read u) refl)
        (λ row u. refl) s
    where
      go :
          (u : S) (x : Result ConsumerGrantInvalidation × S)
          → w.consumer_grant_invalidations.first
              (λ r. eqb r.binding_id b && w.collate r.consumer == w.collate c)
              u
            ≡ x
          → view
              (w.consumer_grant_invalidations.first
                (λ r. eqb r.binding_id b && w.collate r.consumer == w.collate c)
                u).1
            ≡ view u
      go u (ok r, t) e =
          let (_, _, same) = ok_world.grant_table.first_ok _ u r t e in ap (λ x. view x.1) e ∙ same
      go u (err x, t) e = ap (λ x. view x.1) e ∙ ok_world.grant_table.first_err _ u x t e
