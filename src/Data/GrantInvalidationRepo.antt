-- ===== src/Data/GrantInvalidationRepo.antt =====
-- internal/data/grant_invalidation_repo.go: the lowest grant version that a binding still accepts
-- from a consumer.
pub mod Demands
pub mod Minimum
pub mod Floor
pub mod Refinement
mod Tests
use platform_mihomo_service.Base.{
  ℕ, String, Bool, ◌&&◌, Option, none, some, eqb, ltb, ◌==◌, if◌then◌else◌,
}
use platform_mihomo_service.Outcome.{M, pure, ◌>>=◌}
use platform_mihomo_service.Store.{ConsumerGrantInvalidation, World}
use platform_mihomo_service.Data.Query.{or_none}

-- The columns of the conflict; texts are compared by their weights.
abbrev pub same_grant :
    (String → String) → ConsumerGrantInvalidation → ConsumerGrantInvalidation → Bool
same_grant collate new old =
    eqb new.binding_id old.binding_id && collate new.consumer == collate old.consumer

-- `CASE WHEN minimum_grant_version > ? THEN minimum_grant_version ELSE ? END`
abbrev pub raise_minimum :
    ConsumerGrantInvalidation → ConsumerGrantInvalidation → ConsumerGrantInvalidation
raise_minimum new old = record old {
  minimum_grant_version =
      if ltb new.minimum_grant_version old.minimum_grant_version
      then old.minimum_grant_version
      else new.minimum_grant_version;
  invalidated_at = new.invalidated_at;
}

abbrev version_of : Option ConsumerGrantInvalidation → ℕ
version_of none = 0
version_of (some r) = r.minimum_grant_version

module _ {S : Type 0} (w : World S) where
  unfoldable pub upsert : ℕ → String → ℕ → M S (Unit {0})
  upsert binding_id consumer minimum_version s =
      let (now, s') = w.now s in
      w.consumer_grant_invalidations.create_on_conflict (same_grant w.collate) raise_minimum
        (record {
          id = 0;
          binding_id = binding_id;
          consumer = consumer;
          minimum_grant_version = minimum_version;
          invalidated_at = now;
        })
        s'

  -- A consumer with no row has no minimum, 0.
  unfoldable pub minimum_version : ℕ → String → M S ℕ
  minimum_version binding_id consumer = do
    row ← or_none (
        w.consumer_grant_invalidations.first
          (λ r. eqb r.binding_id binding_id && w.collate r.consumer == w.collate consumer))
    pure (version_of row)
