-- ===== src/Data/GrantInvalidationRepo/Demands.antt =====
-- What the rows of internal/data/grant_invalidation_repo.go demand of a binding and a consumer, and
-- what an upsert makes of it.
use platform_mihomo_service.Base.{
  ℕ, ◌≤◌, String, Bool, true, false, ◌&&◌, List, [], ◌∷◌, ◌≡◌, ◌⊎◌, inl, inr, refl, sym, ◌∙◌, All,
  All-append, any, any-append, any-false, eqb, ◌==◌, eq_iff, eq_refl, arith, Bool-cases,
}
use platform_mihomo_service.Store.{ConsumerGrantInvalidation}
use platform_mihomo_service.Store.Laws.{Among, updated, upserted}
use platform_mihomo_service.Data.GrantInvalidationRepo.{same_grant, raise_minimum}

module _ (collate : String → String) where
  -- The rows of a binding and of the consumers with a weight.
  abbrev pub is_for : ℕ → String → ConsumerGrantInvalidation → Bool
  is_for b c r = eqb r.binding_id b && collate r.consumer == c

  -- The rows of a binding and a weight of consumers demand at least version v, and there is one.
  abbrev pub Demands : ℕ → String → ℕ → List ConsumerGrantInvalidation → Type 0
  Demands b c v rows =
      All (λ r. (is_for b c r ≡ false) ⊎ (v ≤ r.minimum_grant_version)) rows
      × (any (is_for b c) rows ≡ true)

  module _ (new : ConsumerGrantInvalidation) where
    raised-All :
        (b : ℕ) (c : String) (v : ℕ) (rows : List ConsumerGrantInvalidation)
        → All (λ r. (is_for b c r ≡ false) ⊎ (v ≤ r.minimum_grant_version)) rows
        → All
            (λ r. (is_for b c r ≡ false) ⊎ (v ≤ r.minimum_grant_version))
            (updated (same_grant collate new) (raise_minimum new) rows)
    raised-All b c v [] h = tt
    raised-All b c v (r ∷ rows) h = ground (arith, raised-All b c v rows h.1)

    raised-any :
        (b : ℕ) (c : String) (rows : List ConsumerGrantInvalidation)
        → any (is_for b c) (updated (same_grant collate new) (raise_minimum new) rows)
          ≡ any (is_for b c) rows
    raised-any b c [] = refl
    raised-any b c (r ∷ rows) = ground (arith, raised-any b c rows)

    -- The rows of the new row's own binding and consumer.
    raised_self :
        (rows : List ConsumerGrantInvalidation)
        → All
            (λ r.
              (is_for new.binding_id (collate new.consumer) r ≡ false)
              ⊎ (new.minimum_grant_version ≤ r.minimum_grant_version))
            (updated (same_grant collate new) (raise_minimum new) rows)
    raised_self [] = tt
    raised_self (r ∷ rows) = ground (
      arith,
      raised_self rows,
      eq_iff (collate r.consumer) (collate new.consumer),
      eq_iff (collate new.consumer) (collate r.consumer),
    )

    pub any-same :
        (rows : List ConsumerGrantInvalidation)
        → any (same_grant collate new) rows
          ≡ any (is_for new.binding_id (collate new.consumer)) rows
    any-same [] = refl
    any-same (r ∷ rows) = ground (
      arith,
      any-same rows,
      eq_iff (collate r.consumer) (collate new.consumer),
      eq_iff (collate new.consumer) (collate r.consumer),
    )

    unmatched-All :
        (b : ℕ) (c : String) (v : ℕ) (rows : List ConsumerGrantInvalidation)
        → All (λ r. is_for b c r ≡ false) rows
        → All (λ r. (is_for b c r ≡ false) ⊎ (v ≤ r.minimum_grant_version)) rows
    unmatched-All b c v [] h = tt
    unmatched-All b c v (r ∷ rows) (p, h) = (inl p, unmatched-All b c v rows h)

    -- What an upsert leaves demands the new version of the new row's binding and consumer.
    pub upserted-Demands_self :
        (id : ℕ) (rows : List ConsumerGrantInvalidation)
        → Demands new.binding_id
            (collate new.consumer)
            new.minimum_grant_version
            (upserted (same_grant collate) raise_minimum new (record new { id = id }) rows)
    upserted-Demands_self id rows =
        let b = new.binding_id in
        let c = (collate new.consumer) in
        elim (Bool-cases (any (same_grant collate new) rows)) [
          | inl there ↦
              rw there (raised_self rows, raised-any b c rows ∙ sym (any-same rows) ∙ there)
          | inr missing ↦
              let added : List ConsumerGrantInvalidation = record new { id = id } ∷ [] in
              let none_there = any-false (is_for b c) rows (sym (any-same rows) ∙ missing) in
              rw missing (
                All-append _ rows added
                    (unmatched-All b c new.minimum_grant_version rows none_there)
                    (inr (omega arith), tt),
                any-append (is_for b c) rows added ∙ ground (arith, eq_refl c),
              )
        ]

    -- A new row for a demanded binding and consumer has a row in the way.
    demanded_in_the_way :
        (b : ℕ) (c : String) (rows : List ConsumerGrantInvalidation)
        → any (is_for b c) rows ≡ true
        → any (same_grant collate new) rows ≡ false
        → is_for b c new ≡ false
    demanded_in_the_way b c rows there missing = elim (Bool-cases (is_for b c new)) [
      | inr other ↦ other
      | inl mine ↦
          let same_b : new.binding_id ≡ b = ground arith in
          let same_c : (collate new.consumer) ≡ c =
            ground (arith, eq_iff (collate new.consumer) c) in
          let mine_there : any (is_for new.binding_id (collate new.consumer)) rows ≡ true =
            rw (same_b, same_c) there in
          cc (any-same rows)
    ]

    -- And it still demands what the rows demanded before.
    pub upserted-Demands :
        (b : ℕ) (c : String) (v id : ℕ) (rows : List ConsumerGrantInvalidation)
        → Demands b c v rows
        → Demands b c v
            (upserted (same_grant collate) raise_minimum new (record new { id = id }) rows)
    upserted-Demands b c v id rows (h, there) =
        elim (Bool-cases (any (same_grant collate new) rows)) [
          | inl hit ↦ rw hit (raised-All b c v rows h, raised-any b c rows ∙ there)
          | inr missing ↦
              let added : List ConsumerGrantInvalidation = record new { id = id } ∷ [] in
              let other = demanded_in_the_way b c rows there missing in
              rw missing (
                All-append _ rows added h (inl other, tt),
                any-append (is_for b c) rows added ∙ (rw there),
              )
        ]

  pub none_there :
      (b : ℕ) (c : String) (rows : List ConsumerGrantInvalidation)
      → any (is_for b c) rows ≡ true
      → All (λ r. is_for b c r ≡ false) rows
      → ⊥
  none_there b c [] h k = cc
  none_there b c (r ∷ rows) h k = ground (arith, none_there b c rows)

  -- What a read finds is at least what the rows demand.
  pub read_Demands :
      (b : ℕ) (c : String) (v : ℕ) (rows : List ConsumerGrantInvalidation)
      (r : ConsumerGrantInvalidation)
      → All (λ x. (is_for b c x ≡ false) ⊎ (v ≤ x.minimum_grant_version)) rows
      → Among r rows
      → is_for b c r ≡ true
      → v ≤ r.minimum_grant_version
  read_Demands b c v [] r h a e = absurd a
  read_Demands b c v (x ∷ rows) r h (inl same) e =
      let k = h.0 in let mine : is_for b c x ≡ true = rw same e in rw (← same) (ground arith)
  read_Demands b c v (x ∷ rows) r h (inr a) e = read_Demands b c v rows r h.1 a e
