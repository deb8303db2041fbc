-- ===== src/Data/GrantInvalidationRepo/Floor.antt =====
-- The abstract view of the rows of internal/data/grant_invalidation_repo.go: one number for each
-- binding and consumer, whatever the order and the ids of the rows.
use platform_mihomo_service.Base.{
  ℕ, suc, ◌≤◌, String, true, false, List, [], ◌∷◌, ◌++◌, ◌≡◌, inl, inr, refl, sym, subst, ◌∙◌, ap,
  All, any, ltb, eq_iff, eq_refl, arith, Bool-cases, if◌then◌else◌,
}
use platform_mihomo_service.Store.{ConsumerGrantInvalidation}
use platform_mihomo_service.Store.Laws.{Among, updated, upserted}
use platform_mihomo_service.Data.GrantInvalidationRepo.{same_grant, raise_minimum}
use platform_mihomo_service.Data.GrantInvalidationRepo.Demands.{is_for, any-same}

abbrev pub larger : ℕ → ℕ → ℕ
larger a b = if ltb a b then b else a

module _ (collate : String → String) where
  -- The lowest version that the rows accept of a binding and a consumer.
  abbrev pub floor : ℕ → String → List ConsumerGrantInvalidation → ℕ
  floor b c [] = 0
  floor b c (r ∷ rows) =
      if is_for collate b c r
      then larger r.minimum_grant_version (floor b c rows)
      else floor b c rows

  abbrev count_for : ℕ → String → List ConsumerGrantInvalidation → ℕ
  count_for b c [] = 0
  count_for b c (r ∷ rows) =
      if is_for collate b c r then suc (count_for b c rows) else count_for b c rows

  -- No two rows are for the same binding and consumer.
  abbrev pub IsUnique : List ConsumerGrantInvalidation → Type 0
  IsUnique rows = (b : ℕ) (c : String) → count_for b c rows ≤ 1

  floor_of_none :
      (b : ℕ) (c : String) (rows : List ConsumerGrantInvalidation)
      → any (is_for collate b c) rows ≡ false
      → floor b c rows ≡ 0
  floor_of_none b c [] h = refl
  floor_of_none b c (r ∷ rows) h = ground (arith, floor_of_none b c rows)

  pub floor_of_absent :
      (b : ℕ) (c : String) (rows : List ConsumerGrantInvalidation)
      → All (λ r. is_for collate b c r ≡ false) rows
      → floor b c rows ≡ 0
  floor_of_absent b c [] h = refl
  floor_of_absent b c (r ∷ rows) (h, k) = rw h (floor_of_absent b c rows k)

  -- A floor that no row sets is 0.
  floor_of_count :
      (b : ℕ) (c : String) (rows : List ConsumerGrantInvalidation)
      → count_for b c rows ≡ 0
      → floor b c rows ≡ 0
  floor_of_count b c [] h = refl
  floor_of_count b c (r ∷ rows) h = ground (arith, floor_of_count b c rows)

  count_for-Among :
      (b : ℕ) (c : String) (rows : List ConsumerGrantInvalidation) (r : ConsumerGrantInvalidation)
      → Among r rows
      → is_for collate b c r ≡ true
      → 1 ≤ count_for b c rows
  count_for-Among b c [] r a mine = absurd a
  count_for-Among b c (x ∷ rows) r (inl same) mine =
      let hit : is_for collate b c x ≡ true = ap (is_for collate b c) same ∙ mine in
      rw hit (omega arith)
  count_for-Among b c (x ∷ rows) r (inr a) mine =
      let rest = count_for-Among b c rows r a mine in ground arith

  floor-append :
      (b : ℕ) (c : String) (rows : List ConsumerGrantInvalidation) (r : ConsumerGrantInvalidation)
      → floor b c (rows ++ (r ∷ [])) ≡ (
          if is_for collate b c r
          then larger r.minimum_grant_version (floor b c rows)
          else floor b c rows)
  floor-append b c [] r = refl
  floor-append b c (x ∷ rows) r = ground (arith, floor-append b c rows r)

  count_for-append :
      (b : ℕ) (c : String) (rows : List ConsumerGrantInvalidation) (r : ConsumerGrantInvalidation)
      → count_for b c (rows ++ (r ∷ []))
        ≡ (if is_for collate b c r then suc (count_for b c rows) else count_for b c rows)
  count_for-append b c [] r = refl
  count_for-append b c (x ∷ rows) r = ground (arith, count_for-append b c rows r)

  count_for_none :
      (b : ℕ) (c : String) (rows : List ConsumerGrantInvalidation)
      → any (is_for collate b c) rows ≡ false
      → count_for b c rows ≡ 0
  count_for_none b c [] h = refl
  count_for_none b c (r ∷ rows) h = ground (arith, count_for_none b c rows)

  module _ (new : ConsumerGrantInvalidation) where
    count_for-updated :
        (b : ℕ) (c : String) (rows : List ConsumerGrantInvalidation)
        → count_for b c (updated (same_grant collate new) (raise_minimum new) rows)
          ≡ count_for b c rows
    count_for-updated b c [] = refl
    count_for-updated b c (r ∷ rows) = ground (arith, count_for-updated b c rows)

    floor-updated_other :
        (b : ℕ) (c : String) (rows : List ConsumerGrantInvalidation)
        → is_for collate b c new ≡ false
        → floor b c (updated (same_grant collate new) (raise_minimum new) rows) ≡ floor b c rows
    floor-updated_other b c [] h = refl
    floor-updated_other b c (r ∷ rows) h = ground (
      arith,
      floor-updated_other b c rows h,
      eq_iff (collate new.consumer) c,
      eq_iff (collate r.consumer) c,
      eq_iff (collate new.consumer) (collate r.consumer),
    )

    same_grant-is_for :
        (r : ConsumerGrantInvalidation)
        → same_grant collate new r ≡ is_for collate new.binding_id (collate new.consumer) r
    same_grant-is_for r = ground (
      arith,
      eq_iff (collate r.consumer) (collate new.consumer),
      eq_iff (collate new.consumer) (collate r.consumer),
    )

    floor-updated_self :
        (rows : List ConsumerGrantInvalidation)
        → floor new.binding_id
            (collate new.consumer)
            (updated (same_grant collate new) (raise_minimum new) rows)
          ≡ (if any (is_for collate new.binding_id (collate new.consumer)) rows
              then larger new.minimum_grant_version
                  (floor new.binding_id (collate new.consumer) rows)
              else 0)
    floor-updated_self [] = refl
    floor-updated_self (r ∷ rows) =
        let rest = floor-updated_self rows in
        let key = same_grant-is_for r in
        elim (Bool-cases (is_for collate new.binding_id (collate new.consumer) r)) [
          | inl e ↦
              let raised = floor_of_none new.binding_id (collate new.consumer) rows in
              let low : larger new.minimum_grant_version 0 ≡ new.minimum_grant_version =
                ground arith in
              rw (key, e, rest) (ground (arith, raised))
          | inr e ↦ rw (key, e, rest) (ground arith)
        ]

    own :
        (b : ℕ) (c : String)
        → is_for collate b c new ≡ true
        → (new.binding_id ≡ b) × ((collate new.consumer) ≡ c)
    own b c h = ground (arith, eq_iff (collate new.consumer) c)

    is_for_self : is_for collate new.binding_id (collate new.consumer) new ≡ true
    is_for_self = ground (arith, eq_refl (collate new.consumer))

    floor-upserted_self :
        (id : ℕ) (rows : List ConsumerGrantInvalidation)
        → floor new.binding_id
            (collate new.consumer)
            (upserted (same_grant collate) raise_minimum new (record new { id = id }) rows)
          ≡ larger new.minimum_grant_version (floor new.binding_id (collate new.consumer) rows)
    floor-upserted_self id rows = elim (Bool-cases (any (same_grant collate new) rows)) [
      | inl hit ↦
          let there : any (is_for collate new.binding_id (collate new.consumer)) rows ≡ true =
            sym (any-same collate new rows) ∙ hit in
          rw hit (floor-updated_self rows ∙ rw there refl)
      | inr missing ↦ rw missing (
          floor-append new.binding_id (collate new.consumer) rows (record new { id = id })
          ∙ rw is_for_self refl)
    ]

    floor-upserted_other :
        (b : ℕ) (c : String) (id : ℕ) (rows : List ConsumerGrantInvalidation)
        → is_for collate b c new ≡ false
        → floor b c (upserted (same_grant collate) raise_minimum new (record new { id = id }) rows)
          ≡ floor b c rows
    floor-upserted_other b c id rows other = elim (Bool-cases (any (same_grant collate new) rows)) [
      | inl hit ↦ rw hit (floor-updated_other b c rows other)
      | inr missing ↦ rw missing (floor-append b c rows (record new { id = id }) ∙ rw other refl)
    ]

    -- An upsert raises the floor of its own binding and consumer to the new version, and no other.
    pub floor-upserted :
        (b : ℕ) (c : String) (id : ℕ) (rows : List ConsumerGrantInvalidation)
        → floor b c (upserted (same_grant collate) raise_minimum new (record new { id = id }) rows)
          ≡ (if is_for collate b c new
              then larger new.minimum_grant_version (floor b c rows)
              else floor b c rows)
    floor-upserted b c id rows = elim (Bool-cases (is_for collate b c new)) [
      | inl mine ↦
          let (same_b, same_c) = own b c mine in
          rw mine (
            subst
              (λ k.
                floor k c
                  (upserted (same_grant collate) raise_minimum new (record new { id = id }) rows)
                ≡ larger new.minimum_grant_version (floor k c rows))
              same_b
              (subst
                (λ k.
                  floor new.binding_id k
                    (upserted (same_grant collate) raise_minimum new (record new { id = id }) rows)
                  ≡ larger new.minimum_grant_version (floor new.binding_id k rows))
                same_c (floor-upserted_self id rows)))
      | inr other ↦ rw other (floor-upserted_other b c id rows other)
    ]

    count_for_unmatched :
        (b : ℕ) (c : String) (rows : List ConsumerGrantInvalidation)
        → any (same_grant collate new) rows ≡ false
        → is_for collate b c new ≡ true
        → count_for b c rows ≡ 0
    count_for_unmatched b c rows missing mine =
        let (same_b, same_c) = own b c mine in
        let none_there =
          count_for_none new.binding_id (collate new.consumer) rows
            (sym (any-same collate new rows) ∙ missing) in
        ap (λ k. count_for k c rows) (sym same_b)
        ∙ ap (λ k. count_for new.binding_id k rows) (sym same_c)
        ∙ none_there

    pub IsUnique-upserted :
        (id : ℕ) (rows : List ConsumerGrantInvalidation)
        → IsUnique rows
        → IsUnique (upserted (same_grant collate) raise_minimum new (record new { id = id }) rows)
    IsUnique-upserted id rows unique b c = elim (Bool-cases (any (same_grant collate new) rows)) [
      | inl hit ↦ rw (hit, count_for-updated b c rows) (unique b c)
      | inr missing ↦
          let fresh = count_for_unmatched b c rows missing in
          let before = unique b c in
          rw (missing, count_for-append b c rows (record new { id = id }))
            (ground (arith, fresh, before))
    ]

  -- Where the rows are unique, any row of a binding and a consumer has their floor.
  pub floor-Among :
      (b : ℕ) (c : String) (rows : List ConsumerGrantInvalidation) (r : ConsumerGrantInvalidation)
      → count_for b c rows ≤ 1
      → Among r rows
      → is_for collate b c r ≡ true
      → floor b c rows ≡ r.minimum_grant_version
  floor-Among b c [] r h a mine = absurd a
  floor-Among b c (x ∷ rows) r h (inl same) mine =
      let hit : is_for collate b c x ≡ true = ap (is_for collate b c) same ∙ mine in
      let single : suc (count_for b c rows) ≤ 1 = rw hit at h in
      let none_else : floor b c rows ≡ 0 = floor_of_count b c rows (omega arith) in
      let value : x.minimum_grant_version ≡ r.minimum_grant_version =
        ap (λ (y : ConsumerGrantInvalidation). y.minimum_grant_version) same in
      rw (hit, none_else) (ground arith)
  floor-Among b c (x ∷ rows) r h (inr a) mine = elim (Bool-cases (is_for collate b c x)) [
    | inl hit ↦
        let single : suc (count_for b c rows) ≤ 1 = rw hit at h in
        let another = count_for-Among b c rows r a mine in absurd (omega arith)
    | inr other ↦ rw other (floor-Among b c rows r (rw other at h) a mine)
  ]
