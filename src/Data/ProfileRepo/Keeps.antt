-- ===== src/Data/ProfileRepo/Keeps.antt =====
-- What the profile repository keeps of the tables.
use platform_mihomo_service.Base.{ℕ, String, Bool, List, [], ◌∷◌}
use platform_mihomo_service.Outcome.{Result, ok, err, M}
use platform_mihomo_service.Outcome.Keeps.{Keeps, keeps_rules}
use platform_mihomo_service.Biz.{Profile, ProfileIdentity}
use platform_mihomo_service.Store.{AccountProfile, World}
use platform_mihomo_service.Store.Laws.{Tables, View, IsWorld, profile_lens}
use platform_mihomo_service.Store.Keeps.{
  On, IsFree, Keeps-first, Keeps-find, Keeps-count, Keeps-delete, Keeps-update, Keeps-create,
  Keeps-upsert, Keeps-transaction,
}
use platform_mihomo_service.Data.Query.{Keeps-or_none}
use platform_mihomo_service.Data.ProfileRepo.{
  map_default_profile_duplicate_error, map_error, ensure_no_conflicting_default_profile,
  save_default_profile, save, set_default_in_transaction, set_default_by_binding_and_player_id,
  list_by_binding_id, list_by_platform_account_id, delete_missing_by_binding_id,
  delete_by_platform_account_id,
}

Keeps-map_error : {S A : Type 0} {P : S → Type 0} (m : M S A) → Keeps P m → Keeps P (map_error m)
unfolding map_error
Keeps-map_error {S} {A} {P} m k = record { at = λ s h. go (m s) (k.at s h) }
  where
    go :
        (x : Result A × S)
        → P x.1
        → let y : Result A × S = elim x.0 [
          | ok a ↦ (ok a, x.1)
          | err e ↦ (err (map_default_profile_duplicate_error e), x.1)
        ] in
          P y.1
    go (ok a, t) h = h
    go (err e, t) h = h

module _ {S : Type 0} (view : S → View) (Q : Tables → Type 0) (w : World S)
    (ok_world : IsWorld view w) where
  abbrev P : S → Type 0
  P = On view Q

  Keeps-rows : (q : AccountProfile → Bool) → Keeps P (w.account_profiles.find q)
  Keeps-rows q = Keeps-find view Q profile_lens _ _ w.account_profiles ok_world.profile_table q

  pub Keeps-list_by_binding_id : (b : ℕ) → Keeps P (list_by_binding_id w b)
  unfolding list_by_binding_id
  Keeps-list_by_binding_id b = search (keeps_rules, Keeps-rows)

  pub Keeps-list_by_platform_account_id : (k : String) → Keeps P (list_by_platform_account_id w k)
  unfolding list_by_platform_account_id
  Keeps-list_by_platform_account_id k = search (keeps_rules, Keeps-rows)

  Keeps-no_conflict :
      (p : Profile) (id : ℕ) → Keeps P (ensure_no_conflicting_default_profile w p id)
  unfolding ensure_no_conflicting_default_profile
  Keeps-no_conflict p id =
      search
        (keeps_rules, Keeps-count view Q profile_lens _ _ w.account_profiles ok_world.profile_table)

  module _ (free : IsFree profile_lens Q) where
    Keeps-removed : (q : AccountProfile → Bool) → Keeps P (w.account_profiles.delete q)
    Keeps-removed q =
        Keeps-delete view Q profile_lens _ _ w.account_profiles ok_world.profile_table free q

    Keeps-changed :
        (q : AccountProfile → Bool) (f : AccountProfile → AccountProfile)
        → Keeps P (w.account_profiles.update q f)
    Keeps-changed q f =
        Keeps-update view Q profile_lens _ _ w.account_profiles ok_world.profile_table free q f

    Keeps-created : (r : AccountProfile) → Keeps P (w.account_profiles.create r)
    Keeps-created r =
        Keeps-create view Q profile_lens _ _ w.account_profiles ok_world.profile_table free r

    Keeps-save_default_profile :
        (p : Profile) (r : AccountProfile) → Keeps P (save_default_profile w p r)
    unfolding save_default_profile
    Keeps-save_default_profile p r =
        search
          (
            keeps_rules,
            Keeps-or_none,
            Keeps-first view Q profile_lens _ _ w.account_profiles ok_world.profile_table,
            Keeps-no_conflict,
            Keeps-map_error,
            Keeps-changed,
            Keeps-created,
          )
          depth 8

    pub Keeps-save : (p : Profile) → Keeps P (save w p)
    unfolding save
    Keeps-save p = search (
      keeps_rules,
      Keeps-save_default_profile,
      Keeps-upsert view Q profile_lens _ _ w.account_profiles ok_world.profile_table free,
    )

    Keeps-set_default_in_transaction :
        (b : ℕ) (k player : String) → Keeps P (set_default_in_transaction w b k player)
    unfolding set_default_in_transaction
    Keeps-set_default_in_transaction b k player =
        search (keeps_rules, Keeps-map_error, Keeps-changed)

    pub Keeps-set_default :
        (b : ℕ) (k player : String) → Keeps P (set_default_by_binding_and_player_id w b k player)
    unfolding set_default_by_binding_and_player_id
    Keeps-set_default b k player =
        Keeps-transaction view Q w ok_world (set_default_in_transaction w b k player)
          (Keeps-set_default_in_transaction b k player)

    pub Keeps-delete_missing :
        (b : ℕ) (kept : List ProfileIdentity) → Keeps P (delete_missing_by_binding_id w b kept)
    unfolding delete_missing_by_binding_id
    Keeps-delete_missing b [] = Keeps-removed _
    Keeps-delete_missing b (i ∷ rest) = Keeps-removed _

    pub Keeps-delete_profiles : (k : String) → Keeps P (delete_by_platform_account_id w k)
    unfolding delete_by_platform_account_id
    Keeps-delete_profiles k = Keeps-removed _
