-- ===== src/Data/ProfileRepo.antt =====
-- internal/data/profile_repo.go
pub mod Default
pub mod Keeps
use platform_mihomo_service.Base.{
  ℕ, zero, String, Bool, true, false, not, ◌&&◌, ◌||◌, Option, none, some, List, [], ◌∷◌, map, eqb,
  ltb, any, ◌==◌, if◌then◌else◌,
}
use platform_mihomo_service.Base.Text.{contains}
use platform_mihomo_service.Outcome.{
  Error, Result, ok, err, M, pure, fail, guard, ◌>>=◌, ◌>>◌, external, record_not_found,
  default_profile_already_exists,
}
use platform_mihomo_service.Biz.{Profile, ProfileIdentity}
use platform_mihomo_service.Biz.Repositories.{ProfileRepository}
use platform_mihomo_service.Store.{AccountProfile, World}
use platform_mihomo_service.Data.Query.{or_none}
use Prim.Native.String.{◌++◌}

unfoldable pub record_from_profile : Profile → AccountProfile
record_from_profile p = record {
  id = 0;
  binding_id = p.binding_id;
  platform_account_id = p.platform_account_id;
  game_biz = p.game_biz;
  region = p.region;
  player_id = p.player_id;
  nickname = p.nickname;
  level = p.level;
  is_default = p.is_default;
  discovered_at = p.discovered_at;
}

unfoldable pub profile_from_record : AccountProfile → Profile
profile_from_record r = record {
  id = r.id;
  binding_id = r.binding_id;
  platform_account_id = r.platform_account_id;
  game_biz = r.game_biz;
  region = r.region;
  player_id = r.player_id;
  nickname = r.nickname;
  level = r.level;
  is_default = r.is_default;
  discovered_at = r.discovered_at;
}

-- The columns of the conflict, and those that it updates.
abbrev pub same_profile : (String → String) → AccountProfile → AccountProfile → Bool
same_profile collate new old =
    eqb new.binding_id old.binding_id
    && collate new.player_id == collate old.player_id
    && collate new.region == collate old.region

abbrev pub update_profile : AccountProfile → AccountProfile → AccountProfile
update_profile new old = record old {
  platform_account_id = new.platform_account_id;
  game_biz = new.game_biz;
  nickname = new.nickname;
  level = new.level;
  is_default = new.is_default;
}

-- The columns that an existing row takes from a profile that becomes the default.
abbrev pub make_default : Profile → AccountProfile → AccountProfile
make_default p old = record old {
  platform_account_id = p.platform_account_id;
  game_biz = p.game_biz;
  nickname = p.nickname;
  level = p.level;
  is_default = true;
}

abbrev pub is_profile : (String → String) → Profile → AccountProfile → Bool
is_profile collate p r =
    eqb r.binding_id p.binding_id
    && collate r.player_id == collate p.player_id
    && collate r.region == collate p.region

-- The text of a duplicate key error names the index, also as a `MySQLError` prints it.
unfoldable pub map_default_profile_duplicate_error : Error → Error
unfolding contains
map_default_profile_duplicate_error (external message) =
    if contains message "default_profile_marker"
      || contains message "uniq_default_profile_per_binding"
    then default_profile_already_exists
    else external message
map_default_profile_duplicate_error e = e

map_error : {S A : Type 0} → M S A → M S A
unfolding map_default_profile_duplicate_error
map_error m s =
    let (r, s') = m s in
    elim r [ ok a ↦ (ok a, s') | err e ↦ (err (map_default_profile_duplicate_error e), s') ]

abbrev existing_id : Option AccountProfile → ℕ
existing_id none = 0
existing_id (some r) = r.id

module _ {S : Type 0} (w : World S) where
  ensure_no_conflicting_default_profile : Profile → ℕ → M S (Unit {0})
  ensure_no_conflicting_default_profile p exclude_id = do
    found ← w.account_profiles.count (λ r.
        eqb r.binding_id p.binding_id
        && r.is_default
        && not (is_profile w.collate p r)
        && (eqb exclude_id 0 || not (eqb r.id exclude_id)))
    guard (eqb found 0) default_profile_already_exists

  save_default_profile : Profile → AccountProfile → M S (Unit {0})
  unfolding ensure_no_conflicting_default_profile map_error
  save_default_profile p row = do
    existing ← or_none (w.account_profiles.first (is_profile w.collate p))
    if not (eqb (existing_id existing) 0)
        then (do
          ensure_no_conflicting_default_profile p (existing_id existing)
          map_error
              (w.account_profiles.update (λ r. eqb r.id (existing_id existing)) (make_default p))
          pure tt)
        else (do
          ensure_no_conflicting_default_profile p 0
          map_error (w.account_profiles.create row))

  unfoldable pub save : Profile → M S (Unit {0})
  unfolding save_default_profile record_from_profile
  save p =
      if p.is_default
      then save_default_profile p (record_from_profile p)
      else w.account_profiles.create_on_conflict (same_profile w.collate) update_profile
          (record_from_profile p)

  -- The body of the transaction: the binding's defaults are cleared, then the player's set.
  unfoldable pub set_default_in_transaction : ℕ → String → String → M S (Unit {0})
  unfolding map_error
  set_default_in_transaction binding_id key player_id = do
    w.account_profiles.update (λ r. eqb r.binding_id binding_id && r.is_default)
        (λ r. record r { is_default = false })
    affected ← map_error (
        w.account_profiles.update
          (λ r.
            eqb r.binding_id binding_id
            && w.collate r.platform_account_id == w.collate key
            && w.collate r.player_id == w.collate player_id)
          (λ r. record r { is_default = true }))
    guard (not (eqb affected 0)) record_not_found

  unfoldable pub set_default_by_binding_and_player_id : ℕ → String → String → M S (Unit {0})
  unfolding set_default_in_transaction
  set_default_by_binding_and_player_id binding_id key player_id =
      w.transaction (Unit {0}) (set_default_in_transaction binding_id key player_id)

  unfoldable pub list_by_binding_id : ℕ → M S (List Profile)
  unfolding profile_from_record
  list_by_binding_id binding_id = do
    records ← w.account_profiles.find (λ r. eqb r.binding_id binding_id)
    pure (map profile_from_record records)

  unfoldable pub list_by_platform_account_id : String → M S (List Profile)
  unfolding profile_from_record
  list_by_platform_account_id key = do
    records ← w.account_profiles.find (λ r. w.collate r.platform_account_id == w.collate key)
    pure (map profile_from_record records)

  unfoldable pub delete_by_platform_account_id : String → M S (Unit {0})
  delete_by_platform_account_id key =
      w.account_profiles.delete (λ r. w.collate r.platform_account_id == w.collate key)

  -- The clause `NOT ((player_id = ? AND region = ?) OR …)`; with no identity it is left out.
  unfoldable pub delete_missing_by_binding_id : ℕ → List ProfileIdentity → M S (Unit {0})
  delete_missing_by_binding_id binding_id [] =
      w.account_profiles.delete (λ r. eqb r.binding_id binding_id)
  delete_missing_by_binding_id binding_id (i ∷ rest) = w.account_profiles.delete (λ r.
      eqb r.binding_id binding_id
      && not (
          any
            (λ k.
              w.collate r.player_id == w.collate k.player_id
              && w.collate r.region == w.collate k.region)
            (i ∷ rest)))

  delete_unless_kept : List String → List AccountProfile → M S (Unit {0})
  delete_unless_kept keep_set [] = pure tt
  delete_unless_kept keep_set (r ∷ records) = do
    if any (λ k. k == r.player_id ++ (":" ++ r.region)) keep_set
        then pure tt
        else w.account_profiles.delete (λ row. eqb row.id r.id)
    delete_unless_kept keep_set records

  unfoldable pub delete_missing_by_platform_account_id :
      String → List ProfileIdentity → M S (Unit {0})
  unfolding delete_unless_kept
  delete_missing_by_platform_account_id key kept = do
    records ← w.account_profiles.find (λ r. w.collate r.platform_account_id == w.collate key)
    delete_unless_kept (map (λ (i : ProfileIdentity). i.player_id ++ (":" ++ i.region)) kept)
        records

  unfoldable pub profile_repo : ProfileRepository S
  unfolding save set_default_by_binding_and_player_id list_by_binding_id list_by_platform_account_id
      delete_missing_by_binding_id delete_by_platform_account_id
      delete_missing_by_platform_account_id
  profile_repo = record {
    save = save;
    set_default_by_binding_and_player_id = set_default_by_binding_and_player_id;
    list_by_binding_id = list_by_binding_id;
    list_by_platform_account_id = list_by_platform_account_id;
    delete_missing_by_binding_id = delete_missing_by_binding_id;
    delete_by_platform_account_id = delete_by_platform_account_id;
    delete_missing_by_platform_account_id = delete_missing_by_platform_account_id;
  }
