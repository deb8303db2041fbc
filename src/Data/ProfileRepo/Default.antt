-- ===== src/Data/ProfileRepo/Default.antt =====
-- The change of a binding's default profile, in one pass over the rows.
use platform_mihomo_service.Base.{
  ℕ, String, Bool, true, false, not, ◌&&◌, List, [], ◌∷◌, ◌≡◌, ◌⊎◌, refl, ap, ◌∙◌, map, any, eqb,
  ◌==◌, if◌then◌else◌, arith, subst,
}
use platform_mihomo_service.Outcome.{Result, ok, err, M, guard, ◌>>=◌, record_not_found}
use platform_mihomo_service.Outcome.Laws.{>>=-eq-ok, guard-eq-ok}
use platform_mihomo_service.Store.{AccountProfile, World}
use platform_mihomo_service.Store.Laws.{View, updated, IsWorld, Ended, stored_profile}
use platform_mihomo_service.Store.Transactions.{committed_lem}
use platform_mihomo_service.Data.ProfileRepo.{
  map_error, set_default_in_transaction, set_default_by_binding_and_player_id,
}

module _ (collate : String → String) where
  -- The rows of a binding that have the weights of an account key and a player.
  abbrev pub is_player : ℕ → String → String → AccountProfile → Bool
  is_player b key player r =
      eqb r.binding_id b && collate r.platform_account_id == key && collate r.player_id == player

  -- A row after the default of a binding became a player's.
  abbrev pub with_default : ℕ → String → String → AccountProfile → AccountProfile
  with_default b key player r =
      if eqb r.binding_id b
      then record r {
        is_default = collate r.platform_account_id == key && collate r.player_id == player;
      }
      else r

  abbrev cleared : ℕ → List AccountProfile → List AccountProfile
  cleared b rows =
      updated (λ r. eqb r.binding_id b && r.is_default) (λ r. record r { is_default = false }) rows

  one_pass_row :
      (b : ℕ) (key player : String) (r : AccountProfile)
      → updated (is_player b key player) (λ r. record r { is_default = true }) (cleared b (r ∷ []))
        ≡ with_default b key player r ∷ []
  one_pass_row b key player r = ground arith

  one_pass :
      (b : ℕ) (key player : String) (rows : List AccountProfile)
      → updated (is_player b key player) (λ r. record r { is_default = true }) (cleared b rows)
        ≡ map (with_default b key player) rows
  one_pass b key player [] = refl
  one_pass b key player (r ∷ rows) =
      ground (arith, one_pass b key player rows, one_pass_row b key player r)

  any-cleared :
      (b : ℕ) (key player : String) (rows : List AccountProfile)
      → any (is_player b key player) (cleared b rows) ≡ any (is_player b key player) rows
  any-cleared b key player [] = refl
  any-cleared b key player (r ∷ rows) = ground (arith, any-cleared b key player rows)

map_error-eq-ok :
    {S A : Type 0} (m : M S A) (s t : S) (a : A) → map_error m s ≡ (ok a, t) → m s ≡ (ok a, t)
unfolding map_error
map_error-eq-ok {S = S} {A = A} m s t a h = go (m s) refl
  where
    go : (x : Result A × S) → m s ≡ x → m s ≡ (ok a, t)
    go (ok b, u) e = ground arith
    go (err x, u) e = absurd (ground arith)

module _ {S : Type 0} (view : S → View) (w : World S) (ok_world : IsWorld view w) where
  abbrev pub profiles : S → List AccountProfile
  profiles s = (view s).tables.account_profiles

  updated_profiles :
      (q : AccountProfile → Bool) (f : AccountProfile → AccountProfile) (s u : S) (n : ℕ)
      → ((id : ℕ) (r : AccountProfile)
          → f (stored_profile w.datetime id r) ≡ stored_profile w.datetime id (f r))
      → w.account_profiles.update q f s ≡ (ok n, u)
      → (profiles u ≡ updated q f (profiles s)) × ((n ≡ 0) ⊎ (any q (profiles s) ≡ true))
  updated_profiles q f s u n timeless h =
      let (same, hit) = ok_world.profile_table.update_ok q f s n u timeless h in
      (ap (λ (v : View). v.tables.account_profiles) same, hit)

  default_in_transaction :
      (b : ℕ) (key player : String) (s s' : S)
      → set_default_in_transaction w b key player s ≡ (ok tt, s')
      → (profiles s'
          ≡ map (with_default w.collate b (w.collate key) (w.collate player)) (profiles s))
        × (any (is_player w.collate b (w.collate key) (w.collate player)) (profiles s) ≡ true)
  unfolding set_default_in_transaction
  default_in_transaction b key player s s' h =
      let rows = w.account_profiles in
      let set =
        rows.update (is_player w.collate b (w.collate key) (w.collate player))
          (λ r. record r { is_default = true }) in
      let rest = λ (n : ℕ). guard {S = S} (not (eqb n 0)) record_not_found in
      let (k, u, first, h') =
        >>=-eq-ok
          (rows.update (λ r. eqb r.binding_id b && r.is_default)
            (λ r. record r { is_default = false }))
          (λ _. map_error set >>= rest) s h in
      let (n, u', second, h'') = >>=-eq-ok (map_error set) rest u h' in
      let (found, same) = guard-eq-ok (not (eqb n 0)) record_not_found u' h'' in
      let (clear, _) = updated_profiles _ _ s u k (λ id r. refl) first in
      let (became, hit) =
        updated_profiles (is_player w.collate b (w.collate key) (w.collate player))
          (λ r. record r { is_default = true }) u u' n (λ id r. refl)
          (map_error-eq-ok set u u' n second) in
      let at_clear =
        subst
          (λ rs.
            profiles u'
            ≡ updated (is_player w.collate b (w.collate key) (w.collate player))
                (λ r. record r { is_default = true }) rs)
          clear became in
      let hit_clear =
        subst
          (λ rs.
            (n ≡ 0) ⊎ (any (is_player w.collate b (w.collate key) (w.collate player)) rs ≡ true))
          clear hit in
      let there = any-cleared w.collate b (w.collate key) (w.collate player) (profiles s) in
      (
        ap profiles same
            ∙ at_clear
            ∙ one_pass w.collate b (w.collate key) (w.collate player) (profiles s),
        ground arith,
      )

  -- After the default of a binding is set to a player, in every row of the binding the mark says
  -- whether the row's account key and player have the weights of those given, no other column and no
  -- other row is changed, and there is such a row.
  pub set_default-with_default :
      (b : ℕ) (key player : String) (s s' : S)
      → set_default_by_binding_and_player_id w b key player s ≡ (ok tt, s')
      → (profiles s'
          ≡ map (with_default w.collate b (w.collate key) (w.collate player)) (profiles s))
        × (any (is_player w.collate b (w.collate key) (w.collate player)) (profiles s) ≡ true)
  unfolding set_default_by_binding_and_player_id
  set_default-with_default b key player s s' h =
      let body = set_default_in_transaction w b key player s in
      let ended =
        subst (Ended view s body) h
          (ok_world.transaction_ends (Unit {0}) (set_default_in_transaction w b key player) s) in
      let (u, done, same) = committed_lem view s s' body tt ended in
      let (all, there) = default_in_transaction b key player s u done in
      (ap (λ (v : View). v.tables.account_profiles) same ∙ all, there)
