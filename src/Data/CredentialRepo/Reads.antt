-- ===== src/Data/CredentialRepo/Reads.antt =====
-- The reads of a credential change nothing, and return what a row holds.
use platform_mihomo_service.Base.{
  ℕ, String, Bool, Option, none, some, ◌==◌, eq_iff, arith, ◌≡◌, refl, ap, ◌∙◌, eqb,
}
use platform_mihomo_service.Outcome.{Result, ok, err, pure, record_not_found}
use platform_mihomo_service.Outcome.Laws.{>>=_keeps, >>=-eq-ok}
use platform_mihomo_service.Biz.{Credential}
use platform_mihomo_service.Store.{CredentialRecord, World}
use platform_mihomo_service.Store.Laws.{View, Among, IsWorld}
use platform_mihomo_service.Data.Query.{or_none}
use platform_mihomo_service.Data.CredentialRepo.{
  credential_from_record, get_by_binding_id, get_by_platform_account_id,
}
use mathlib.Core.Option

module _ {S : Type 0} (view : S → View) (w : World S) (ok_world : IsWorld view w) where
  first_keeps :
      (q : CredentialRecord → Bool) (s : S) → view (w.credential_records.first q s).1 ≡ view s
  first_keeps q s = go (w.credential_records.first q s) refl
    where
      go :
          (x : Result CredentialRecord × S)
          → w.credential_records.first q s ≡ x
          → view (w.credential_records.first q s).1 ≡ view s
      go (ok r, t) e =
          let (_, _, same) = ok_world.credential_table.first_ok q s r t e in
          ap (λ x. view x.1) e ∙ same
      go (err x, t) e = ap (λ x. view x.1) e ∙ ok_world.credential_table.first_err q s x t e

  pub get_by_binding_id_keeps : (b : ℕ) (s : S) → view (get_by_binding_id w b s).1 ≡ view s
  unfolding get_by_binding_id
  get_by_binding_id_keeps b s =
      >>=_keeps view (or_none (w.credential_records.first (λ r. eqb r.binding_id b)))
        (λ row. pure (Option.map credential_from_record row))
        (first_keeps (λ r. eqb r.binding_id b)) (λ row u. refl) s

  -- A credential that a read by account key returns is a row of the database under a key of the same
  -- weight.
  pub get_by_platform_account_id-eq-some :
      (key : String) (c : Credential) (s u : S)
      → get_by_platform_account_id w key s ≡ (ok (some c), u)
      → (r : CredentialRecord) × Among r (view s).tables.credential_records
        × (w.collate r.platform_account_id ≡ w.collate key)
        × (credential_from_record r ≡ c)
        × (view u ≡ view s)
  unfolding get_by_platform_account_id
  get_by_platform_account_id-eq-some key c s u h = go (w.credential_records.first q s) refl (
      >>=-eq-ok (or_none (w.credential_records.first q))
        (λ row. pure (Option.map credential_from_record row)) s h)
    where
      q : CredentialRecord → Bool
      q r = w.collate r.platform_account_id == w.collate key

      go :
          (x : Result CredentialRecord × S)
          → w.credential_records.first q s ≡ x
          → ((row : Option CredentialRecord) × (t : S) × (or_none (w.credential_records.first q) s
                ≡ (ok row, t))
              × (pure (Option.map credential_from_record row) t ≡ (ok (some c), u)))
          → (r : CredentialRecord) × Among r (view s).tables.credential_records
            × (w.collate r.platform_account_id ≡ w.collate key)
            × (credential_from_record r ≡ c)
            × (view u ≡ view s)
      go (ok r, t) e (row, t1, read, done) =
          let (there, hit, same) = ok_world.credential_table.first_ok q s r t e in
          let found : row ≡ some r = cc in
          let end : u ≡ t = cc in
          let value : Path (Option Credential) (some (credential_from_record r)) (some c) = cc in
          (
            r,
            there,
            ground (arith, eq_iff (w.collate r.platform_account_id) (w.collate key)),
            cc,
            ap view end ∙ same,
          )
      go (err record_not_found, t) e (none, t1, read, done) = absurd cc
      go (err record_not_found, t) e (some r, t1, read, done) = absurd cc
      go (err x, t) e (row, t1, read, done) = absurd cc
