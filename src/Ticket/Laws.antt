-- ===== src/Ticket/Laws.antt =====
-- What a verified service ticket guarantees.
use platform_mihomo_service.Base.{
  ℕ, String, Bool, true, some, ◌≡◌, ◌≢◌, ◌⊎◌, refl, ◌≤◌, eq_iff, arith,
}
use platform_mihomo_service.Outcome.{Result, ok, err, M, guard, pure, ◌>>◌, external}
use platform_mihomo_service.Outcome.Laws.{>>=-eq-ok, guard-eq-ok}
use platform_mihomo_service.Biz.{ServiceTicketClaims}
use platform_mihomo_service.Ticket.{
  TicketClaims, Parser, TicketVerifier, key_of, check_version, check_consumer, check_claims,
  claims_of, verify_context,
}

-- The claims that every accepted ticket has, and those of a consumer's ticket.
abbrev pub HasClaims : TicketClaims → Type 0
HasClaims c =
    (c.actor_type ≢ "")
    × (c.actor_id ≢ "")
    × (c.owner_user_id ≢ 0)
    × (c.binding_id ≢ 0)
    × ((c.platform_account_ref_id ≡ 0) ⊎ (c.platform_account_ref_id ≡ c.binding_id))
    × (c.platform ≢ "")
    × ((c.actor_type ≢ "consumer") ⊎ ((c.consumer ≢ "") × (c.grant_version ≢ 0)))

module _ {S K : Type 0} (v : TicketVerifier S K) where
  check_claims-HasClaims :
      (c : TicketClaims) (s s' : S) → check_claims v c s ≡ (ok tt, s') → HasClaims c
  unfolding check_claims check_consumer
  check_claims-HasClaims c s s' h = ground (
    arith,
    eq_iff c.actor_type "",
    eq_iff c.actor_id "",
    eq_iff c.platform "",
    eq_iff c.actor_type "consumer",
    eq_iff c.consumer "",
  )

  -- The lowest version that is read, where one is configured, is at most the ticket's.
  pub check_claims-minimum :
      (c : TicketClaims) (minimum_version : ℕ → String → M S ℕ) (s s' : S)
      → v.minimum_version ≡ some minimum_version
      → c.actor_type ≡ "consumer"
      → check_claims v c s ≡ (ok tt, s')
      → (n : ℕ) × (u : S) × (minimum_version c.binding_id c.consumer s ≡ (ok n, u))
        × (n ≤ c.grant_version)
  unfolding check_claims check_consumer check_version
  check_claims-minimum c minimum_version s s' configured consumer h =
      go (minimum_version c.binding_id c.consumer s) refl
    where
      go :
          (x : Result ℕ × S)
          → minimum_version c.binding_id c.consumer s ≡ x
          → (n : ℕ) × (u : S) × (minimum_version c.binding_id c.consumer s ≡ (ok n, u))
            × (n ≤ c.grant_version)
      go (ok n, u) e = (n, u, e, ground (arith, eq_iff c.actor_type "consumer"))
      go (err x, u) e = absurd (ground (arith, eq_iff c.actor_type "consumer"))

  -- A ticket is accepted only if the parser accepts it for the audience, the issuer and this key
  -- function, its claims pass the checks, and the result is read from those claims.
  pub verify_context-eq-ok :
      (parse : Parser S K) (raw audience : String) (s s' : S) (r : ServiceTicketClaims)
      → verify_context v parse raw audience s ≡ (ok r, s')
      → (c : TicketClaims) × (u : S) × (parse raw (key_of v) audience v.issuer s
          ≡ (ok (c, true), u))
        × (check_claims v c u ≡ (ok tt, s'))
        × (r ≡ claims_of c audience)
  unfolding verify_context
  verify_context-eq-ok parse raw audience s s' r h =
      let ((c, valid), u, parsed, rest) =
        >>=-eq-ok (parse raw (key_of v) audience v.issuer)
          (λ (x : TicketClaims × Bool). do
            guard x.1 (external "invalid service ticket")
            check_claims v x.0
            pure (claims_of x.0 audience))
          s h in
      let (tt, u', g, rest') =
        >>=-eq-ok (guard valid (external "invalid service ticket"))
          (λ _. do check_claims v c; pure (claims_of c audience)) u rest in
      let (is_valid, same) = guard-eq-ok valid _ u g in
      let (tt, u'', checked, done) =
        >>=-eq-ok (check_claims v c) (λ _. pure (claims_of c audience)) u' rest' in
      (c, u, cc, cc, cc)

  -- An accepted ticket is one that the parser accepts for the audience, the issuer and the
  -- verifier's key function; its claims have all that a ticket needs, and the result is read from
  -- those claims.
  pub verify_context-HasClaims :
      (parse : Parser S K) (raw audience : String) (s s' : S) (r : ServiceTicketClaims)
      → verify_context v parse raw audience s ≡ (ok r, s')
      → (c : TicketClaims) × (u : S) × (parse raw (key_of v) audience v.issuer s
          ≡ (ok (c, true), u))
        × HasClaims c
        × (r ≡ claims_of c audience)
  verify_context-HasClaims parse raw audience s s' r h =
      let (c, u, parsed, checked, same) = verify_context-eq-ok parse raw audience s s' r h in
      (c, u, parsed, check_claims-HasClaims c u s' checked, same)

  check_claims_of_HasClaims :
      (c : TicketClaims) (minimum_version : ℕ → String → M S ℕ) (n : ℕ) (s u : S)
      → v.minimum_version ≡ some minimum_version
      → HasClaims c
      → minimum_version c.binding_id c.consumer s ≡ (ok n, u)
      → n ≤ c.grant_version
      → (check_claims v c s).0 ≡ ok tt
  unfolding check_claims check_consumer check_version
  check_claims_of_HasClaims c minimum_version n s u configured has read high = ground (
    arith,
    eq_iff c.actor_type "",
    eq_iff c.actor_id "",
    eq_iff c.platform "",
    eq_iff c.actor_type "consumer",
    eq_iff c.consumer "",
  )

  -- A ticket that the parser accepts, whose claims have all that a ticket needs and whose version
  -- is at least the one that is read, is accepted.
  pub verify_context_of_HasClaims :
      (parse : Parser S K) (raw audience : String) (s u t : S) (c : TicketClaims)
      (minimum_version : ℕ → String → M S ℕ) (n : ℕ)
      → parse raw (key_of v) audience v.issuer s ≡ (ok (c, true), u)
      → v.minimum_version ≡ some minimum_version
      → HasClaims c
      → minimum_version c.binding_id c.consumer u ≡ (ok n, t)
      → n ≤ c.grant_version
      → (verify_context v parse raw audience s).0 ≡ ok (claims_of c audience)
  unfolding verify_context
  verify_context_of_HasClaims parse raw audience s u t c minimum_version n parsed configured has
        read high =
      go (check_claims v c u) refl
        (check_claims_of_HasClaims c minimum_version n u t configured has read high)
    where
      go :
          (x : Result (Unit {0}) × S)
          → check_claims v c u ≡ x
          → x.0 ≡ ok tt
          → (verify_context v parse raw audience s).0 ≡ ok (claims_of c audience)
      go (ok tt, s') e passed = ground arith
      go (err x, s') e passed = cc
