-- ===== src/Ticket.antt =====
-- internal/data/ticket_verifier.go and the resolver of internal/data/jwks_verifier.go. The JWT
-- library is a parameter, the parser.
pub mod Laws
pub mod Revocation
pub mod Example
pub mod PublicKey
mod Tests
use platform_mihomo_service.Base.{
  ℕ, String, Bool, true, false, not, ◌&&◌, Option, none, some, List, [], ◌∷◌, eqb, ltb, ◌==◌,
  if◌then◌else◌,
}
use platform_mihomo_service.Outcome.{
  Result, ok, err, M, pure, fail, lift, guard, when, or_fail, ◌>>=◌, ◌>>◌, external, unknown_key,
  grant_version_revoked,
}
use platform_mihomo_service.Biz.{ServiceTicketClaims}
use Prim.Native.String.{◌++◌}

-- `serviceTicketJWTClaims`, less the registered claims, which the library checks, and the fields
-- `audience` and `typ`, which no code reads.
pub record TicketClaims : Type 0 where
  pub actor_type : String
  pub actor_id : String
  pub owner_user_id : ℕ
  pub binding_id : ℕ
  pub platform : String
  pub platform_account_id : String
  pub consumer : String
  pub grant_version : ℕ
  pub profile_id : ℕ
  pub scopes : List String
  pub allowed_actions : List String
  pub bot_id : String
  pub user_id : ℕ
  pub platform_service_key : String
  pub platform_account_ref_id : ℕ

-- The header of a token: its method, and the two fields that may be missing or no text.
pub record Header : Type 0 where
  pub is_eddsa : Bool
  pub alg : String
  pub kid : Option String
  pub typ : Option String

module _ {ℓ} {K : Type ℓ} where
  lookup : String → List (String × K) → Option K
  lookup kid [] = none
  lookup kid ((k, key) ∷ keys) = if k == kid then some key else lookup kid keys

module _ {K : Type 0} where
  -- `NewStaticPublicKeyResolver`, given whether the key is empty: the map of its keys.
  unfoldable pub new_static_public_key_resolver : String → Bool → K → List (String × K)
  new_static_public_key_resolver kid key_is_empty key =
      if not (kid == "") && not key_is_empty then (kid, key) ∷ [] else []

  -- `StaticPublicKeyResolver.Resolve`
  unfoldable pub resolve : List (String × K) → String → Result K
  unfolding lookup
  resolve keys kid =
      if kid == ""
      then err (unknown_key kid)
      else elim (lookup kid keys) [ none ↦ err (unknown_key kid) | some key ↦ ok key ]

-- `jwt.ParseWithClaims` with a key function, an audience and an issuer: the claims, and whether
-- the token is valid.
abbrev pub Parser : Type 0 → Type 0 → Type 0
Parser S K = String → (Header → M S K) → String → String → M S (TicketClaims × Bool)

pub record TicketVerifier (S K : Type 0) : Type 0 where
  pub issuer : String
  pub resolver : Option (String → M S K)
  pub minimum_version : Option (ℕ → String → M S ℕ)

unfoldable pub text_or_empty : Option String → String
text_or_empty none = ""
text_or_empty (some t) = t

-- `allowed_actions`, where a ticket has any, stands in for its scopes.
actions_of : TicketClaims → List String
actions_of c = elim c.allowed_actions [ [] ↦ c.scopes | a ∷ as' ↦ a ∷ as' ]

unfoldable pub claims_of : TicketClaims → String → ServiceTicketClaims
unfolding actions_of
claims_of c expected_audience = record {
  actor_type = c.actor_type;
  actor_id = c.actor_id;
  owner_user_id = c.owner_user_id;
  binding_id = c.binding_id;
  platform = c.platform;
  platform_account_id = c.platform_account_id;
  consumer = c.consumer;
  grant_version = c.grant_version;
  profile_id = c.profile_id;
  scopes = actions_of c;
  audience = expected_audience;
  bot_id = c.bot_id;
  user_id = if not (eqb c.user_id 0) then c.user_id else c.owner_user_id;
  platform_service_key = c.platform_service_key;
  platform_account_ref_id = c.binding_id;
}

module _ {S K : Type 0} (v : TicketVerifier S K) where
  -- The key function that the verifier hands to the parser.
  unfoldable pub key_of : Header → M S K
  unfolding text_or_empty
  key_of h = do
    guard h.is_eddsa (external ("unexpected signing method: " ++ h.alg))
    guard (not (text_or_empty h.kid == "")) (external "service ticket missing kid")
    guard (text_or_empty h.typ == "service_ticket")
        (external "service ticket typ must be service_ticket")
    elim v.resolver [
      | none ↦ fail (external "service ticket public key resolver is not configured")
      | some resolver ↦ resolver (text_or_empty h.kid)
    ]

  -- The test against the lowest version that the binding accepts from the consumer.
  unfoldable pub check_version : TicketClaims → M S (Unit {0})
  check_version c = elim v.minimum_version [
    | none ↦ pure tt
    | some minimum_version ↦ do
      minimum ← minimum_version c.binding_id c.consumer
      guard (not (ltb 0 minimum && ltb c.grant_version minimum)) grant_version_revoked
  ]

  -- The claims that only a consumer's ticket needs.
  unfoldable pub check_consumer : TicketClaims → M S (Unit {0})
  unfolding check_version
  check_consumer c = when (c.actor_type == "consumer") (do
    guard (not (c.consumer == "")) (external "service ticket missing consumer")
    guard (not (eqb c.grant_version 0)) (external "service ticket missing grant_version")
    check_version c)

  unfoldable pub check_claims : TicketClaims → M S (Unit {0})
  unfolding check_consumer
  check_claims c = do
    guard (not (c.actor_type == "")) (external "service ticket missing actor_type")
    guard (not (c.actor_id == "")) (external "service ticket missing actor_id")
    guard (not (eqb c.owner_user_id 0)) (external "service ticket missing owner_user_id")
    guard (not (eqb c.binding_id 0)) (external "service ticket missing binding_id")
    guard
        (not (
          not (eqb c.platform_account_ref_id 0)
          && not (eqb c.platform_account_ref_id c.binding_id)))
        (external "service ticket binding_id does not match platform_account_ref_id")
    guard (not (c.platform == "")) (external "service ticket missing platform")
    check_consumer c

  unfoldable pub verify_context : Parser S K → String → String → M S ServiceTicketClaims
  unfolding key_of check_claims claims_of
  verify_context parse raw expected_audience = do
    (c, valid) ← parse raw key_of expected_audience v.issuer
    guard valid (external "invalid service ticket")
    check_claims c
    pure (claims_of c expected_audience)

  -- `Verify`, for a background context.
  unfoldable pub verify : Parser S K → String → String → M S ServiceTicketClaims
  unfolding verify_context
  verify parse raw expected_audience = verify_context parse raw expected_audience
