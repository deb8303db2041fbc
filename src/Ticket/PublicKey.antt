-- ===== src/Ticket/PublicKey.antt =====
-- ParseEd25519PublicKeyPEM of internal/data/jwks_verifier.go.
use platform_mihomo_service.Base.{ℕ, String, Option, none, some, List, length, eqb, ◌≡◌, arith}
use Prim.Native.String.{◌++◌}
use platform_mihomo_service.Biz.Repositories.{Reply, answer, failure}
use platform_mihomo_service.Outcome.{Result, ok, err, external}
use platform_mihomo_service.Outcome.Check.{guard, ◌>>=◌, ◌>>◌}

-- A public key of package x509, told apart by its type.
pub data ParsedKey : Type 0 where
  ed25519 : List ℕ → ParsedKey
  other_type : ParsedKey

-- `pem.Decode`, which gives the bytes of the first block, if there is one, and
-- `x509.ParsePKIXPublicKey`.
pub record PemLibrary : Type 0 where
  pub decode : String → Option (List ℕ)
  pub parse_pkix_public_key : List ℕ → Reply ParsedKey

abbrev block_required : Option (List ℕ) → Result (List ℕ)
block_required none = err (external "service ticket public key PEM is invalid")
block_required (some block) = ok block

abbrev parsed_or_fail : Reply ParsedKey → Result ParsedKey
parsed_or_fail (answer key) = ok key
parsed_or_fail (failure e) = err (external ("parse service ticket public key PEM: " ++ e))

abbrev ed25519_required : ParsedKey → Result (List ℕ)
ed25519_required (ed25519 key) = ok key
ed25519_required other_type =
    err (external "service ticket public key PEM must contain an Ed25519 public key")

abbrev pub public_key_size : ℕ
public_key_size = 32

-- The copy of the key is the key.
unfoldable pub parse_ed25519_public_key_pem : PemLibrary → String → Result (List ℕ)
parse_ed25519_public_key_pem library public_key_pem = do
  block ← block_required (library.decode public_key_pem)
  parsed ← parsed_or_fail (library.parse_pkix_public_key block)
  key ← ed25519_required parsed
  guard (eqb (length key) public_key_size)
      (external "service ticket public key PEM has invalid Ed25519 key size")
  ok key

-- A key that is accepted has the size of an Ed25519 key.
pub parse_ed25519_public_key_pem-length :
    (library : PemLibrary) (public_key_pem : String) (key : List ℕ)
    → parse_ed25519_public_key_pem library public_key_pem ≡ ok key
    → length key ≡ public_key_size
unfolding parse_ed25519_public_key_pem
parse_ed25519_public_key_pem-length library public_key_pem key h = ground arith
