-- ===== src/Crypto/Encryption.antt =====
-- EncryptString of internal/crypto/blob.go.
use platform_mihomo_service.Base.{String, ◌++◌}
use platform_mihomo_service.Outcome.{M, lift, pure, ◌>>=◌}
use platform_mihomo_service.Crypto.Library.{Bytes, CryptoLibrary}

module _ {S Block Gcm : Type 0} (library : CryptoLibrary S Block Gcm) (key : Bytes) where
  -- `Seal` appends to the nonce, so that the data begins with it.
  unfoldable pub encrypt_string : String → M S String
  encrypt_string plaintext = do
    block ← lift (library.new_cipher key)
    gcm ← lift (library.new_gcm block)
    nonce ← library.read_random (library.nonce_size gcm)
    pure (library.encode_to_string (nonce ++ library.seal gcm nonce (library.to_bytes plaintext)))
