-- ===== src/Crypto.antt =====
-- internal/crypto/blob.go: the encryption of credentials with the service's key.
mod Library
mod Encryption
mod Decryption
pub mod RoundTrip
pub mod Credentials
mod Tests
use platform_mihomo_service.Biz.Repositories.{Cipher}
pub use Library.{Bytes, take, drop, CryptoLibrary}
unfoldable pub use Encryption.{encrypt_string}
unfoldable pub use Decryption.{decrypt_string}

-- The two functions under one key, as the use cases call them.
abbrev pub blob_cipher : {S Block Gcm : Type 0} → CryptoLibrary S Block Gcm → Bytes → Cipher S
blob_cipher library key = record {
  encrypt_string = encrypt_string library key;
  decrypt_string = decrypt_string library key;
}
