-- ===== src/Crypto/Decryption.antt =====
-- DecryptString of internal/crypto/blob.go.
use platform_mihomo_service.Base.{String, not, length, ltb}
use platform_mihomo_service.Outcome.{Result, ok, external}
use platform_mihomo_service.Outcome.Check.{guard, ◌>>=◌, ◌>>◌}
use platform_mihomo_service.Crypto.Library.{Bytes, take, drop, CryptoLibrary}

module _ {S Block Gcm : Type 0} (library : CryptoLibrary S Block Gcm) (key : Bytes) where
  unfoldable pub decrypt_string : String → Result String
  decrypt_string encoded = do
    data_read ← library.decode_string encoded
    block ← library.new_cipher key
    gcm ← library.new_gcm block
    guard (not (ltb (length data_read) (library.nonce_size gcm))) (external "ciphertext too short")
    plaintext ←
        library.open_sealed gcm (take (library.nonce_size gcm) data_read)
          (drop (library.nonce_size gcm) data_read)
    ok (library.to_text plaintext)
