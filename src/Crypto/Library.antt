-- ===== src/Crypto/Library.antt =====
-- What internal/crypto/blob.go uses of other packages: AES, GCM, base64 and random bytes.
use platform_mihomo_service.Base.{ℕ, zero, suc, String, List, [], ◌∷◌}
use platform_mihomo_service.Outcome.{Result, M}

abbrev pub Bytes : Type 0
Bytes = List ℕ

-- `data[:n]` and `data[n:]`
abbrev pub take : ℕ → Bytes → Bytes
take zero bs = []
take (suc n) [] = []
take (suc n) (b ∷ bs) = b ∷ take n bs

abbrev pub drop : ℕ → Bytes → Bytes
drop zero bs = bs
drop (suc n) [] = []
drop (suc n) (b ∷ bs) = drop n bs

-- `aes.NewCipher`, `cipher.NewGCM` and the methods `NonceSize`, `Seal` and `Open` of what it gives,
-- `base64.StdEncoding`, and `io.ReadFull(rand.Reader, make([]byte, n))`. The contents of a Go text
-- are bytes; the last two fields take the bytes of a text, and make a text of bytes.
pub record CryptoLibrary (S Block Gcm : Type 0) : Type 0 where
  pub new_cipher : Bytes → Result Block
  pub new_gcm : Block → Result Gcm
  pub nonce_size : Gcm → ℕ
  pub seal : Gcm → Bytes → Bytes → Bytes
  pub open_sealed : Gcm → Bytes → Bytes → Result Bytes
  pub encode_to_string : Bytes → String
  pub decode_string : String → Result Bytes
  pub read_random : ℕ → M S Bytes
  pub to_bytes : String → Bytes
  pub to_text : Bytes → String
