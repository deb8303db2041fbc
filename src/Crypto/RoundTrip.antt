-- ===== src/Crypto/RoundTrip.antt =====
-- That DecryptString undoes EncryptString (internal/crypto/blob.go).
use platform_mihomo_service.Base.{
  ℕ, ◌+◌, String, false, [], ◌∷◌, ◌++◌, length, ltb, ◌≡◌, ◌∙◌, refl, ap, sym, arith,
}
use platform_mihomo_service.Outcome.{ok, M, lift, pure, ◌>>=◌}
use platform_mihomo_service.Outcome.Laws.{>>=_of_ok, >>=-eq-ok, lift-eq-ok}
use platform_mihomo_service.Crypto.{
  Bytes, take, drop, CryptoLibrary, encrypt_string, decrypt_string,
}

length-append : (a b : Bytes) → length (a ++ b) ≡ length a + length b
length-append [] b = omega arith
length-append (x ∷ a) b = let rest = length-append a b in omega arith

take-append : (a b : Bytes) → take (length a) (a ++ b) ≡ a
take-append [] b = refl
take-append (x ∷ a) b = ap (λ t. x ∷ t) (take-append a b)

drop-append : (a b : Bytes) → drop (length a) (a ++ b) ≡ b
drop-append [] b = refl
drop-append (x ∷ a) b = drop-append a b

module _ {S Block Gcm : Type 0} (library : CryptoLibrary S Block Gcm) where
  -- What the packages document: what was encoded is decoded, what was sealed under a nonce of the
  -- right length is opened, and as many random bytes are read as were asked for.
  pub record IsCryptoLibrary : Type 0 where
    pub decode-encode : (b : Bytes) → library.decode_string (library.encode_to_string b) ≡ ok b
    pub open-seal :
        (g : Gcm) (nonce b : Bytes)
        → length nonce ≡ library.nonce_size g
        → library.open_sealed g nonce (library.seal g nonce b) ≡ ok b
    pub length-read_random :
        (n : ℕ) (s u : S) (b : Bytes) → library.read_random n s ≡ (ok b, u) → length b ≡ n

module _ {S Block Gcm : Type 0} (library : CryptoLibrary S Block Gcm) (h : IsCryptoLibrary library)
    (key : Bytes) (block : Block) (gcm : Gcm) (has_block : library.new_cipher key ≡ ok block)
    (has_gcm : library.new_gcm block ≡ ok gcm) where
  decrypt_sealed :
      (nonce : Bytes) (t : String)
      → library.to_text (library.to_bytes t) ≡ t
      → length nonce ≡ library.nonce_size gcm
      → decrypt_string library key
          (library.encode_to_string (nonce ++ library.seal gcm nonce (library.to_bytes t)))
        ≡ ok t
  unfolding decrypt_string
  decrypt_sealed nonce t k e =
      let sealed = library.seal gcm nonce (library.to_bytes t) in
      let whole = length-append nonce sealed in
      let long : ltb (length (nonce ++ sealed)) (library.nonce_size gcm) ≡ false = ground arith in
      let front : take (library.nonce_size gcm) (nonce ++ sealed) ≡ nonce =
        ap (λ n. take n (nonce ++ sealed)) (sym e) ∙ take-append nonce sealed in
      let back : drop (library.nonce_size gcm) (nonce ++ sealed) ≡ sealed =
        ap (λ n. drop n (nonce ++ sealed)) (sym e) ∙ drop-append nonce sealed in
      rw
        (
          h.decode-encode (nonce ++ sealed),
          has_block,
          has_gcm,
          long,
          front,
          back,
          h.open-seal gcm nonce (library.to_bytes t) e,
          k,
        )
        refl

  -- Under a key that AES and GCM take, and given a random nonce, a text that its bytes determine is
  -- encrypted, and the result is decrypted to the text.
  pub decrypt_string-encrypt_string :
      (t : String) (s u : S) (nonce : Bytes)
      → library.to_text (library.to_bytes t) ≡ t
      → library.read_random (library.nonce_size gcm) s ≡ (ok nonce, u)
      → (encoded : String) × (encrypt_string library key t s ≡ (ok encoded, u))
        × (decrypt_string library key encoded ≡ ok t)
  unfolding encrypt_string
  decrypt_string-encrypt_string t s u nonce k read =
      let sealed : Bytes → String =
        λ n. library.encode_to_string (n ++ library.seal gcm n (library.to_bytes t)) in
      let draw : Gcm → M S String = λ g. library.read_random (library.nonce_size g) >>= λ n.
      pure (library.encode_to_string (n ++ library.seal g n (library.to_bytes t))) in
      (
        sealed nonce,
        >>=_of_ok (lift (library.new_cipher key)) (λ b. lift (library.new_gcm b) >>= draw) s
              (ap (λ r. (r, s)) has_block)
            ∙ >>=_of_ok (lift (library.new_gcm block)) draw s (ap (λ r. (r, s)) has_gcm)
            ∙ >>=_of_ok (library.read_random (library.nonce_size gcm)) (λ n. pure (sealed n)) s
                read,
        decrypt_sealed nonce t k (h.length-read_random (library.nonce_size gcm) s u nonce read),
      )

module _ {S Block Gcm : Type 0} (library : CryptoLibrary S Block Gcm) (h : IsCryptoLibrary library)
    (key : Bytes) where
  -- Whatever `EncryptString` gives is decrypted to the text.
  pub decrypt_string_of_encrypted :
      (t encoded : String) (s u : S)
      → library.to_text (library.to_bytes t) ≡ t
      → encrypt_string library key t s ≡ (ok encoded, u)
      → decrypt_string library key encoded ≡ ok t
  unfolding encrypt_string
  decrypt_string_of_encrypted t encoded s u k e =
      let draw : Gcm → M S String = λ g. library.read_random (library.nonce_size g) >>= λ n.
      pure (library.encode_to_string (n ++ library.seal g n (library.to_bytes t))) in
      let (block, s1, new_block, e1) =
        >>=-eq-ok (lift (library.new_cipher key)) (λ b. lift (library.new_gcm b) >>= draw) s e in
      let (gcm, s2, new_gcm, e2) = >>=-eq-ok (lift (library.new_gcm block)) draw s1 e1 in
      let (nonce, s3, read, e3) =
        >>=-eq-ok (library.read_random (library.nonce_size gcm))
          (λ n. pure (library.encode_to_string (n ++ library.seal gcm n (library.to_bytes t)))) s2
          e2 in
      let value : library.encode_to_string (nonce ++ library.seal gcm nonce (library.to_bytes t))
          ≡ encoded =
        cc in
      let has_block = (lift-eq-ok (library.new_cipher key) s new_block).0 in
      let has_gcm = (lift-eq-ok (library.new_gcm block) s1 new_gcm).0 in
      ap (decrypt_string library key) (sym value)
      ∙ decrypt_sealed library h key block gcm has_block has_gcm nonce t k
          (h.length-read_random (library.nonce_size gcm) s2 s3 nonce read)
