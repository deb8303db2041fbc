-- ===== src/Crypto/Tests.antt =====
-- Encryption with a library that hides nothing, but checks keys and what it opens.
use Prim.Native.String.{[], ◌∷◌}
use platform_mihomo_service.Base.{
  ℕ, zero, suc, ◌+◌, String, List, ◌≡◌, ◌∙◌, ap, sym, refl, if◌then◌else◌, eqb, length, code, arith,
}
use platform_mihomo_service.Outcome.{Result, ok, err, external}
use platform_mihomo_service.Base.Text.{codes, to_char}
use platform_mihomo_service.Crypto.{Bytes, CryptoLibrary, encrypt_string, decrypt_string}
use platform_mihomo_service.Base.Int.{pos}
use platform_mihomo_service.Biz.Repositories.{Ports}
use platform_mihomo_service.Store.Laws.{View}
use platform_mihomo_service.Store.Memory.{memory, empty_view}
use platform_mihomo_service.Usecase.BindUsecase.{
  BindCredentialInput, BindCredentialPreparation, prepare_bind_credential, bound_credential,
}
use platform_mihomo_service.Wiring.{ports}
use platform_mihomo_service.Crypto.Credentials.{with_key, bound_credential-decrypt_string}
use platform_mihomo_service.Crypto.RoundTrip.{IsCryptoLibrary, decrypt_string-encrypt_string}

-- A byte as so many marks, and an end.
unary : ℕ → String → String
unary zero rest = ";" ∷ rest
unary (suc n) rest = "a" ∷ unary n rest

encoded : Bytes → String
unfolding unary
encoded List.[] = []
encoded (List.◌∷◌ b bs) = unary b (encoded bs)

decoded : ℕ → String → Bytes
decoded n [] = List.[]
decoded n (c ∷ s) = if eqb (code c) b';' then List.◌∷◌ n (decoded 0 s) else decoded (suc n) s

decoded-unary :
    (b n : ℕ) (rest : String) → decoded n (unary b rest) ≡ List.◌∷◌ (n + b) (decoded 0 rest)
unfolding decoded unary
decoded-unary zero n rest = ap (λ m. List.◌∷◌ m (decoded 0 rest)) (omega arith)
decoded-unary (suc b) n rest =
    decoded-unary b (suc n) rest ∙ ap (λ m. List.◌∷◌ m (decoded 0 rest)) (omega arith)

decoded-encoded : (bs : Bytes) → decoded 0 (encoded bs) ≡ bs
unfolding encoded decoded
decoded-encoded List.[] = refl
decoded-encoded (List.◌∷◌ b bs) =
    let whole : 0 + b ≡ b = omega arith in
    decoded-unary b 0 (encoded bs)
    ∙ ap (λ n. List.◌∷◌ n (decoded 0 (encoded bs))) whole
    ∙ ap (λ t. List.◌∷◌ b t) (decoded-encoded bs)

-- The data behind a tag.
opened : Bytes → Result Bytes
opened List.[] = err (external "cipher: message authentication failed")
opened (List.◌∷◌ tag bs) =
    if eqb tag 99 then ok bs else err (external "cipher: message authentication failed")

ascii_text : Bytes → String
ascii_text List.[] = []
ascii_text (List.◌∷◌ b bs) = to_char b ∷ ascii_text bs

abbrev zeros : ℕ → Bytes
zeros zero = List.[]
zeros (suc n) = List.◌∷◌ 0 (zeros n)

abbrev plain_library : {S : Type 0} → CryptoLibrary S Bytes Bytes
unfolding encoded decoded opened ascii_text
plain_library = record {
  new_cipher =
      λ key. if eqb (length key) 32 then ok key else err (external "crypto/aes: invalid key size");
  new_gcm = λ block. ok block;
  nonce_size = λ g. 12;
  seal = λ g nonce b. List.◌∷◌ 99 b;
  open_sealed = λ g nonce b. opened b;
  encode_to_string = encoded;
  decode_string = λ s. ok (decoded 0 s);
  read_random = λ n s. (ok (zeros n), s);
  to_bytes = codes;
  to_text = ascii_text;
}

length_of_zeros : (n : ℕ) → length (zeros n) ≡ n
length_of_zeros zero = refl
length_of_zeros (suc n) = let rest = length_of_zeros n in omega arith

length-zeros :
    {S : Type 0} (n : ℕ) (s u : S) (b : Bytes)
    → Path (Result Bytes × S) (ok (zeros n), s) (ok b, u)
    → length b ≡ n
length-zeros n s u b e = let same : zeros n ≡ b = cc in ap length (sym same) ∙ length_of_zeros n

plain_library-IsCryptoLibrary : {S : Type 0} → IsCryptoLibrary (plain_library {S = S})
unfolding plain_library
plain_library-IsCryptoLibrary = record {
  decode-encode = λ b. ap (λ t. ok t) (decoded-encoded b);
  open-seal = λ g nonce b h. refl;
  length-read_random = λ n s u b e. length-zeros n s u b e;
}

decrypt_string-encrypt_string_example :
    (blob : String) × (encrypt_string (plain_library {S = ℕ}) (zeros 32) "cookie" 5 ≡ (ok blob, 5))
    × (decrypt_string (plain_library {S = ℕ}) (zeros 32) blob ≡ ok "cookie")
unfolding plain_library
decrypt_string-encrypt_string_example =
    decrypt_string-encrypt_string (plain_library {S = ℕ}) plain_library-IsCryptoLibrary (zeros 32)
      (zeros 32) (zeros 32) refl refl "cookie" 5 5 (zeros 12) refl refl

abbrev input : BindCredentialInput
input = record {
  binding_id = 7;
  cookie_bundle_json = "{}";
  device_id = "d-1";
  device_fp = "fp";
  device_name = "";
  region_hint = "cn_gf01";
}

abbrev key_ports : Ports View
key_ports = with_key plain_library (zeros 32) (ports memory)

abbrev prepared_call : Result BindCredentialPreparation × View
prepared_call = prepare_bind_credential key_ports input empty_view

abbrev prepared_or_empty : Result BindCredentialPreparation → BindCredentialPreparation
prepared_or_empty (ok prepared) = prepared
prepared_or_empty (err e) = record {
  platform_account_id = "";
  account_id = "";
  region = "";
  discovered_profiles = List.[];
  encrypted_blob = "";
}

abbrev prepared : BindCredentialPreparation
prepared = prepared_or_empty prepared_call.0

prepared_lem : prepare_bind_credential key_ports input empty_view ≡ (ok prepared, empty_view)
unfolding prepare_bind_credential plain_library ports encrypt_string
prepared_lem = refl

bound_credential-decrypt_string_example :
    decrypt_string
      (plain_library {S = View})
      (zeros 32)
      (bound_credential input prepared (pos 100)).credential_blob
    ≡ ok "{}"
unfolding plain_library
bound_credential-decrypt_string_example =
    bound_credential-decrypt_string plain_library (zeros 32) (ports memory)
      plain_library-IsCryptoLibrary input empty_view empty_view prepared (pos 100) refl prepared_lem
