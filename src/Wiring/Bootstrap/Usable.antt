-- ===== src/Wiring/Bootstrap/Usable.antt =====
-- What a configuration that main accepts (cmd/platform-mihomo-service/main.go) leads to.
use Prim.Native.String.{len}
use platform_mihomo_service.Base.{
  ℕ, String, Bool, true, false, not, Option, none, some, List, [], ◌∷◌, eq_iff, ◌==◌, ◌≡◌, ◌≢◌, ◌↔◌,
  refl, ap, arith, length,
}
use Prim.Native.String.{◌++◌}
use platform_mihomo_service.Outcome.Laws.{lift-eq-ok}
use platform_mihomo_service.Outcome.{guard, lift, ◌>>◌, Error, Result, ok, err, external}
use platform_mihomo_service.Ticket.{
  Header, TicketVerifier, new_static_public_key_resolver, resolve, key_of, text_or_empty,
}
use platform_mihomo_service.Ticket.PublicKey.{
  PemLibrary, parse_ed25519_public_key_pem, parse_ed25519_public_key_pem-length, public_key_size,
}
use platform_mihomo_service.Wiring.Bootstrap.{
  Bootstrap, get_security, validate_bootstrap, new_static_key_ticket_verifier,
  new_ticket_verifier_from_security, is_empty,
}

-- The key function gives the key for exactly the headers of service tickets that name its id.
abbrev pub GivesKey : {S : Type 0} → TicketVerifier S (List ℕ) → String → List ℕ → Type 0
GivesKey {S} v kid key =
    (h : Header) (k : List ℕ) (s u : S)
    → (key_of v h s ≡ (ok k, u)) ↔ (
        (h.is_eddsa ≡ true)
        × (h.kid ≡ some kid)
        × (h.typ ≡ some "service_ticket")
        × (k ≡ key)
        × (u ≡ s))

validate_bootstrap-eq-ok :
    (library : PemLibrary) (bc : Bootstrap)
    → validate_bootstrap library bc ≡ ok tt
    → (key : List ℕ) × (parse_ed25519_public_key_pem library
          (get_security bc).service_ticket_public_key_pem
        ≡ ok key)
      × (len (get_security bc).credential_encryption_key ≡ 32)
      × ((get_security bc).service_ticket_key_id ≢ "")
unfolding validate_bootstrap
validate_bootstrap-eq-ok library bc h =
    go (parse_ed25519_public_key_pem library (get_security bc).service_ticket_public_key_pem) refl
  where
    go :
        (r : Result (List ℕ))
        → parse_ed25519_public_key_pem library (get_security bc).service_ticket_public_key_pem ≡ r
        → (key : List ℕ) × (parse_ed25519_public_key_pem library
              (get_security bc).service_ticket_public_key_pem
            ≡ ok key)
          × (len (get_security bc).credential_encryption_key ≡ 32)
          × ((get_security bc).service_ticket_key_id ≢ "")
    go (ok key) e = (
      key,
      e,
      ground (arith, eq_iff (get_security bc).service_ticket_key_id ""),
      ground (arith, eq_iff (get_security bc).service_ticket_key_id ""),
    )
    go (err x) e = absurd (ground (arith, e))

resolve_static_iff :
    (kid k : String) (key given : List ℕ)
    → kid ≢ ""
    → length key ≡ public_key_size
    → (resolve (new_static_public_key_resolver kid (is_empty key) key) k ≡ ok given)
      ↔ ((k ≡ kid) × (given ≡ key))
unfolding resolve new_static_public_key_resolver
resolve_static_iff kid k [] given h e = absurd (omega arith)
resolve_static_iff kid k (b ∷ bs) given h e =
    ground (arith, eq_iff kid "", eq_iff k "", eq_iff kid k)

text_or_empty_iff : (o : Option String) (t : String) → t ≢ "" → (text_or_empty o ≡ t) ↔ (o ≡ some t)
unfolding text_or_empty
text_or_empty_iff none t h = ground arith
text_or_empty_iff (some a) t h = ground arith

-- Three checks in front of a result succeed exactly where all pass.
guarded_lift_iff :
    {S A : Type 0} (a b c : Bool) (e f g : Error) (r : Result A) (s u : S) (k : A)
    → ((guard {S = S} a e >> (guard b f >> (guard c g >> lift r))) s ≡ (ok k, u))
      ↔ ((a ≡ true) × (b ≡ true) × (c ≡ true) × (r ≡ ok k) × (u ≡ s))
guarded_lift_iff {S = S} {A = A} a b c e f g r s u k =
    (inverted a b c, λ (x, y, z, v, w). given a b c x y z v w)
  where
    inverted :
        (a b c : Bool)
        → (guard {S = S} a e >> (guard b f >> (guard c g >> lift r))) s ≡ (ok k, u)
        → (a ≡ true) × (b ≡ true) × (c ≡ true) × (r ≡ ok k) × (u ≡ s)
    inverted true true true h = let (x, y) = lift-eq-ok r s h in (refl, refl, refl, x, y)
    inverted true true false h = absurd (cc h)
    inverted true false c h = absurd (cc h)
    inverted false b c h = absurd (cc h)

    given :
        (a b c : Bool)
        → a ≡ true
        → b ≡ true
        → c ≡ true
        → r ≡ ok k
        → u ≡ s
        → (guard {S = S} a e >> (guard b f >> (guard c g >> lift r))) s ≡ (ok k, u)
    given true true true x y z v w = cc (v, w)
    given false b c x y z v w = absurd (cc x)
    given true false c x y z v w = absurd (cc y)
    given true true false x y z v w = absurd (cc z)

module _ {S : Type 0} (library : PemLibrary) where
  new_static_key_ticket_verifier-GivesKey :
      (issuer kid : String) (key : List ℕ)
      → kid ≢ ""
      → length key ≡ public_key_size
      → GivesKey {S = S} (new_static_key_ticket_verifier issuer kid key) kid key
  unfolding new_static_key_ticket_verifier key_of
  new_static_key_ticket_verifier-GivesKey issuer kid key h e header k s u =
      let resolved =
        resolve (new_static_public_key_resolver kid (is_empty key) key)
          (text_or_empty header.kid) in
      let steps =
        guarded_lift_iff header.is_eddsa (not (text_or_empty header.kid == ""))
          (text_or_empty header.typ == "service_ticket")
          (external ("unexpected signing method: " ++ header.alg))
          (external "service ticket missing kid")
          (external "service ticket typ must be service_ticket") resolved s u k in
      let resolves = resolve_static_iff kid (text_or_empty header.kid) key k h e in
      let named = text_or_empty_iff header.kid kid h in
      let typed =
        text_or_empty_iff header.typ "service_ticket"
          (ground (arith, eq_iff "service_ticket" "")) in
      let type_test = eq_iff (text_or_empty header.typ) "service_ticket" in
      (
        λ r.
            let (a, b, c, d, f) = steps.0 r in
            let (i, j) = resolves.0 d in (a, named.0 i, typed.0 (type_test.0 c), j, f),
        λ (a, b, c, d, f).
            let kid_is = named.1 b in
            let present : (text_or_empty header.kid == "") ≡ false =
              ground (arith, eq_iff (text_or_empty header.kid) "") in
            steps.1 (a, ap not present, type_test.1 (typed.1 c), resolves.1 (kid_is, d), f),
      )

-- A configuration that main accepts has an encryption key of 32 bytes, and the verifier that main
-- builds of it checks tickets with the configured public key, an Ed25519 key, and accepts exactly
-- the configured key id.
pub validate_bootstrap-GivesKey :
    {S : Type 0} (library : PemLibrary) (bc : Bootstrap)
    → validate_bootstrap library bc ≡ ok tt
    → (len (get_security bc).credential_encryption_key ≡ 32)
      × (key : List ℕ) × (v : TicketVerifier S (List ℕ)) × (parse_ed25519_public_key_pem library
            (get_security bc).service_ticket_public_key_pem
          ≡ ok key)
      × (length key ≡ public_key_size)
      × (new_ticket_verifier_from_security library (get_security bc) ≡ ok v)
      × GivesKey v (get_security bc).service_ticket_key_id key
unfolding new_ticket_verifier_from_security
validate_bootstrap-GivesKey library bc h =
    let (key, parsed, size, named) = validate_bootstrap-eq-ok library bc h in
    let long =
      parse_ed25519_public_key_pem-length library (get_security bc).service_ticket_public_key_pem
        key parsed in
    let security = get_security bc in
    (
      size,
      key,
      new_static_key_ticket_verifier security.service_ticket_issuer security.service_ticket_key_id
          key,
      parsed,
      long,
      rw parsed refl,
      new_static_key_ticket_verifier-GivesKey library security.service_ticket_issuer
          security.service_ticket_key_id key named long,
    )
