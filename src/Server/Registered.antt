-- ===== src/Server/Registered.antt =====
-- How often NewGRPCServer of internal/server/grpc.go registers each service.
use platform_mihomo_service.Base.{
  ℕ, suc, ◌+◌, ◌≤◌, String, true, false, Option, none, some, List, [], ◌∷◌, ◌++◌, any, ◌==◌, eq_iff,
  eq_refl, if◌then◌else◌, ◌≡◌, ◌≢◌, ◌∙◌, refl, ap, sym, arith, Bool-cases, inl, inr,
}
use platform_mihomo_service.Server.{
  ServiceNames, Registrar, register, has_service, register_health_server, new_grpc_server,
  register_if,
}

-- How often a name stands in a list.
abbrev pub count : String → List String → ℕ
count name [] = 0
count name (s ∷ ss) = if s == name then suc (count name ss) else count name ss

-- 1 for a service that is there.
abbrev pub once : {A : Type 0} → Option A → ℕ
once none = 0
once (some svc) = 1

-- The names of the four services differ.
abbrev pub Distinct : ServiceNames → Type 0
Distinct n =
    (n.health ≢ n.account)
    × (n.health ≢ n.credential)
    × (n.health ≢ n.platform)
    × (n.account ≢ n.credential)
    × (n.account ≢ n.platform)
    × (n.credential ≢ n.platform)

count-append :
    (name s : String) (ss : List String)
    → count name (ss ++ (s ∷ [])) ≡ count name ss + count name (s ∷ [])
count-append name s [] = omega arith
count-append name s (t ∷ ss) = ground (arith, count-append name s ss)

count_of_absent :
    (name : String) (ss : List String) → any (λ s. s == name) ss ≡ false → count name ss ≡ 0
count_of_absent name [] h = refl
count_of_absent name (s ∷ ss) h = ground (arith, count_of_absent name ss)

count_of_present :
    (name : String) (ss : List String) → any (λ s. s == name) ss ≡ true → 1 ≤ count name ss
count_of_present name [] h = absurd (cc h)
count_of_present name (s ∷ ss) h = ground (arith, count_of_present name ss)

count-register :
    (name other : String) (r : Registrar)
    → count name (register other r).services
      ≡ count name r.services + (if other == name then 1 else 0)
count-register name other r = count-append name other r.services

count-register_if :
    {A : Type 0} (svc : Option A) (name other : String) (r : Registrar)
    → count name (register_if svc other r).services
      ≡ count name r.services + (if other == name then once svc else 0)
count-register_if none name other r = elim (Bool-cases (other == name)) [
  | inl e ↦ rw e (omega arith)
  | inr e ↦ rw e (omega arith)
]
count-register_if (some svc) name other r = count-register name other r

-- A provider has the health service once afterwards, if it had it at most once; other services
-- stay as they were.
count-register_health_server :
    (names : ServiceNames) (name : String) (r : Registrar)
    → r.provides_info ≡ true
    → count names.health r.services ≤ 1
    → count name (register_health_server names r).services
      ≡ (if names.health == name then 1 else count name r.services)
unfolding register_health_server
count-register_health_server names name r h k = elim (Bool-cases (has_service names.health r)) [
  | inl present ↦
      let some_there = count_of_present names.health r.services present in
      rw (h, present, register_health_server)
        (elim (Bool-cases (names.health == name)) [
          | inl e ↦
              let same : names.health ≡ name = (eq_iff names.health name).0 e in
              let there : count names.health r.services ≡ 1 = omega arith in
              rw e (ap (λ n. count n r.services) (sym same) ∙ there)
          | inr e ↦ rw e refl
        ])
  | inr absent ↦
      let none_there = count_of_absent names.health r.services absent in
      rw (h, absent, register_health_server)
        (count-register name names.health r ∙ elim (Bool-cases (names.health == name)) [
          | inl e ↦
              let same : names.health ≡ name = (eq_iff names.health name).0 e in
              let none_of_it : count name r.services ≡ 0 =
                ap (λ n. count n r.services) (sym same) ∙ none_there in
              rw e (omega arith)
          | inr e ↦ rw e (omega arith)
        ])
]

differ : (s t : String) → s ≢ t → ((s == t) ≡ false) × ((t == s) ≡ false)
differ s t h = ground (arith, eq_iff s t, eq_iff t s)

module _ {A B C : Type 0} where
  -- What `NewGRPCServer` leaves of a name.
  count-new_grpc_server :
      (names : ServiceNames) (name : String) (server : Registrar) (a : Option A) (b : Option B)
      (c : Option C)
      → count name (new_grpc_server names server a b c).services
        ≡ count name (register_health_server names server).services
          + (if names.account == name then once a else 0)
          + (if names.credential == name then once b else 0)
          + (if names.platform == name then once c else 0)
  unfolding new_grpc_server
  count-new_grpc_server names name server a b c =
      let r1 = register_health_server names server in
      let r2 = register_if a names.account r1 in
      let r3 = register_if b names.credential r2 in
      let e1 = count-register_if a name names.account r1 in
      let e2 = count-register_if b name names.credential r2 in
      let e3 = count-register_if c name names.platform r3 in omega arith

  -- On a framework server that tells its services, and that has none of the three and the health
  -- service at most once, the health service is registered once afterwards, and each of the three
  -- once where it is not nil.
  pub new_grpc_server-count :
      (names : ServiceNames) (server : Registrar) (a : Option A) (b : Option B) (c : Option C)
      → Distinct names
      → server.provides_info ≡ true
      → count names.health server.services ≤ 1
      → count names.account server.services ≡ 0
      → count names.credential server.services ≡ 0
      → count names.platform server.services ≡ 0
      → (count names.health (new_grpc_server names server a b c).services ≡ 1)
        × (count names.account (new_grpc_server names server a b c).services ≡ once a)
        × (count names.credential (new_grpc_server names server a b c).services ≡ once b)
        × (count names.platform (new_grpc_server names server a b c).services ≡ once c)
  new_grpc_server-count names server a b c (ha, hc, hp, ac, ap', cp) info health na nc np = (
    count-new_grpc_server names names.health server a b c
        ∙ rw
            (
              count-register_health_server names names.health server info health,
              eq_refl names.health,
              (differ names.health names.account ha).1,
              (differ names.health names.credential hc).1,
              (differ names.health names.platform hp).1,
            )
            (omega arith),
    count-new_grpc_server names names.account server a b c
        ∙ rw
            (
              count-register_health_server names names.account server info health,
              (differ names.health names.account ha).0,
              eq_refl names.account,
              (differ names.account names.credential ac).1,
              (differ names.account names.platform ap').1,
              na,
            )
            (omega arith),
    count-new_grpc_server names names.credential server a b c
        ∙ rw
            (
              count-register_health_server names names.credential server info health,
              (differ names.health names.credential hc).0,
              (differ names.account names.credential ac).0,
              eq_refl names.credential,
              (differ names.credential names.platform cp).1,
              nc,
            )
            (omega arith),
    count-new_grpc_server names names.platform server a b c
        ∙ rw
            (
              count-register_health_server names names.platform server info health,
              (differ names.health names.platform hp).0,
              (differ names.account names.platform ap').0,
              (differ names.credential names.platform cp).0,
              eq_refl names.platform,
              np,
            )
            (omega arith),
  )
