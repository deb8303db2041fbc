-- ===== src/Wiring/Requests.antt =====
-- Sequences of requests to the services that main wires: what they keep of the invalidations, and
-- what reading requests keep of the tables.
mod Tests
use platform_mihomo_service.Base.{
  ℕ, String, Bool, Option, some, List, ◌≡◌, ◌≤◌, refl, sym, ap, subst,
}
use platform_mihomo_service.Outcome.{Result, ok, err, M}
use platform_mihomo_service.Outcome.Keeps.{Keeps}
use platform_mihomo_service.Biz.{ServiceTicketClaims}
use platform_mihomo_service.Store.{World}
use platform_mihomo_service.Store.Laws.{Tables, View, IsWorld}
use platform_mihomo_service.Store.Keeps.{On, Keeps_of_same}
use platform_mihomo_service.Data.Keeps.{IsOfGrants}
use platform_mihomo_service.Data.GrantInvalidationRepo.{minimum_version, upsert}
use platform_mihomo_service.Data.GrantInvalidationRepo.Demands.{Demands}
use platform_mihomo_service.Data.GrantInvalidationRepo.Minimum.{upsert_keeps_Demands}
use platform_mihomo_service.Ticket.{Parser, TicketVerifier, key_of, verify_context}
use platform_mihomo_service.Ticket.Revocation.{verify_context_keeps}
use platform_mihomo_service.Service.Mapper.{service_ticket_audience, verify_service_ticket}
use platform_mihomo_service.Service.Keeps.{ServiceKeeps, Keeps-with_error}
use platform_mihomo_service.Service.PlatformService.{
  GenericCredentialPayload, InvalidateConsumerGrantRequest, invalidate_consumer_grant,
}
use platform_mihomo_service.Service.Description.{Entries}
use platform_mihomo_service.Service.Requests.{Request, handle, serve}
use platform_mihomo_service.Service.Requests.Keeps.{IsRead, Keeps-reading, serve_keeps}
use platform_mihomo_service.Wiring.{service, generic_service}
use platform_mihomo_service.Wiring.Keeps.{reads_keep, ports_keep}
use platform_mihomo_service.Wiring.Invalidation.{invalidate_consumer_grant-Demands, Demands-verify}

module _ {S K Struct : Type 0} (view : S → View) (w : World S) (ok_world : IsWorld view w)
    (parse : Parser S K) (v : TicketVerifier S K)
    (configured : v.minimum_version ≡ some (minimum_version w))
    (keeps : (raw audience : String) (s : S)
      → view (parse raw (key_of v) audience v.issuer s).1 ≡ view s)
    (decode : String → Result GenericCredentialPayload) (new_struct : Entries → Result Struct) where
  Keeps-ticket :
      (Q : Tables → Type 0) (raw : String)
      → Keeps (On view Q) (verify_service_ticket (service w parse v) raw)
  unfolding verify_service_ticket
  Keeps-ticket Q raw = Keeps-with_error _ _ (
      Keeps_of_same view Q (verify_context v parse raw service_ticket_audience) (λ s.
        ap (λ (x : View). x.tables)
          (verify_context_keeps view w ok_world v parse configured keeps raw service_ticket_audience
            s)))

  -- A request that only reads leaves the tables as they are, whether it succeeds or fails.
  pub handle-reading :
      (r : Request)
      → IsRead r
      → (s : S)
      → (view (handle (generic_service w parse decode v) new_struct r s).1).tables ≡ (view s).tables
  handle-reading r reading s =
      let Q : Tables → Type 0 = λ t. t ≡ (view s).tables in
      (Keeps-reading (generic_service w parse decode v) new_struct (reads_keep view Q w ok_world)
          (Keeps-ticket Q) r reading).at
        s refl

  module _ (b : ℕ) (c : String) (minimum : ℕ) where
    abbrev Demanded : Tables → Type 0
    Demanded t = Demands w.collate b (w.collate c) minimum t.consumer_grant_invalidations

    Demanded-IsOfGrants : IsOfGrants Demanded
    Demanded-IsOfGrants = record {
      credentials = λ t rows h. h;
      devices = λ t rows h. h;
      profiles = λ t rows h. h;
      artifacts = λ t rows h. h;
    }

    Keeps-stored :
        (u : ℕ → String → ℕ → M S (Unit {0}))
        → (generic_service w parse decode v).upsert_invalidation ≡ some u
        → (b' : ℕ) (c' : String) (v' : ℕ) → Keeps (On view Demanded) (u b' c' v')
    Keeps-stored u e b' c' v' =
        let same : upsert w ≡ u = cc in
        rw (← same) (record {
          at = λ s h. upsert_keeps_Demands view w ok_world b b' c c' minimum v' s _ _ refl h;
        })

    -- No sequence of requests lowers what the database demands of a binding and a consumer.
    serve_keeps_Demands :
        (rs : List Request) (s : S)
        → Demanded (view s).tables
        → Demanded (view (serve (generic_service w parse decode v) new_struct rs s)).tables
    serve_keeps_Demands rs s h =
        serve_keeps (generic_service w parse decode v) new_struct
          (record {
            ports_keep = ports_keep view Demanded w ok_world Demanded-IsOfGrants;
            ticket = Keeps-ticket Demanded;
          })
          Keeps-stored rs s h

  -- After an invalidation, whatever requests are served in between, no ticket of the consumer for
  -- the binding with a lower version is accepted: an accepted one has at least the requested
  -- version.
  pub invalidated-serve :
      (req : InvalidateConsumerGrantRequest) (s s' : S) (done : Bool)
      → invalidate_consumer_grant (generic_service w parse decode v) (some req) s ≡ (ok done, s')
      → (rs : List Request) (raw : String) (r : ServiceTicketClaims) (s'' : S)
      → verify_service_ticket
          (service w parse v)
          raw
          (serve (generic_service w parse decode v) new_struct rs s')
        ≡ (ok r, s'')
      → r.actor_type ≡ "consumer"
      → r.binding_id ≡ req.binding_id
      → r.consumer ≡ req.consumer
      → req.minimum_grant_version ≤ r.grant_version
  invalidated-serve req s s' done h rs raw r s'' accepted actor binding consumer =
      let (_, _, _, _, _, _, d) =
        invalidate_consumer_grant-Demands view w ok_world parse v configured keeps decode req s s'
          done h in
      Demands-verify view w ok_world parse v configured keeps
        (serve (generic_service w parse decode v) new_struct rs s') s'' raw r req.binding_id
        req.consumer req.minimum_grant_version
        (serve_keeps_Demands req.binding_id req.consumer req.minimum_grant_version rs s' d) accepted
        actor binding consumer
