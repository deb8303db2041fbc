-- ===== src/Data/GrantInvalidationRepo/Tests.antt =====
-- A run of the repository over the memory: a version, a lower one of the same
-- consumer in other letters, and one of another consumer.
use platform_mihomo_service.Base.{List, [], ◌∷◌, ◌≡◌, refl}
use platform_mihomo_service.Store.Laws.{View}
use platform_mihomo_service.Store.Memory.{memory, memory-IsWorld, empty_view, fold}
use platform_mihomo_service.Data.GrantInvalidationRepo.{upsert, minimum_version}
use platform_mihomo_service.Data.GrantInvalidationRepo.Refinement.{
  Request, Run, begin, recorded, versions_after, minimum_version-versions_after,
}

abbrev raised_view : View
raised_view = (upsert memory 7 "BOT" 4 empty_view).1

abbrev kept_view : View
kept_view = (upsert memory 7 "Bot" 2 raised_view).1

abbrev last_view : View
last_view = (upsert memory 7 "site" 9 kept_view).1

abbrev log : List Request
log = (7, "site", 9) ∷ (7, "Bot", 2) ∷ (7, "BOT", 4) ∷ []

logged : Run (λ v. v) memory memory-IsWorld empty_view log last_view
unfolding upsert
logged = recorded 7 "site" 9 (recorded 7 "Bot" 2 (recorded 7 "BOT" 4 begin refl) refl) refl

minimum_version-versions_after_example : 4 ≡ versions_after fold log 7 "bot"
unfolding minimum_version upsert
minimum_version-versions_after_example =
    minimum_version-versions_after (λ v. v) memory memory-IsWorld empty_view last_view last_view log
      7 "bot" 4 refl logged refl
