-- ===== src/Tests/Caches.antt =====
-- The cache of responses.
use ocsp.Base.{[], ◌∷◌, ◌≡◌, ◌⊎◌, inr, refl, arith}
use ocsp.Responder.Cache.{Cache, set_at, settle}
use ocsp.Responder.Cache.Lookup.{view}
use ocsp.Responder.Cache.Bounds.{IsBounded}
use ocsp.Responder.Cache.Races.{
  Steps, none_yet, then_one, stored, settled, Steps-IsBounded, raced_get, raced_get-eq-view,
}
use ocsp.Tests.Bench.{at, empty_cache}

-- Two responses fill the cache; the first ends at 110, the second at 160.
abbrev full_cache : Cache
full_cache =
    set_at 0 "8" (2 ∷ []) (at 100) (at 900) (set_at 0 "7" (1 ∷ []) (at 100) (at 110) empty_cache)

empty_cache-IsBounded : IsBounded empty_cache
empty_cache-IsBounded = record { size = omega arith; gauge = inr refl }

-- Two goroutines store a response each; a third deletes one that has expired.
abbrev busy : Steps empty_cache (settle "7" (at 120) full_cache).1
busy =
    then_one
      (then_one (then_one none_yet (stored 0 "7" (1 ∷ []) (at 100) (at 110) empty_cache))
        (stored 0 "8" (2 ∷ []) (at 100) (at 900) _))
      (settled "7" (at 120) full_cache)

Steps-IsBounded_example : IsBounded (settle "7" (at 120) full_cache).1
Steps-IsBounded_example = Steps-IsBounded empty_cache-IsBounded busy

-- The entry is stale at the first half, and is stored anew before the second.
abbrev renewed : Cache
renewed = set_at 0 "7" (4 ∷ []) (at 121) (at 900) full_cache

renewed-Steps : Steps full_cache renewed
renewed-Steps = then_one none_yet (stored 0 "7" (4 ∷ []) (at 121) (at 900) full_cache)

raced_get-eq-view_example :
    (raced_get "7" (at 120) full_cache renewed ≡ view (at 120) "7" full_cache)
    ⊎ (raced_get "7" (at 120) full_cache renewed ≡ view (at 120) "7" renewed)
raced_get-eq-view_example = raced_get-eq-view "7" (at 120) renewed-Steps
