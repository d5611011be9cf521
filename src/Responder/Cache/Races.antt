-- ===== src/Responder/Cache/Races.antt =====
-- Goroutines that share the cache. A lookup is two critical sections, `observe` and then `settle` if
-- the entry was stale, and any critical sections of others may stand between the two.
use ocsp.Base.{ℕ, String, Option, none, some, ◌≡◌, ◌⊎◌, arith, refl, ◌∙◌, eq_iff}
use ocsp.Base.Int.{◌≤ℤ◌}
use ocsp.Base.Dict.{lookup-erase}
use ocsp.Go.Time.{Time}
use ocsp.Go.X509.{Bytes}
use ocsp.Responder.Cache.{Cache, absent, stale, fresh, observe, settle, set_at}
use ocsp.Responder.Cache.Bounds.{IsBounded, set_at-IsBounded, settle-IsBounded}
use ocsp.Responder.Cache.Lookup.{view}

-- One critical section of some goroutine that changes the cache.
pub data Step : Cache → Cache → Type 0 where
  stored :
      (victim : ℕ) (key : String) (data_bytes : Bytes) (inserted_at signed_next_update : Time)
      (c : Cache)
      → Step c (set_at victim key data_bytes inserted_at signed_next_update c)
  settled : (key : String) (now : Time) (c : Cache) → Step c (settle key now c).1

pub data Steps (c : Cache) : Cache → Type 0 where
  none_yet : Steps c c
  then_one : {before after : Cache} → Steps c before → Step before after → Steps c after

Step-IsBounded : {c d : Cache} → Step c d → IsBounded c → IsBounded d
Step-IsBounded (stored victim key data_bytes inserted_at signed_next_update c) h =
    set_at-IsBounded victim key data_bytes inserted_at signed_next_update c h
Step-IsBounded (settled key now c) h = settle-IsBounded key now c h

-- However the critical sections interleave, the cache stays within its bound and its gauge is right.
pub Steps-IsBounded : {c d : Cache} → IsBounded c → Steps c d → IsBounded d
Steps-IsBounded h none_yet = h
Steps-IsBounded h (then_one r s) = Step-IsBounded s (Steps-IsBounded h r)

-- The second half of a lookup never deletes an entry that is live: what is seen under any key at the
-- lookup's time, or later, is what was seen there before.
pub view-settle :
    (key j : String) (now later : Time) (c : Cache)
    → now ≤ℤ later
    → view later j (settle key now c).1 ≡ view later j c
unfolding view settle
view-settle key j now later c h = ground (arith, eq_iff key j, lookup-erase key j c.entries)

-- What a lookup answers when the cache is `c` at its first half and `d` at its second.
unfoldable pub raced_get : String → Time → Cache → Cache → Option Bytes
raced_get key now c d = elim (observe key now c) [
  | absent ↦ none
  | stale ↦ (settle key now d).0
  | fresh data_bytes ↦ some data_bytes
]

enabled-Step : {c d : Cache} → Step c d → d.enabled ≡ c.enabled
unfolding set_at settle
enabled-Step (stored victim key data_bytes inserted_at signed_next_update c) = ground arith
enabled-Step (settled key now c) = ground arith

enabled-Steps : {c d : Cache} → Steps c d → d.enabled ≡ c.enabled
enabled-Steps none_yet = refl
enabled-Steps (then_one r s) = enabled-Step s ∙ enabled-Steps r

-- A lookup that was raced answers with a response that its key had, not yet expired, at its first
-- half or at its second; it answers with nothing only if one of the two moments showed nothing.
pub raced_get-eq-view :
    (key : String) (now : Time) {c d : Cache}
    → Steps c d
    → (raced_get key now c d ≡ view now key c) ⊎ (raced_get key now c d ≡ view now key d)
unfolding raced_get observe settle view
raced_get-eq-view key now {c} {d} r = ground (arith, enabled-Steps r)
