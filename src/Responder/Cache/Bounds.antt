-- ===== src/Responder/Cache/Bounds.antt =====
-- The size of the cache, its gauge, and how long an entry lives.
use ocsp.Base.{
  ℕ, zero, suc, ◌≤◌, ◌<◌, String, false, none, some, [], ◌∷◌, ◌≡◌, ◌≢◌, ◌⊎◌, inl, inr, arith,
  length, Option-cases, if◌then◌else◌, eq_iff, ◌==◌,
}
use ocsp.Base.Int.{pos, pos_part, ◌+ℤ◌, ◌≤ℤ◌, leb_ℤ}
use ocsp.Base.Dict.{Dict, lookup, length-erase-le, length-erase-lt, length-insert-le}
use ocsp.Go.Time.{Time, is_zero}
use ocsp.Go.X509.{Bytes}
use ocsp.Responder.Cache.{Cache, CacheEntry, settle, get_at, set_at, expiry, make_room, evict, pick}

-- The cache holds at most `max_entries` responses (none if that is negative), and the gauge, if there
-- is one, shows how many.
pub record IsBounded (c : Cache) : Type 0 where
  pub size : length c.entries ≤ pos_part c.max_entries
  pub gauge : (c.entries_gauge ≡ none) ⊎ (c.entries_gauge ≡ some (length c.entries))

-- The key that is picked is a key of the map.
pick-is-key :
    (victim : ℕ) (d : Dict CacheEntry) (k : String)
    → pick victim d ≡ some k
    → (e : CacheEntry) × (lookup k d ≡ some e)
unfolding pick lookup
pick-is-key victim [] k h = absurd (cc)
pick-is-key victim ((j, e) ∷ []) k h = (e, ground (arith, eq_iff j k))
pick-is-key zero ((j, e) ∷ _ ∷ d) k h = (e, ground (arith, eq_iff j k))
pick-is-key (suc victim) ((j, e) ∷ i ∷ d) k h =
    let (e', at) = pick-is-key victim (i ∷ d) k h in ((if j == k then e else e'), ground arith)

pick-ne-none : (victim : ℕ) (d : Dict CacheEntry) → 0 < length d → pick victim d ≢ none
unfolding pick
pick-ne-none victim [] h = absurd (omega arith)
pick-ne-none victim ((j, e) ∷ []) h = ground arith
pick-ne-none zero ((j, e) ∷ _ ∷ d) h = ground arith
pick-ne-none (suc victim) ((j, e) ∷ i ∷ d) h = pick-ne-none victim (i ∷ d) (omega arith)

-- Eviction takes an entry out of a map that has one.
length-evict-lt :
    (victim : ℕ) (d : Dict CacheEntry) → 0 < length d → length (evict victim d) < length d
unfolding evict
length-evict-lt victim d h = elim (Option-cases (pick victim d)) [
  | inl e ↦ absurd (pick-ne-none victim d h e)
  | inr (k, e) ↦ let (v, at) = pick-is-key victim d k e in rw (e, evict) (length-erase-lt k v d at)
]

length-make_room-lt :
    (victim : ℕ) (c : Cache)
    → length c.entries ≤ pos_part c.max_entries
    → leb_ℤ c.max_entries (pos 0) ≡ false
    → length (make_room victim c) < pos_part c.max_entries
unfolding make_room
length-make_room-lt victim c bounded positive = ground (arith, length-evict-lt victim c.entries)

-- Storing a response keeps the bound and the gauge, whichever entry is evicted.
pub set_at-IsBounded :
    (victim : ℕ) (key : String) (data_bytes : Bytes) (inserted_at signed_next_update : Time)
    (c : Cache)
    → IsBounded c
    → IsBounded (set_at victim key data_bytes inserted_at signed_next_update c)
unfolding set_at
set_at-IsBounded victim key data_bytes inserted_at signed_next_update c h = ground (
  arith,
  length-make_room-lt victim c,
  length-insert-le key
      (record { data_bytes = data_bytes; expires_at = expiry c inserted_at signed_next_update })
      (make_room victim c),
)

pub settle-IsBounded :
    (key : String) (now : Time) (c : Cache) → IsBounded c → IsBounded (settle key now c).1
unfolding settle
settle-IsBounded key now c h = ground (arith, length-erase-le key c.entries)

pub get_at-IsBounded :
    (key : String) (now : Time) (c : Cache) → IsBounded c → IsBounded (get_at key now c).1
unfolding get_at
get_at-IsBounded key now c h = ground (arith, settle-IsBounded key now c h)

-- An entry outlives neither the cache's lifetime nor, where it has one, the signed next update.
pub expiry_caps :
    (c : Cache) (inserted_at signed_next_update : Time)
    → (expiry c inserted_at signed_next_update ≤ℤ inserted_at +ℤ c.ttl)
      × (is_zero signed_next_update ≡ false
          → expiry c inserted_at signed_next_update ≤ℤ signed_next_update)
unfolding expiry
expiry_caps c inserted_at signed_next_update = ground arith
