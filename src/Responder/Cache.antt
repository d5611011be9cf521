-- ===== src/Responder/Cache.antt =====
-- `cache` of internal/responder/responder.go. Each critical section is one function: `observe` is
-- what `getAt` does under the read lock, `settle` what it does under the write lock, and another
-- goroutine may run between the two.
pub mod Lookup
pub mod Bounds
pub mod Races
use ocsp.Base.{
  ℕ, zero, suc, String, Bool, true, false, not, Option, none, some, List, [], ◌∷◌, ◌||◌, ◌&&◌,
  length, if◌then◌else◌,
}
use ocsp.Base.Int.{ℤ, pos, leb_ℤ, ◌+ℤ◌}
use ocsp.Base.Dict.{Dict, lookup, erase, insert}
use ocsp.Go.Time.{Time, Duration, before, is_zero}
use ocsp.Go.X509.{Bytes}

pub record CacheEntry : Type 0 where
  pub data_bytes : Bytes
  pub expires_at : Time

-- `entries_gauge` is the last value that the gauge was set to, or `none` if there is no gauge.
pub record Cache : Type 0 where
  pub entries : Dict CacheEntry
  pub ttl : Duration
  pub max_entries : ℤ
  pub enabled : Bool
  pub entries_gauge : Option ℕ

-- The gauge, if there is one, is set to the number of entries.
set_gauge : Option ℕ → ℕ → Option ℕ
set_gauge none n = none
set_gauge (some _) n = some n

with_entries : Cache → Dict CacheEntry → Cache
unfolding set_gauge
with_entries c entries = record c {
  entries = entries;
  entries_gauge = set_gauge c.entries_gauge (length entries);
}

pub data Observed : Type 0 where
  absent stale : Observed
  fresh : Bytes → Observed

observe_entry : Time → Option CacheEntry → Observed
observe_entry now none = absent
observe_entry now (some e) = if not (before now e.expires_at) then stale else fresh e.data_bytes

-- The first half of `getAt`: `c.enabled`, and the entry that the read lock shows.
unfoldable pub observe : String → Time → Cache → Observed
unfolding observe_entry
observe key now c = if not c.enabled then absent else observe_entry now (lookup key c.entries)

settle_entry : String → Time → Cache → Option CacheEntry → Option Bytes × Cache
unfolding with_entries
settle_entry key now c none = (none, c)
settle_entry key now c (some e) =
    if before now e.expires_at
    then (some e.data_bytes, c)
    else (none, with_entries c (erase key c.entries))

-- The second half of `getAt`, under the write lock: the entry is read again before it is deleted.
unfoldable pub settle : String → Time → Cache → Option Bytes × Cache
unfolding settle_entry
settle key now c = settle_entry key now c (lookup key c.entries)

-- `getAt` with no other goroutine between its halves
unfoldable pub get_at : String → Time → Cache → Option Bytes × Cache
unfolding observe settle
get_at key now c = elim (observe key now c) [
  | absent ↦ (none, c)
  | stale ↦ settle key now c
  | fresh data_bytes ↦ (some data_bytes, c)
]

-- `for k := range c.entries { delete(c.entries, k); break }`: Go leaves open which key comes first,
-- and every key of the map is the one that some `victim` picks.
pick : ℕ → Dict CacheEntry → Option String
pick victim [] = none
pick victim ((k, e) ∷ []) = some k
pick zero ((k, e) ∷ _) = some k
pick (suc victim) (_ ∷ d) = pick victim d

evict : ℕ → Dict CacheEntry → Dict CacheEntry
unfolding pick
evict victim d = elim (pick victim d) [ none ↦ d | some k ↦ erase k d ]

make_room : ℕ → Cache → Dict CacheEntry
unfolding evict
make_room victim c =
    if leb_ℤ c.max_entries (pos (length c.entries)) then evict victim c.entries else c.entries

-- `expiresAt` of `setAt`: the end of the cache's own lifetime, or of the signed response if earlier.
unfoldable pub expiry : Cache → Time → Time → Time
expiry c inserted_at signed_next_update =
    let expires_at = inserted_at +ℤ c.ttl in
    if not (is_zero signed_next_update) && before signed_next_update expires_at
    then signed_next_update
    else expires_at

-- The two early returns of `setAt`
unfoldable pub stores : Cache → Time → Time → Bool
unfolding expiry
stores c inserted_at signed_next_update =
    not (not c.enabled || leb_ℤ c.max_entries (pos 0))
    && before inserted_at (expiry c inserted_at signed_next_update)

unfoldable pub set_at : ℕ → String → Bytes → Time → Time → Cache → Cache
unfolding with_entries make_room stores
set_at victim key data_bytes inserted_at signed_next_update c =
    if not (stores c inserted_at signed_next_update)
    then c
    else with_entries c (
        insert key
          (record { data_bytes = data_bytes; expires_at = expiry c inserted_at signed_next_update })
          (make_room victim c))
