-- ===== src/Responder/Cache/Lookup.antt =====
-- What the cache answers, and what storing one response does to the answers for every key.
use ocsp.Base.{
  ℕ, String, true, false, Option, none, some, ◌≡◌, ◌⊎◌, inl, inr, arith, eq_iff, ◌==◌, Option-cases,
  if◌then◌else◌, refl,
}
use ocsp.Base.Int.{◌≤ℤ◌, ◌<ℤ◌}
use ocsp.Base.Dict.{Dict, lookup, lookup-erase, lookup-insert}
use ocsp.Go.Time.{Time, before}
use ocsp.Go.X509.{Bytes}
use ocsp.Responder.Cache.{Cache, CacheEntry, get_at, set_at, stores, expiry, make_room, evict, pick}

-- The bytes that an entry still answers with at a given time.
abbrev live : Time → Option CacheEntry → Option Bytes
live now none = none
live now (some e) = if before now e.expires_at then some e.data_bytes else none

-- What a caller sees under a key at a given time.
unfoldable pub view : Time → String → Cache → Option Bytes
view now key c = if c.enabled then live now (lookup key c.entries) else none

-- A lookup answers with the live entry of its key, if caching is on, and with nothing otherwise.
pub get_at-eq-view : (key : String) (now : Time) (c : Cache) → (get_at key now c).0 ≡ view now key c
unfolding get_at view
get_at-eq-view key now c = ground arith

-- A lookup that answers leaves the cache as it was.
pub get_at-hit :
    (key : String) (now : Time) (c : Cache) (out : Bytes)
    → view now key c ≡ some out
    → (get_at key now c).1 ≡ c
unfolding get_at view
get_at-hit key now c out seen = elim (Option-cases (lookup key c.entries)) [
  | inl e ↦ ground arith
  | inr (e, at) ↦ ground arith
]

-- A lookup changes what is seen under no key, then or later.
pub view-get_at :
    (key j : String) (now later : Time) (c : Cache)
    → now ≤ℤ later
    → view later j (get_at key now c).1 ≡ view later j c
unfolding get_at view
view-get_at key j now later c h = ground (arith, eq_iff key j, lookup-erase key j c.entries)

lookup-evict :
    (victim : ℕ) (j : String) (d : Dict CacheEntry)
    → (lookup j (evict victim d) ≡ lookup j d) ⊎ (lookup j (evict victim d) ≡ none)
unfolding evict
lookup-evict victim j d = elim (Option-cases (pick victim d)) [
  | inl e ↦ inl (rw (e, evict) refl)
  | inr (k, e) ↦ ground (arith, lookup-erase k j d)
]

lookup-make_room :
    (victim : ℕ) (j : String) (c : Cache)
    → (lookup j (make_room victim c) ≡ lookup j c.entries) ⊎ (lookup j (make_room victim c) ≡ none)
unfolding make_room
lookup-make_room victim j c = ground (arith, lookup-evict victim j c.entries)

-- After a response is stored its key answers with it up to its expiry and with nothing from then on.
pub view-set_at_self :
    (victim : ℕ) (key : String) (data_bytes : Bytes) (inserted_at signed_next_update : Time)
    (c : Cache) (now : Time)
    → stores c inserted_at signed_next_update ≡ true
    → view now key (set_at victim key data_bytes inserted_at signed_next_update c)
      ≡ (if before now (expiry c inserted_at signed_next_update) then some data_bytes else none)
unfolding view set_at stores
view-set_at_self victim key data_bytes inserted_at signed_next_update c now h = ground (
  arith,
  eq_iff key key,
  lookup-insert key key
      (record { data_bytes = data_bytes; expires_at = expiry c inserted_at signed_next_update })
      (make_room victim c),
)

-- Another key answers as before, or has been evicted and answers with nothing.
pub view-set_at_ne :
    (victim : ℕ) (key j : String) (data_bytes : Bytes) (inserted_at signed_next_update : Time)
    (c : Cache) (now : Time)
    → (key == j) ≡ false
    → (view now j (set_at victim key data_bytes inserted_at signed_next_update c) ≡ view now j c)
      ⊎ (view now j (set_at victim key data_bytes inserted_at signed_next_update c) ≡ none)
unfolding view set_at
view-set_at_ne victim key j data_bytes inserted_at signed_next_update c now h = ground (
  arith,
  lookup-make_room victim j c,
  lookup-insert key j
      (record { data_bytes = data_bytes; expires_at = expiry c inserted_at signed_next_update })
      (make_room victim c),
)

-- An entry that is there after a response is stored was there before, or is the new one.
pub lookup-set_at :
    (victim : ℕ) (key j : String) (data_bytes : Bytes) (inserted_at signed_next_update : Time)
    (c : Cache) (e : CacheEntry)
    → lookup j (set_at victim key data_bytes inserted_at signed_next_update c).entries ≡ some e
    → (lookup j c.entries ≡ some e)
      ⊎ ((key ≡ j)
          × (e ≡ record {
            data_bytes = data_bytes;
            expires_at = expiry c inserted_at signed_next_update;
          }))
unfolding set_at
lookup-set_at victim key j data_bytes inserted_at signed_next_update c e h = ground (
  arith,
  eq_iff key j,
  lookup-make_room victim j c,
  lookup-insert key j
      (record { data_bytes = data_bytes; expires_at = expiry c inserted_at signed_next_update })
      (make_room victim c),
)

-- A lookup adds no entry.
pub lookup-get_at :
    (key j : String) (now : Time) (c : Cache) (e : CacheEntry)
    → lookup j (get_at key now c).1.entries ≡ some e
    → lookup j c.entries ≡ some e
unfolding get_at
lookup-get_at key j now c e h = ground (arith, eq_iff key j, lookup-erase key j c.entries)

-- What a lookup answers with is the data of an entry of its key that has not expired.
pub get_at-live :
    (key : String) (now : Time) (c : Cache) (out : Bytes)
    → (get_at key now c).0 ≡ some out
    → (e : CacheEntry) × (lookup key c.entries ≡ some e)
      × (e.data_bytes ≡ out)
      × (now <ℤ e.expires_at)
unfolding get_at
get_at-live key now c out h = elim (Option-cases (lookup key c.entries)) [
  | inl e ↦ absurd (ground arith)
  | inr (e, at) ↦ (e, at, ground arith, ground arith)
]

-- A lookup changes nothing of what decides whether a response is stored, and until when.
pub stores-get_at :
    (key : String) (now : Time) (c : Cache) (inserted_at signed_next_update : Time)
    → (stores (get_at key now c).1 inserted_at signed_next_update
        ≡ stores c inserted_at signed_next_update)
      × (expiry (get_at key now c).1 inserted_at signed_next_update
          ≡ expiry c inserted_at signed_next_update)
unfolding get_at stores
stores-get_at key now c inserted_at signed_next_update =
    elim (Option-cases (lookup key c.entries)) [ inl e ↦ ground arith | inr (e, at) ↦ ground arith ]
