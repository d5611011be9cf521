-- ===== src/Source/Http/Lookups.antt =====
-- Health, and where the statuses come from that lookups return.
use ocsp.Base.{
  ℕ, String, Bool, true, false, Option, none, some, ◌≡◌, ◌⊎◌, inl, inr, refl, arith, Option-cases,
  Bool-cases, ◌∙◌, ap, eq_iff, if◌then◌else◌, ◌==◌,
}
use ocsp.Base.Int.{ℤ, pos, pos_part, ltb_ℤ, ◌<ℤ◌}
use ocsp.Base.Dict.{Dict, lookup, insert, lookup-insert, lookup-erase}
use ocsp.Go.Time.{Time}
use ocsp.Go.Numerals.{to_decimal, to_decimal-injective}
use ocsp.Go.Errors.{Error, Result, ok, err, is_ok, ok-injective}
use ocsp.Source.{CertStatus}
use ocsp.Server.Metrics.{Metrics}
use ocsp.Source.Http.{HttpSource, HttpCacheEntry}
use ocsp.Source.Http.Retries.{Given, fetch_with_retry-Given}
use ocsp.Source.Http.Fetch.{
  HttpEnv, Attempt, get_status, fetched, concluded, after_read, read_cache, CacheRead, hit,
  not_cached, fetch_with_retry, url_of,
}

healthy-concluded :
    (key : String) (stored_now : Time) (observer : Option Metrics) (result : Result CertStatus)
    (s : HttpSource)
    → (concluded key stored_now observer result s).1.healthy
      ≡ is_ok (concluded key stored_now observer result s).0
unfolding concluded
healthy-concluded key stored_now observer (ok cs) s = refl
healthy-concluded key stored_now observer (err e) s = refl

-- A hit is from a healthy source, and is an entry of the key that has not expired.
read_cache-hit :
    (key : String) (now : Time) (s : HttpSource) (cs : CertStatus)
    → read_cache key now s ≡ hit cs
    → (s.healthy ≡ true)
      × ((entry : HttpCacheEntry) × (lookup key s.cache ≡ some entry)
          × (entry.status ≡ cs)
          × (now <ℤ entry.expires_at))
unfolding read_cache
read_cache-hit key now s cs h = elim (Option-cases (lookup key s.cache)) [
  | inl e ↦ absurd (ground arith)
  | inr (entry, e) ↦ (ground arith, (entry, e, ground arith, ground arith))
]

healthy-after_read :
    (env : HttpEnv) (serial : ℤ) (s : HttpSource) (r : CacheRead)
    → ((cs : CertStatus) → r ≡ hit cs → s.healthy ≡ true)
    → (after_read env serial s r).1.healthy ≡ is_ok (after_read env serial s r).0
unfolding after_read
healthy-after_read env serial s (hit cs) h = h cs refl
healthy-after_read env serial s (not_cached cache) h =
    healthy-concluded (to_decimal serial) env.stored_now _ _ _

-- A lookup whose context is alive at its start goes by what it reads in the cache.
pub get_status_alive :
    (env : HttpEnv) (serial : ℤ) (s : HttpSource)
    → env.ctx_err ≡ none
    → get_status env serial s
      ≡ after_read env serial s (read_cache (to_decimal serial) env.cached_now s)
unfolding get_status
get_status_alive env serial s alive = rw (alive, get_status) refl

get_status_done :
    (env : HttpEnv) (serial : ℤ) (s : HttpSource) (e : Error)
    → env.ctx_err ≡ some e
    → get_status env serial s ≡ (err e, s)
unfolding get_status
get_status_done env serial s e done = rw (done, get_status) refl

-- After a lookup whose context was alive at its start, the source is healthy exactly if the lookup
-- returned a status.
pub healthy-get_status :
    (env : HttpEnv) (serial : ℤ) (s : HttpSource)
    → env.ctx_err ≡ none
    → (get_status env serial s).1.healthy ≡ is_ok (get_status env serial s).0
healthy-get_status env serial s alive = rw (get_status_alive env serial s alive) (
    healthy-after_read env serial s _
      (λ cs e. (read_cache-hit (to_decimal serial) env.cached_now s cs e).0))

read_cache_of_unhealthy :
    (key : String) (now : Time) (s : HttpSource)
    → s.healthy ≡ false
    → read_cache key now s ≡ not_cached s.cache
unfolding read_cache
read_cache_of_unhealthy key now s unhealthy = ground arith

-- While the source is unhealthy its cache is not read: the CA is asked.
pub get_status_of_unhealthy :
    (env : HttpEnv) (serial : ℤ) (s : HttpSource)
    → env.ctx_err ≡ none
    → s.healthy ≡ false
    → get_status env serial s ≡ fetched env serial s
get_status_of_unhealthy env serial s alive unhealthy =
    get_status_alive env serial s alive
    ∙ ap (after_read env serial s)
        (read_cache_of_unhealthy (to_decimal serial) env.cached_now s unhealthy)
    ∙ unfold after_read in refl

read_cache-not_cached :
    (key j : String) (now : Time) (s : HttpSource) (cache : Dict HttpCacheEntry)
    (entry : HttpCacheEntry)
    → read_cache key now s ≡ not_cached cache
    → lookup j cache ≡ some entry
    → lookup j s.cache ≡ some entry
unfolding read_cache
read_cache-not_cached key j now s cache entry h at =
    ground (arith, eq_iff key j, lookup-erase key j s.cache)

lookup-insert_cases :
    (k j : String) (v : HttpCacheEntry) (d : Dict HttpCacheEntry) (w : HttpCacheEntry)
    → lookup j (insert k v d) ≡ some w
    → (lookup j d ≡ some w) ⊎ ((k ≡ j) × (v ≡ w))
lookup-insert_cases k j v d w h = elim (Bool-cases (k == j)) [
  | inl same ↦ inr ((eq_iff k j).0 same, ground (arith, lookup-insert k j v d))
  | inr other ↦ inl (ground (arith, lookup-insert k j v d))
]

-- The servers that were met, each by what it answers to the attempts at a URL.
module _ (IsMet : (String → ℕ → Attempt) → Type 0) where
  -- A server of those that were met answered an attempt of a lookup of this serial number with this status.
  abbrev pub Heard : HttpSource → ℤ → CertStatus → Type 0
  Heard s serial cs =
      (server : String → ℕ → Attempt) × IsMet server
      × Given s.mapping (server (url_of s serial)) (pos_part s.max_attempts) cs

  -- Every status that the cache has was heard from the CA for the serial number that it is kept under.
  abbrev pub CacheHeard : HttpSource → Dict HttpCacheEntry → Type 0
  CacheHeard s cache =
      (serial : ℤ) (entry : HttpCacheEntry)
      → lookup (to_decimal serial) cache ≡ some entry
      → Heard s serial entry.status

  -- A lookup answers with what the CA said of the serial number, now or for the cache, and the cache keeps
  -- only that. What the source is made with stays as it is.
  pub record KeepsHeard (s : HttpSource) (serial : ℤ) (p : Result CertStatus × HttpSource)
      : Type 0 where
    pub answer : (cs : CertStatus) → p.0 ≡ ok cs → Heard s serial cs
    pub cached : CacheHeard s p.1.cache
    pub mapping : p.1.mapping ≡ s.mapping
    pub base_url : p.1.base_url ≡ s.base_url
    pub max_attempts : p.1.max_attempts ≡ s.max_attempts

  insert-CacheHeard :
      (s : HttpSource) (serial : ℤ) (entry : HttpCacheEntry) (cache : Dict HttpCacheEntry)
      → CacheHeard s cache
      → Heard s serial entry.status
      → CacheHeard s (insert (to_decimal serial) entry cache)
  insert-CacheHeard s serial entry cache h heard t entry' at =
      elim (lookup-insert_cases (to_decimal serial) (to_decimal t) entry cache entry' at) [
        | inl old ↦ h t entry' old
        | inr (same, new) ↦ rw (← new) (rw (← to_decimal-injective serial t same) heard)
      ]

  kept-CacheHeard :
      (s : HttpSource) (serial : ℤ) (keeps : Bool) (entry : HttpCacheEntry)
      (cache : Dict HttpCacheEntry)
      → CacheHeard s cache
      → Heard s serial entry.status
      → CacheHeard s (if keeps then insert (to_decimal serial) entry cache else cache)
  kept-CacheHeard s serial true entry cache h heard = insert-CacheHeard s serial entry cache h heard
  kept-CacheHeard s serial false entry cache h heard = h

  record_KeepsHeard :
      (s s' : HttpSource) (serial : ℤ) (result : Result CertStatus)
      → ((cs : CertStatus) → result ≡ ok cs → Heard s serial cs)
      → CacheHeard s s'.cache
      → s'.mapping ≡ s.mapping
      → s'.base_url ≡ s.base_url
      → s'.max_attempts ≡ s.max_attempts
      → KeepsHeard s serial (result, s')
  record_KeepsHeard s s' serial result answer cached mapping base_url max_attempts = record {
    answer = answer;
    cached = cached;
    mapping = mapping;
    base_url = base_url;
    max_attempts = max_attempts;
  }

  concluded-KeepsHeard :
      (s : HttpSource) (serial : ℤ) (cache : Dict HttpCacheEntry) (stored_now : Time)
      (observer : Option Metrics) (result : Result CertStatus)
      → CacheHeard s cache
      → ((cs : CertStatus) → result ≡ ok cs → Heard s serial cs)
      → KeepsHeard s serial
          (concluded (to_decimal serial) stored_now observer result (record s { cache = cache }))
  unfolding concluded
  concluded-KeepsHeard s serial cache stored_now observer (err e) h heard =
      record_KeepsHeard s _ serial (err e) heard h refl refl refl
  concluded-KeepsHeard s serial cache stored_now observer (ok cs) h heard =
      record_KeepsHeard s _ serial (ok cs) heard
        (kept-CacheHeard s serial (ltb_ℤ (pos 0) s.cache_ttl) _ cache h (heard cs refl)) refl refl
        refl

  after_read-KeepsHeard :
      (env : HttpEnv) (serial : ℤ) (s : HttpSource) (r : CacheRead)
      → CacheHeard s s.cache
      → IsMet env.server
      → read_cache (to_decimal serial) env.cached_now s ≡ r
      → KeepsHeard s serial (after_read env serial s r)
  unfolding after_read fetch_with_retry url_of to_decimal
  after_read-KeepsHeard env serial s (hit cs) h met read =
      let (healthy, (entry, at, is_status, _)) =
        read_cache-hit (to_decimal serial) env.cached_now s cs read in
      record_KeepsHeard s s serial (ok cs)
        (λ cs' e. rw (← ok-injective e) (rw (← is_status) (h serial entry at))) h refl refl refl
  after_read-KeepsHeard env serial s (not_cached cache) h met read =
      concluded-KeepsHeard s serial cache env.stored_now _ _
        (λ t entry at. h t entry (
          read_cache-not_cached (to_decimal serial) (to_decimal t) env.cached_now s cache entry read
            at))
        (λ cs e. (env.server, met, fetch_with_retry-Given s (env.server (url_of s serial)) cs e))

  -- From a cache whose statuses are all what servers that were met said of the serial numbers that they are
  -- kept under, a lookup that meets another of them answers with what one of them said of its serial
  -- number, in this lookup or in the one that kept it, and the cache it leaves has only such statuses.
  pub get_status-KeepsHeard :
      (env : HttpEnv) (serial : ℤ) (s : HttpSource)
      → IsMet env.server
      → CacheHeard s s.cache
      → KeepsHeard s serial (get_status env serial s)
  get_status-KeepsHeard env serial s met h = elim (Option-cases env.ctx_err) [
    | inl alive ↦
        rw (get_status_alive env serial s alive) (after_read-KeepsHeard env serial s _ h met refl)
    | inr (e, done) ↦
        rw (get_status_done env serial s e done)
          (record_KeepsHeard s s serial (err e) (λ cs eq. absurd (ground arith)) h refl refl refl)
  ]
