-- ===== src/Source/Http/Persistence.antt =====
-- That a lookup gets through to the CA: an attempt that is answered ends it, and those before it do not.
use ocsp.Base.{ℕ, suc, ◌+◌, String, Bool, true, false, Option, none, List, [], ◌≡◌, refl, ap, eqb}
use ocsp.Base.Int.{ℤ, pos_part}
use ocsp.Base.Dict.{Dict}
use ocsp.Go.Time.{Time, Duration}
use ocsp.Go.Numerals.{to_decimal}
use ocsp.Go.Errors.{Error, Result, ok, err, text}
use ocsp.Source.{CertStatus}
use ocsp.Server.Metrics.{Metrics}
use ocsp.Source.Http.{
  HttpSource, HttpCacheEntry, ResponseMapping, Fetched, mapped, unmapped, gives_up, retries,
}
use ocsp.Source.Http.Fetch.{
  HttpEnv, Attempt, Act, Outcome, after_fetch, fetch_once, round, fetch_loop, fetch_with_retry,
  get_status, concluded, after_read, read_cache, not_cached, url_of,
}
use ocsp.Source.Http.Answers.{Gives}
use ocsp.Source.Http.Lookups.{get_status_alive}

-- The context does not end before the attempt or in the wait for it.
pub record IsAlive (a : Attempt) : Type 0 where
  pub ctx_err : a.ctx_err ≡ none
  pub wait_err : a.wait_err ≡ none

-- Among the attempts from a number on, as many as are left, one gives the status, and those before it fail
-- in a way after which the CA is asked again.
pub data GetsThrough (mapping : ResponseMapping) (attempt : ℕ → Attempt) (cs : CertStatus)
    : ℕ → ℕ → Type 0 where
  answered :
      (i left : ℕ)
      → IsAlive (attempt i)
      → Gives (fetch_once mapping (attempt i)) cs
      → GetsThrough mapping attempt cs i (suc left)
  asked_again :
      (i left : ℕ) (e : Error)
      → IsAlive (attempt i)
      → fetch_once mapping (attempt i) ≡ retries e
      → GetsThrough mapping attempt cs (i + 1) left
      → GetsThrough mapping attempt cs i (suc left)

after_fetch-Gives :
    (f : Fetched) (acts : List Act) (observer : Option Metrics) (next : Error → Outcome)
    (cs : CertStatus)
    → Gives f cs
    → (after_fetch f acts observer next).result ≡ ok cs
after_fetch-Gives (mapped cs') acts observer next cs h = ap ok h
after_fetch-Gives (unmapped cs') acts observer next cs h = ap ok h
after_fetch-Gives (gives_up e) acts observer next cs h = absurd h
after_fetch-Gives (retries e) acts observer next cs h = absurd h

round-Gives :
    (mapping : ResponseMapping) (a : Attempt) (first : Bool) (backoff : Duration) (acts : List Act)
    (observer : Option Metrics) (next : Duration → List Act → Option Metrics → Error → Outcome)
    (cs : CertStatus)
    → Gives (fetch_once mapping a) cs
    → (round mapping a none first none backoff acts observer next).result ≡ ok cs
unfolding round
round-Gives mapping a true backoff acts observer next cs h =
    after_fetch-Gives (fetch_once mapping a) _ _ _ cs h
round-Gives mapping a false backoff acts observer next cs h =
    after_fetch-Gives (fetch_once mapping a) _ _ _ cs h

round-retries :
    (mapping : ResponseMapping) (a : Attempt) (first : Bool) (backoff : Duration) (acts : List Act)
    (observer : Option Metrics) (next : Duration → List Act → Option Metrics → Error → Outcome)
    (e : Error) (res : Result CertStatus)
    → fetch_once mapping a ≡ retries e
    → ((d : Duration) (acts' : List Act) (o : Option Metrics) → (next d acts' o e).result ≡ res)
    → (round mapping a none first none backoff acts observer next).result ≡ res
unfolding round
round-retries mapping a true backoff acts observer next e res h k = rw h (k _ _ _)
round-retries mapping a false backoff acts observer next e res h k = rw h (k _ _ _)

fetch_loop-GetsThrough :
    (mapping : ResponseMapping) (attempt : ℕ → Attempt) (cs : CertStatus) (i left : ℕ)
    (backoff : Duration) (last_err : Error) (acts : List Act) (observer : Option Metrics)
    → GetsThrough mapping attempt cs i left
    → (fetch_loop mapping attempt left i backoff last_err acts observer).result ≡ ok cs
unfolding fetch_loop
fetch_loop-GetsThrough mapping attempt cs _ _ backoff last_err acts observer
      (answered i left alive h) =
    rw (alive.ctx_err, alive.wait_err)
      (round-Gives mapping (attempt i) (eqb i 0) backoff acts observer _ cs h)
fetch_loop-GetsThrough mapping attempt cs _ _ backoff last_err acts observer
      (asked_again i left e alive h later) =
    rw (alive.ctx_err, alive.wait_err)
      (round-retries mapping (attempt i) (eqb i 0) backoff acts observer _ e (ok cs) h
        (λ d acts' o. fetch_loop-GetsThrough mapping attempt cs (i + 1) left d e acts' o later))

-- A fetch that gets through returns the status.
fetch_with_retry-GetsThrough :
    (s : HttpSource) (attempt : ℕ → Attempt) (cs : CertStatus)
    → GetsThrough s.mapping attempt cs 0 (pos_part s.max_attempts)
    → (fetch_with_retry s attempt).result ≡ ok cs
unfolding fetch_with_retry
fetch_with_retry-GetsThrough s attempt cs h =
    fetch_loop-GetsThrough s.mapping attempt cs 0 (pos_part s.max_attempts) s.backoff (text "<nil>")
      [] s.observer h

concluded-ok :
    (key : String) (stored_now : Time) (observer : Option Metrics) (result : Result CertStatus)
    (s : HttpSource) (cs : CertStatus)
    → result ≡ ok cs
    → ((concluded key stored_now observer result s).0 ≡ ok cs)
      × ((concluded key stored_now observer result s).1.healthy ≡ true)
unfolding concluded
concluded-ok key stored_now observer (ok cs') s cs h = (h, refl)
concluded-ok key stored_now observer (err e) s cs h = absurd (cc)

-- A lookup whose serial number is not in the cache returns the status that the CA gives to one of the
-- source's attempts, if the context is alive up to it and the attempts before it only failed in ways after
-- which the CA is asked again. After it the source is healthy.
pub get_status-GetsThrough :
    (env : HttpEnv) (serial : ℤ) (s : HttpSource) (cache : Dict HttpCacheEntry) (cs : CertStatus)
    → env.ctx_err ≡ none
    → read_cache (to_decimal serial) env.cached_now s ≡ not_cached cache
    → GetsThrough s.mapping (env.server (url_of s serial)) cs 0 (pos_part s.max_attempts)
    → ((get_status env serial s).0 ≡ ok cs) × ((get_status env serial s).1.healthy ≡ true)
unfolding after_read url_of
get_status-GetsThrough env serial s cache cs alive missed h =
    rw (get_status_alive env serial s alive, missed)
      (concluded-ok (to_decimal serial) env.stored_now _ _ _ cs (
        fetch_with_retry-GetsThrough (record s { cache = cache }) (env.server (url_of s serial)) cs
          h))
