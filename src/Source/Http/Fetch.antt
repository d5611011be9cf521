-- ===== src/Source/Http/Fetch.antt =====
-- `fetchOnce`, `fetchWithRetry` and `GetStatus` of internal/source/http.go.
use ocsp.Base.{
  ℕ, zero, suc, ◌+◌, String, ◌<>◌, Bool, true, false, Option, none, some, List, [], ◌∷◌, eqb,
  if◌then◌else◌,
}
use ocsp.Base.Int.{ℤ, pos, pos_part, ◌+ℤ◌, ltb_ℤ}
use ocsp.Base.Dict.{Dict, lookup, insert, erase}
use ocsp.Go.Time.{Time, Duration, before, wrap_int64}
use ocsp.Go.Strings.{replace_all}
use ocsp.Go.Numerals.{to_decimal, to_upper_hex}
use ocsp.Go.Errors.{Error, text, wrap, Result, ok, err}
use ocsp.Source.{Source, CertStatus}
use ocsp.Server.Metrics.{Metrics, record_source_error, record_source_retry, record_source_latency}
use ocsp.Source.Http.{
  HttpSource, HttpCacheEntry, HttpResponse, ResponseMapping, Fetched, mapped, unmapped, gives_up,
  retries, status_of_response, classify_http_source_error,
}

-- What one attempt meets: the context's error before it and, if it has to wait, the context's error if
-- that ends the wait; why no request can be made; the server's answer; the clock.
pub record Attempt : Type 0 where
  pub ctx_err : Option Error
  pub wait_err : Option Error
  pub request_err : Option Error
  pub answer : Result HttpResponse
  pub now : Time

-- What a fetch does that can be seen from outside.
pub data Act : Type 0 where
  waits : Duration → Act
  asks : Act

-- A fetch's result, with its acts, the newest first, and what it reported to the observer.
pub record Outcome : Type 0 where
  pub result : Result CertStatus
  pub acts : List Act
  pub observer : Option Metrics

abbrev pub reported : (Metrics → Metrics) → Option Metrics → Option Metrics
reported f none = none
reported f (some m) = some (f m)

unfoldable pub fetch_once : ResponseMapping → Attempt → Fetched
unfolding status_of_response
fetch_once mapping a = elim a.request_err [
  | some e ↦ gives_up (wrap "ocsp-responder/source: creating request" e)
  | none ↦ status_of_response mapping a.now a.answer
]

-- Whether a request goes out at all.
abbrev pub asked : Attempt → List Act → List Act
asked a acts = elim a.request_err [ some _ ↦ acts | none ↦ asks ∷ acts ]

-- The end of a round: a result, or the next round with the error of this one.
abbrev pub after_fetch : Fetched → List Act → Option Metrics → (Error → Outcome) → Outcome
after_fetch (mapped cs) acts observer next = record {
  result = ok cs;
  acts = acts;
  observer = observer;
}
after_fetch (unmapped cs) acts observer next = record {
  result = ok cs;
  acts = acts;
  observer = reported (record_source_error "http" "unmapped") observer;
}
after_fetch (gives_up e) acts observer next = record {
  result = err e;
  acts = acts;
  observer = observer;
}
after_fetch (retries e) acts observer next = next e

abbrev pub stopped : Error → List Act → Option Metrics → Outcome
stopped e acts observer = record { result = err e; acts = acts; observer = observer }

-- A round of `fetchWithRetry`'s loop. It meets the context's error, if there is one; is the first
-- round, or waits; `next` is the next round, with its wait (an int64, doubled after each).
unfoldable pub round :
    ResponseMapping
    → Attempt
    → Option Error
    → Bool
    → Option Error
    → Duration
    → List Act
    → Option Metrics
    → (Duration → List Act → Option Metrics → Error → Outcome)
    → Outcome
unfolding fetch_once
round mapping a (some e) first waited backoff acts observer next = stopped e acts observer
round mapping a none true waited backoff acts observer next =
    after_fetch (fetch_once mapping a) (asked a acts) observer
      (next backoff (asked a acts) observer)
round mapping a none false (some e) backoff acts observer next =
    stopped e (waits backoff ∷ acts) observer
round mapping a none false none backoff acts observer next =
    let acts' = asked a (waits backoff ∷ acts) in
    let observer' = reported (record_source_retry "http") observer in
    after_fetch (fetch_once mapping a) acts' observer'
      (next (wrap_int64 (backoff +ℤ backoff)) acts' observer')

-- The loop: the attempts that are left, the next attempt's number, the next wait, the last error.
unfoldable pub fetch_loop :
    ResponseMapping → (ℕ → Attempt) → ℕ → ℕ → Duration → Error → List Act → Option Metrics → Outcome
unfolding round
fetch_loop mapping attempt zero i backoff last_err acts observer = record {
  result = err (wrap "ocsp-responder/source: all attempts failed" last_err);
  acts = acts;
  observer = observer;
}
fetch_loop mapping attempt (suc left) i backoff last_err acts observer =
    round mapping (attempt i) (attempt i).ctx_err (eqb i 0) (attempt i).wait_err backoff acts
      observer
      (λ backoff' acts' observer' e.
        fetch_loop mapping attempt left (i + 1) backoff' e acts' observer')

-- `fetchWithRetry`; `lastErr` is nil at first, which is seen only where there is no attempt at all.
unfoldable pub fetch_with_retry : HttpSource → (ℕ → Attempt) → Outcome
unfolding fetch_loop
fetch_with_retry s attempt =
    fetch_loop s.mapping attempt (pos_part s.max_attempts) 0 s.backoff (text "<nil>") [] s.observer

-- What a lookup meets: the context, the clock where the cache is read, the server by the URL that is
-- asked, and the clock where the answer is kept.
pub record HttpEnv : Type 0 where
  pub ctx_err : Option Error
  pub cached_now : Time
  pub server : String → ℕ → Attempt
  pub stored_now : Time

pub data CacheRead : Type 0 where
  hit : CertStatus → CacheRead
  not_cached : Dict HttpCacheEntry → CacheRead

abbrev read_entry : String → Time → Dict HttpCacheEntry → Option HttpCacheEntry → CacheRead
read_entry key now cache none = not_cached cache
read_entry key now cache (some entry) =
    if before now entry.expires_at then hit entry.status else not_cached (erase key cache)

-- The cache is read only while the source is healthy; an entry that has expired is deleted.
unfoldable pub read_cache : String → Time → HttpSource → CacheRead
read_cache key now s =
    if s.healthy then read_entry key now s.cache (lookup key s.cache) else not_cached s.cache

-- The URL of a serial number.
unfoldable pub url_of : HttpSource → ℤ → String
unfolding replace_all to_upper_hex
url_of s serial = s.base_url <> replace_all s.mapping.path_template "{serial}" (to_upper_hex serial)

-- `GetStatus` behind the fetch.
unfoldable pub concluded :
    String → Time → Option Metrics → Result CertStatus → HttpSource → Result CertStatus × HttpSource
unfolding classify_http_source_error
concluded key stored_now observer (err e) s = (
  err e,
  record s {
    healthy = false;
    observer =
        reported (record_source_error "http" (classify_http_source_error (some e)))
          (reported (record_source_latency "http") observer);
  },
)
concluded key stored_now observer (ok cs) s = (
  ok cs,
  record s {
    healthy = true;
    cache =
        if ltb_ℤ (pos 0) s.cache_ttl
        then insert key (record { status = cs; expires_at = stored_now +ℤ s.cache_ttl }) s.cache
        else s.cache;
    observer = reported (record_source_latency "http") observer;
  },
)

abbrev pub fetched : HttpEnv → ℤ → HttpSource → Result CertStatus × HttpSource
fetched env serial s =
    let o = fetch_with_retry s (env.server (url_of s serial)) in
    concluded (to_decimal serial) env.stored_now o.observer o.result s

unfoldable pub after_read : HttpEnv → ℤ → HttpSource → CacheRead → Result CertStatus × HttpSource
unfolding concluded
after_read env serial s (hit cs) = (ok cs, s)
after_read env serial s (not_cached cache) = fetched env serial (record s { cache = cache })

unfoldable pub get_status : HttpEnv → ℤ → HttpSource → Result CertStatus × HttpSource
unfolding after_read fetch_with_retry read_cache
get_status env serial s = elim env.ctx_err [
  | some e ↦ (err e, s)
  | none ↦ after_read env serial s (read_cache (to_decimal serial) env.cached_now s)
]

abbrev pub some_status : Result CertStatus → Result (Option CertStatus)
some_status (ok cs) = ok (some cs)
some_status (err e) = err e

-- `HTTPSource` as a backend. It does not look at the issuer.
abbrev pub http_source : Source
http_source = record {
  State = HttpSource;
  Env = HttpEnv;
  get_status =
      λ env serial issuer s. (some_status (get_status env serial s).0, (get_status env serial s).1);
  name = "http";
  healthy = λ now s. s.healthy;
}
