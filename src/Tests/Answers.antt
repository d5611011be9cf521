-- ===== src/Tests/Answers.antt =====
-- The CA's REST API.
use ocsp.Base.{ℕ, zero, suc, ◌≤◌, String, true, none, [], ◌∷◌, ◌≡◌, refl}
use ocsp.Base.Int.{pos, pos_part}
use ocsp.Base.Dict.{lookup}
use ocsp.Go.Errors.{Result, ok, err, deadline_exceeded, wrap}
use ocsp.Go.Numerals.{to_decimal}
use ocsp.Source.{good}
use ocsp.Source.Http.{HttpSource, ResponseMapping, HttpResponse, json_string, bare}
use ocsp.Source.Http.Fetch.{
  Attempt, HttpEnv, fetch_once, fetch_with_retry, get_status, url_of, read_cache, not_cached,
}
use ocsp.Source.Http.Answers.{Gives, SaysGood, fetch_once-SaysGood}
use ocsp.Source.Http.Retries.{requests, fetch_with_retry-Bounded}
use ocsp.Source.Http.Persistence.{GetsThrough, answered, asked_again, get_status-GetsThrough}
use ocsp.Source.Http.Lookups.{CacheHeard, KeepsHeard, get_status-KeepsHeard}
use ocsp.Tests.Bench.{at}

abbrev pub mapping : ResponseMapping
mapping = record {
  path_template = "/certs/{serial}";
  status_field = "status";
  good_values = "active" ∷ "V" ∷ [];
  revoked_values = "revoked" ∷ [];
}

abbrev source : HttpSource
source = record {
  base_url = "https://ca.example";
  mapping = mapping;
  max_attempts = pos 3;
  backoff = at 1;
  cache = [];
  cache_ttl = at 60;
  healthy = true;
  observer = none;
}

abbrev answers : Result HttpResponse → Attempt
answers answer = record {
  ctx_err = none;
  wait_err = none;
  request_err = none;
  answer = answer;
  now = at 100;
}

abbrev active : Attempt
active = answers (ok (record { status_code = 200; body = ok (("status", json_string "V") ∷ []) }))

-- The server fails once and then answers.
abbrev pub server : String → ℕ → Attempt
server url zero = answers (err deadline_exceeded)
server url (suc n) = active

abbrev pub env : HttpEnv
env = record { ctx_err = none; cached_now = at 100; server = server; stored_now = at 102 }

active-Gives : Gives (fetch_once mapping active) (bare good)
unfolding fetch_once lookup
active-Gives = refl

fetch_once-SaysGood_example : SaysGood mapping active
fetch_once-SaysGood_example = fetch_once-SaysGood mapping active (bare good) active-Gives refl

fetch_with_retry-Bounded_example :
    requests (fetch_with_retry source (server "")).acts ≤ pos_part source.max_attempts
fetch_with_retry-Bounded_example = fetch_with_retry-Bounded source (server "")

-- The server above is the one that was met.
abbrev pub IsMet : (String → ℕ → Attempt) → Type 0
IsMet s = s ≡ server

empty-CacheHeard : CacheHeard IsMet source []
unfolding lookup
empty-CacheHeard serial entry found = absurd (cc)

get_status-KeepsHeard_example : KeepsHeard IsMet source (pos 8) (get_status env (pos 8) source)
get_status-KeepsHeard_example = get_status-KeepsHeard IsMet env (pos 8) source refl empty-CacheHeard

-- The first attempt is retried, the second is answered.
through :
    GetsThrough source.mapping
      (env.server (url_of source (pos 8)))
      (bare good)
      0
      (pos_part source.max_attempts)
unfolding fetch_once lookup
through =
    asked_again 0 2 (wrap "ocsp-responder/source: http get" deadline_exceeded)
      (record { ctx_err = refl; wait_err = refl }) refl
      (answered 1 1 (record { ctx_err = refl; wait_err = refl }) refl)

missed : read_cache (to_decimal (pos 8)) env.cached_now source ≡ not_cached []
unfolding read_cache lookup
missed = refl

get_status-GetsThrough_example :
    ((get_status env (pos 8) source).0 ≡ ok (bare good))
    × ((get_status env (pos 8) source).1.healthy ≡ true)
get_status-GetsThrough_example =
    get_status-GetsThrough env (pos 8) source [] (bare good) refl missed through
