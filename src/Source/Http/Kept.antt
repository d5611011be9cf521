-- ===== src/Source/Http/Kept.antt =====
-- What a source keeps while it is asked: what it was made with, and statuses that were heard.
use ocsp.Base.{ℕ, ◌<◌, String, Bool, [], ◌≡◌, ◌==◌, not, refl, sym, ap, ◌∙◌}
use ocsp.Base.Int.{ℤ, pos_part}
use ocsp.Base.Dict.{Dict, lookup}
use ocsp.Go.Time.{Duration}
use ocsp.Go.Errors.{Result, ok, bind-ok, guard, ok-injective}
use ocsp.Go.X509.{Bytes}
use ocsp.Source.{CertStatus, good}
use ocsp.Source.Http.{HttpSource, HttpCacheEntry, ResponseMapping, new_http_source, check_root_cert}
use ocsp.Source.Http.Fetch.{HttpEnv, Attempt, get_status, url_of}
use ocsp.Source.Http.Answers.{SaysGood, fetch_once-SaysGood}
use ocsp.Source.Http.Retries.{Given}
use ocsp.Source.Http.Lookups.{Heard, CacheHeard, KeepsHeard, get_status-KeepsHeard}

-- The server of the CA said `good` of a serial number in answer to one of the attempts at its URL.
pub record HeardGood (IsMet : (String → ℕ → Attempt) → Type 0) (made : HttpSource) (serial : ℤ)
    : Type 0 where
  pub server : String → ℕ → Attempt
  pub met : IsMet server
  pub number : ℕ
  pub bounded : number < pos_part made.max_attempts
  pub says : SaysGood made.mapping (server (url_of made serial) number)

-- What a source was made with does not change, and its cache has only what was heard.
pub record Keeps (IsMet : (String → ℕ → Attempt) → Type 0) (made s : HttpSource) : Type 0 where
  pub mapping : s.mapping ≡ made.mapping
  pub base_url : s.base_url ≡ made.base_url
  pub max_attempts : s.max_attempts ≡ made.max_attempts
  pub cached : CacheHeard IsMet made s.cache

Given-same :
    {m m' : ResponseMapping} {attempt attempt' : ℕ → Attempt} {n n' : ℕ} {cs : CertStatus}
    → m ≡ m'
    → attempt ≡ attempt'
    → n ≡ n'
    → Given m attempt n cs
    → Given m' attempt' n' cs
Given-same a b c given = rw (a, b, c) at given

module _ (IsMet : (String → ℕ → Attempt) → Type 0) (made : HttpSource) where
  url_of-made :
      (s : HttpSource) (serial : ℤ) → Keeps IsMet made s → url_of s serial ≡ url_of made serial
  unfolding url_of
  url_of-made s serial k = rw (k.base_url, k.mapping) refl

  pub Heard-made :
      (s : HttpSource) (serial : ℤ) (cs : CertStatus)
      → Keeps IsMet made s
      → Heard IsMet s serial cs
      → Heard IsMet made serial cs
  Heard-made s serial cs k (server, met, given) = (
    server,
    met,
    Given-same k.mapping (ap server (url_of-made s serial k)) (ap pos_part k.max_attempts) given,
  )

  made-Heard :
      (s : HttpSource) (serial : ℤ) (cs : CertStatus)
      → Keeps IsMet made s
      → Heard IsMet made serial cs
      → Heard IsMet s serial cs
  made-Heard s serial cs k (server, met, given) = (
    server,
    met,
    Given-same (sym k.mapping) (ap server (sym (url_of-made s serial k)))
        (ap pos_part (sym k.max_attempts)) given,
  )

  pub heard :
      (env : HttpEnv) (serial : ℤ) (s : HttpSource)
      → IsMet env.server
      → Keeps IsMet made s
      → KeepsHeard IsMet s serial (get_status env serial s)
  heard env serial s met k =
      get_status-KeepsHeard IsMet env serial s met
        (λ t entry at. made-Heard s t entry.status k (k.cached t entry at))

  pub get_status-Keeps :
      (env : HttpEnv) (serial : ℤ) (s : HttpSource)
      → IsMet env.server
      → Keeps IsMet made s
      → Keeps IsMet made (get_status env serial s).1
  get_status-Keeps env serial s met k =
      let h = heard env serial s met k in
      record {
        mapping = h.mapping ∙ k.mapping;
        base_url = h.base_url ∙ k.base_url;
        max_attempts = h.max_attempts ∙ k.max_attempts;
        cached = λ t entry at. Heard-made s t entry.status k (h.cached t entry at);
      }

  pub Heard-HeardGood :
      (serial : ℤ) (cs : CertStatus)
      → Heard IsMet made serial cs
      → cs.status ≡ good
      → HeardGood IsMet made serial
  Heard-HeardGood serial cs (server, met, given) is_good = record {
    server = server;
    met = met;
    number = given.number;
    bounded = given.bounded;
    says =
        fetch_once-SaysGood made.mapping (server (url_of made serial) given.number) cs given.given
          is_good;
  }

-- A new source has nothing in its cache.
pub new_http_source-empty :
    (base_url root_cert_file : String) (file : Result Bytes) (append_certs : Bytes → Bool)
    (mapping : ResponseMapping) (max_retries : ℤ) (retry_backoff cache_ttl : Duration)
    (made : HttpSource)
    → new_http_source base_url root_cert_file file append_certs mapping max_retries retry_backoff
        cache_ttl
      ≡ ok made
    → made.cache ≡ []
unfolding new_http_source
new_http_source-empty base_url root_cert_file file append_certs mapping max_retries retry_backoff
      cache_ttl made h =
    let (_, _, h1) = bind-ok (guard (not (base_url == "")) _) _ h in
    let (_, _, h2) = bind-ok (check_root_cert root_cert_file file append_certs) _ h1 in
    ap (λ (s : HttpSource). s.cache) (sym (ok-injective h2))

pub empty-CacheHeard :
    (IsMet : (String → ℕ → Attempt) → Type 0) (made : HttpSource) (cache : Dict HttpCacheEntry)
    → cache ≡ []
    → CacheHeard IsMet made cache
empty-CacheHeard IsMet made cache empty serial entry at = absurd (unfold lookup in cc)
