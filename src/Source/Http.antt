-- ===== src/Source/Http.antt =====
-- internal/source/http.go: a backend that asks a CA's REST API. The mapping of one answer, and the
-- source's state; the retries and lookups are the child `Fetch`.
pub mod Fetch
pub mod Answers
pub mod Retries
pub mod Lookups
pub mod Kept
pub mod Persistence
use ocsp.Go.Strings.{trim_right_slashes}
use ocsp.Base.{
  ℕ, String, Bool, true, false, Option, none, some, List, [], ◌∷◌, not, ◌==◌, ◌||◌, eqb,
  if◌then◌else◌,
}
use ocsp.Base.Int.{ℤ, pos, leb_ℤ}
use ocsp.Base.Dict.{Dict, lookup}
use ocsp.Go.Time.{Time, Duration, zero_time}
use ocsp.Go.Errors.{
  Error, text, wrap, Result, ok, err, is_deadline_exceeded, is_canceled, guard, wrap_error, check,
  ◌>>=◌, ◌>>◌,
}
use ocsp.Source.{Status, good, revoked, unknown, RevocationInfo, CertStatus}
use ocsp.Server.Metrics.{Metrics}

pub record ResponseMapping : Type 0 where
  pub path_template : String
  pub status_field : String
  pub good_values : List String
  pub revoked_values : List String

pub record HttpCacheEntry : Type 0 where
  pub status : CertStatus
  pub expires_at : Time

-- `observer` is the metrics that the source reports to, if it has an observer. Of these it alone
-- changes the latencies, the retries and the errors.
pub record HttpSource : Type 0 where
  pub base_url : String
  pub mapping : ResponseMapping
  pub max_attempts : ℤ
  pub backoff : Duration
  pub cache : Dict HttpCacheEntry
  pub cache_ttl : Duration
  pub healthy : Bool
  pub observer : Option Metrics

-- A value of the decoded JSON object; only texts are told apart.
pub data JsonValue : Type 0 where
  json_string : String → JsonValue
  json_other : JsonValue

-- The answer to a GET: its status code, and what decoding its body gives.
pub record HttpResponse : Type 0 where
  pub status_code : ℕ
  pub body : Result (Dict JsonValue)

-- `val.(string)`, which is empty for any other value
abbrev pub string_of : JsonValue → String
string_of (json_string s) = s
string_of json_other = ""

unfoldable pub contains : List String → String → Bool
contains [] val = false
contains (v ∷ list) val = v == val || contains list val

abbrev pub bare : Status → CertStatus
bare status = record { status = status; revocation_info = none; source_next_update = zero_time }

abbrev pub revoked_at : Time → CertStatus
revoked_at now = record {
  status = revoked;
  revocation_info = some (record { revoked_at = now; reason = 0 });
  source_next_update = zero_time;
}

-- What `fetchOnce` returns: a status, which may be one that the mapping does not cover and that is
-- reported, or an error after which it is tried again or not.
pub data Fetched : Type 0 where
  mapped unmapped : CertStatus → Fetched
  gives_up retries : Error → Fetched

unfoldable pub status_of_value : ResponseMapping → Time → Option JsonValue → Fetched
unfolding contains
status_of_value mapping now none = unmapped (bare unknown)
status_of_value mapping now (some val) =
    if contains mapping.good_values (string_of val)
    then mapped (bare good)
    else if contains mapping.revoked_values (string_of val)
    then mapped (revoked_at now)
    else unmapped (bare unknown)

unfoldable pub status_of_body : ResponseMapping → Time → Result (Dict JsonValue) → Fetched
unfolding status_of_value
status_of_body mapping now (err e) = gives_up (wrap "ocsp-responder/source: decoding response" e)
status_of_body mapping now (ok body) =
    status_of_value mapping now (lookup mapping.status_field body)

unfoldable pub status_of_response : ResponseMapping → Time → Result HttpResponse → Fetched
unfolding status_of_body
status_of_response mapping now (err e) = retries (wrap "ocsp-responder/source: http get" e)
status_of_response mapping now (ok resp) =
    if eqb resp.status_code 404
    then mapped (bare unknown)
    else if eqb resp.status_code 200
    then status_of_body mapping now resp.body
    else retries (text "ocsp-responder/source: unexpected status code")

-- `classifyHTTPSourceError`
unfoldable pub classify_http_source_error : Option Error → String
classify_http_source_error none = "none"
classify_http_source_error (some e) =
    if is_deadline_exceeded e
    then "timeout"
    else if is_canceled e
    then "canceled"
    else "transport_or_upstream"

abbrev or_default : String → String → String
or_default s d = if s == "" then d else s

abbrev values_or : List String → List String → List String
values_or [] d = d
values_or (v ∷ list) d = v ∷ list

-- The defaults that `NewHTTPSource` puts into the mapping.
unfoldable pub with_defaults : ResponseMapping → ResponseMapping
with_defaults mapping = record {
  path_template = or_default mapping.path_template "/1.0/certificates/{serial}";
  status_field = or_default mapping.status_field "status";
  good_values = values_or mapping.good_values ("active" ∷ "valid" ∷ []);
  revoked_values = values_or mapping.revoked_values ("revoked" ∷ []);
}

-- The root certificate's file and `AppendCertsFromPEM`, where a file is given.
abbrev pub check_root_cert : String → Result (List ℕ) → (List ℕ → Bool) → Result (Unit {0})
check_root_cert root_cert_file file append_certs = if root_cert_file == "" then ok tt else do
  pem ← wrap_error "ocsp-responder/source: reading root cert file" file
  guard (append_certs pem) (text "ocsp-responder/source: no valid PEM certificates found")

-- `NewHTTPSource`, without the HTTP client that it makes. Half a second is the default of the first
-- wait, three the default of the attempts.
unfoldable pub new_http_source :
    String
    → String
    → Result (List ℕ)
    → (List ℕ → Bool)
    → ResponseMapping
    → ℤ
    → Duration
    → Duration
    → Result HttpSource
unfolding with_defaults trim_right_slashes
new_http_source base_url root_cert_file file append_certs mapping max_retries retry_backoff
      cache_ttl =
    do
      guard (not (base_url == ""))
          (text "ocsp-responder/source: HTTPSource requires a non-empty base URL")
      check_root_cert root_cert_file file append_certs
      ok (record {
        base_url = trim_right_slashes base_url;
        mapping = with_defaults mapping;
        max_attempts = if leb_ℤ max_retries (pos 0) then pos 3 else max_retries;
        backoff = if leb_ℤ retry_backoff (pos 0) then pos 500_000_000 else retry_backoff;
        cache = [];
        cache_ttl = cache_ttl;
        healthy = true;
        observer = none;
      })

-- `SetObserver`
unfoldable pub set_observer : Option Metrics → HttpSource → HttpSource
set_observer observer s = record s { observer = observer }
