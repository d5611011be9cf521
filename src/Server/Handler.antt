-- ===== src/Server/Handler.antt =====
-- internal/server/handler.go: the HTTP handlers of the responder and of its health.
pub mod Requests
pub mod Encodings
pub mod Replies
use ocsp.Base.{
  ℕ, zero, suc, ◌/◌, String, ◌<>◌, Bool, true, false, not, Option, none, some, List, [], ◌∷◌, ◌==◌,
  ◌&&◌, ◌||◌, length, leb, ltb, eqb, if◌then◌else◌,
}
use ocsp.Base.Int.{ℤ, pos, negsuc, ◌-ℤ◌}
use ocsp.Go.Time.{Time, Duration, second}
use ocsp.Go.Numerals.{to_decimal}
use ocsp.Go.Base64.{
  Encoding, std_encoding, raw_std_encoding, url_encoding, raw_url_encoding, decode, encoded_len,
}
use ocsp.Go.Errors.{Error, text, wrap, Result, ok, err, guard, ◌>>=◌, ◌>>◌}
use ocsp.Go.X509.{Bytes}
use ocsp.Source.{Source}
use ocsp.Signer
use ocsp.Signer.{valid, days_until_expiry, get_expiry_status, expiry_status_string}
use ocsp.Server.Metrics.{Metrics, record_request}
use ocsp.Responder.Binding.{Externals}
use ocsp.Responder.Handle
use ocsp.Responder.Handle.{Responder, Call, handle, recorded}

abbrev pub max_ocsp_request_size : ℕ
max_ocsp_request_size = 10240

-- 13656: four characters for each three bytes begun
abbrev pub max_ocsp_get_request_size : ℕ
max_ocsp_get_request_size = encoded_len max_ocsp_request_size

-- `ocspGetEncodings`
abbrev pub ocsp_get_encodings : List Encoding
ocsp_get_encodings = std_encoding ∷ raw_std_encoding ∷ url_encoding ∷ raw_url_encoding ∷ []

-- The body of a request: what can be read of it, and the error in which that ends, if it does.
pub record Body : Type 0 where
  pub content : Bytes
  pub broken : Option Error

-- `path_value` is the wildcard `request` of the route, percent-decoded; a text of Go is its bytes.
pub record HttpRequest : Type 0 where
  pub method : String
  pub body : Body
  pub path_value : Bytes

pub data Content : Type 0 where
  der : Bytes → Content
  message : String → Content
  no_content : Content

pub record HttpReply : Type 0 where
  pub status_code : ℕ
  pub cache_control : Option String
  pub content_type : Option String
  pub content : Content

unfoldable pub take {ℓ} : {A : Type ℓ} → ℕ → List A → List A
take zero xs = []
take (suc n) [] = []
take (suc n) (x ∷ xs) = x ∷ take n xs

abbrev ended : Option Error → Bytes → Result Bytes
ended none content = ok content
ended (some e) content = err e

-- `io.ReadAll(io.LimitReader(body, n))`: an error behind the limit is not met.
unfoldable pub read_limited : ℕ → Body → Result Bytes
unfolding take
read_limited n body =
    if leb n (length body.content) then ok (take n body.content) else ended body.broken body.content

-- `http.Error`, which leaves `Cache-Control` as it is
abbrev pub http_error : Option String → String → ℕ → HttpReply
http_error cache_control content status_code = record {
  status_code = status_code;
  cache_control = cache_control;
  content_type = some "text/plain; charset=utf-8";
  content = message content;
}

-- `int(d.Seconds())`, which rounds towards zero
unfoldable pub whole_seconds : Duration → ℤ
whole_seconds (pos n) = pos (n / second)
whole_seconds (negsuc n) = pos 0 -ℤ pos (suc n / second)

-- `w.WriteHeader(http.StatusMethodNotAllowed)`
abbrev pub method_not_allowed : HttpReply
method_not_allowed = record {
  status_code = 405;
  cache_control = none;
  content_type = none;
  content = no_content;
}

-- What the switch on the method makes of a request: its bytes, with the `Cache-Control` of the answer, or
-- the reply that ends it.
pub data Requested : Type 0 where
  requested : Option String → Bytes → Requested
  refused : HttpReply → Requested

abbrev pub posted : Result Bytes → Requested
posted (err e) = refused (http_error none "failed to read body" 500)
posted (ok body) =
    if ltb max_ocsp_request_size (length body)
    then refused (http_error none "request too large" 413)
    else requested none body

abbrev pub got : Duration → Result Bytes → Requested
got cache_ttl (err e) = refused (http_error none "malformed request" 400)
got cache_ttl (ok b) = requested (some ("max-age=" <> to_decimal (whole_seconds cache_ttl))) b

-- The loop over the encodings: the first that decodes the text.
unfoldable pub first_decoded : List Encoding → Bytes → Option Bytes
unfolding decode
first_decoded [] enc = none
first_decoded (e ∷ more) enc =
    let rest = first_decoded more enc in elim (decode e enc) [ some b ↦ some b | none ↦ rest ]

-- `decodeOCSPGetRequest`
unfoldable pub decode_ocsp_get_request : Bytes → Result Bytes
unfolding first_decoded
decode_ocsp_get_request enc = do
  guard (not (eqb (length enc) 0)) (text "ocsp-responder/server: empty OCSP GET request")
  guard (leb (length enc) max_ocsp_get_request_size)
      (text "ocsp-responder/server: OCSP GET request exceeds the limit of encoded bytes")
  elim (first_decoded ocsp_get_encodings enc) [
    | some b ↦ ok b
    | none ↦ err (text "ocsp-responder/server: OCSP GET request is not valid base64")
  ]

unfoldable pub request_der : Duration → HttpRequest → Requested
unfolding read_limited decode_ocsp_get_request whole_seconds
request_der cache_ttl q =
    if q.method == "POST"
    then posted (read_limited (suc max_ocsp_request_size) q.body)
    else if q.method == "GET"
    then got cache_ttl (decode_ocsp_get_request q.path_value)
    else refused method_not_allowed

abbrev pub status_text : Option ℕ → String
status_text none = "error"
status_text (some n) = if eqb n 0 then "good" else if eqb n 1 then "revoked" else "unknown"

-- `strings.ToLower` of the two methods that get here
abbrev pub lower : String → String
lower method = if method == "POST" then "post" else "get"

-- `parse_status` is `ocsp.ParseResponse` of golang.org/x/crypto, up to the status.
module _ (parse_status : Bytes → Option ℕ) where
  -- `parseOCSPStatus`
  unfoldable pub parse_ocsp_status : Bytes → String
  parse_ocsp_status b = status_text (parse_status b)

  module _ (x : Externals) (S : Source) (sgn : Handle.Signer) where
    unfoldable pub replied :
        String → Option String → Result Bytes × Responder S → HttpReply × Responder S
    unfolding parse_ocsp_status
    replied method cache_control (err e, r) = (
      http_error cache_control "malformed request" 400,
      record r { metrics = recorded (record_request method "error") r.metrics },
    )
    replied method cache_control (ok out, r) = (
      record {
        status_code = 200;
        cache_control = cache_control;
        content_type = some "application/ocsp-response";
        content = der out;
      },
      record r { metrics = recorded (record_request method (parse_ocsp_status out)) r.metrics },
    )

    unfoldable pub answered : Call S → String → Requested → Responder S → HttpReply × Responder S
    unfolding replied handle
    answered call method (refused reply) r = (reply, r)
    answered call method (requested cache_control b) r =
        replied method cache_control (handle x S sgn call b r)

    -- `ServeOCSP`. The handler's metrics are the responder's, as `main` passes them on.
    unfoldable pub serve_ocsp :
        Duration → Call S → HttpRequest → Responder S → HttpReply × Responder S
    unfolding request_der answered
    serve_ocsp cache_ttl call q r = answered call (lower q.method) (request_der cache_ttl q) r

-- The payload of `ServeHealth`
pub record Health : Type 0 where
  pub status : String
  pub signer_valid : Bool
  pub signer_expires_in_days : ℤ
  pub signer_expiry_status : String
  pub source : String
  pub source_healthy : Bool

-- `ServeHealth`, with all its readings of the clock at one time
unfoldable pub serve_health : (S : Source) → Time → Signer.Signer → S.State → ℕ × Health
unfolding valid days_until_expiry get_expiry_status expiry_status_string
serve_health S now sgn source =
    let unhealthy = not (valid now sgn) || not (S.healthy now source) in
    (
      if unhealthy then 503 else 200,
      record {
        status = if unhealthy then "unhealthy" else "ok";
        signer_valid = valid now sgn;
        signer_expires_in_days = days_until_expiry now sgn;
        signer_expiry_status = expiry_status_string (get_expiry_status now sgn);
        source = S.name;
        source_healthy = S.healthy now source;
      },
    )
