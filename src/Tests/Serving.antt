-- ===== src/Tests/Serving.antt =====
-- The HTTP handlers.
use ocsp.Base.{
  ◌+◌, ◌≤◌, ◌<>◌, ℕ, zero, suc, ap, String, true, Option, none, some, [], ◌∷◌, ◌==◌, ◌≡◌, ◌↔◌, inr,
  refl, arith, length, if◌then◌else◌,
}
use ocsp.Base.Int.{pos, ◌<ℤ◌}
use ocsp.Go.Numerals.{to_decimal}
use ocsp.Go.Errors.{ok}
use ocsp.Go.X509.{Bytes}
use ocsp.Source.File.{file_source, healthy}
use ocsp.Responder.Handle.{Responder, new_responder, handle}
use ocsp.Server.Metrics.{new_metrics}
use ocsp.Server.Handler.{
  Body, decode_ocsp_get_request, whole_seconds, max_ocsp_request_size, HttpRequest, requested,
  request_der, serve_ocsp, serve_health,
}
use ocsp.Server.Handler.Requests.{IsTooLarge}
use ocsp.Server.Handler.Encodings.{
  decode_ocsp_get_request-decode, length-decode_ocsp_get_request, request_der-encode,
}
use ocsp.Go.Base64.{decode, encode, std_encoding, raw_url_encoding}
use ocsp.Go.Base64.Alphabets.{std, raw_url}
use ocsp.Server.Handler.Replies.{
  Delivers, serve_ocsp_too_large, serve_ocsp-Delivers_iff, serve_health_iff,
}
use ocsp.Service.{as_signer}
use ocsp.Tests.Bench.{keys, sgn, parse_status, externals, at, call_at, source}

abbrev responder : Responder file_source
responder = new_responder file_source source (at 60) (pos 2) true (some new_metrics) (some 0)

abbrev get : Bytes → HttpRequest
get path_value = record {
  method = "GET";
  body = record { content = []; broken = none };
  path_value = path_value;
}

-- `CA==`
abbrev encoded_8 : Bytes
encoded_8 = b'C' ∷ b'A' ∷ b'=' ∷ b'=' ∷ []

zeros : ℕ → Bytes
zeros zero = []
zeros (suc n) = 0 ∷ zeros n

length-zeros : (n : ℕ) → length (zeros n) ≡ n
unfolding zeros
length-zeros zero = refl
length-zeros (suc n) = ap suc (length-zeros n)

serve_ocsp-Delivers_iff_example :
    Delivers
      (serve_ocsp parse_status externals file_source
        (as_signer keys sgn)
        (at 60)
        (call_at 300)
        (get encoded_8)
        responder).0
      (0 ∷ [])
    ↔ ((cache_control : Option String) × (b : Bytes) × (request_der (at 60) (get encoded_8)
          ≡ requested cache_control b)
        × ((handle externals file_source (as_signer keys sgn) (call_at 300) b responder).0
            ≡ ok (0 ∷ [])))
serve_ocsp-Delivers_iff_example =
    serve_ocsp-Delivers_iff parse_status externals file_source (as_signer keys sgn) (at 60)
      (call_at 300) (get encoded_8) responder (0 ∷ [])

serve_health_iff_example : ((serve_health file_source (at 300) sgn source).0 ≡ 200) ↔ (
    (sgn.cert.not_before <ℤ at 300)
    × (at 300 <ℤ sgn.cert.not_after)
    × (healthy (at 300) source ≡ true))
serve_health_iff_example = serve_health_iff file_source (at 300) sgn source

-- A text of 13657 bytes is one byte past the limit.
abbrev long : HttpRequest
long = get (zeros 13657)

long-IsTooLarge : IsTooLarge long
long-IsTooLarge = inr (refl, let h = length-zeros 13657 in omega arith)

serve_ocsp_too_large_example :
    ((serve_ocsp parse_status externals file_source
        (as_signer keys sgn)
        (at 60)
        (call_at 300)
        long
        responder).1
      ≡ responder)
    × ((serve_ocsp parse_status externals file_source
          (as_signer keys sgn)
          (at 60)
          (call_at 300)
          long
          responder).0.status_code
        ≡ (if long.method == "POST" then 413 else 400))
serve_ocsp_too_large_example =
    serve_ocsp_too_large parse_status externals file_source (as_signer keys sgn) (at 60)
      (call_at 300) long responder long-IsTooLarge

unpadded_8 : decode raw_url_encoding (b'C' ∷ b'A' ∷ []) ≡ some (8 ∷ [])
unfolding decode
unpadded_8 = refl

decode_ocsp_get_request-decode_example : decode_ocsp_get_request (b'C' ∷ b'A' ∷ []) ≡ ok (8 ∷ [])
decode_ocsp_get_request-decode_example =
    decode_ocsp_get_request-decode (b'C' ∷ b'A' ∷ []) (8 ∷ []) raw_url (omega arith) (omega arith)
      unpadded_8

decode_ocsp_get_request-decode_8 : decode_ocsp_get_request (b'C' ∷ b'A' ∷ []) ≡ ok (8 ∷ [])
decode_ocsp_get_request-decode_8 =
    decode_ocsp_get_request-decode (b'C' ∷ b'A' ∷ []) (8 ∷ []) raw_url (omega arith) (omega arith)
      unpadded_8

length-decode_ocsp_get_request_example : length {A = ℕ} (8 ∷ []) ≤ max_ocsp_request_size + 2
length-decode_ocsp_get_request_example =
    length-decode_ocsp_get_request (b'C' ∷ b'A' ∷ []) (8 ∷ []) decode_ocsp_get_request-decode_8

request_der-encode_example :
    (request_der (at 60) (record {
      method = "POST";
      body = record { content = 8 ∷ []; broken = none };
      path_value = [];
    })
      ≡ requested none (8 ∷ []))
    × ((body : Body)
        → request_der
            (at 60)
            (record { method = "GET"; body = body; path_value = encode std_encoding (8 ∷ []) })
          ≡ requested (some ("max-age=" <> to_decimal (whole_seconds (at 60)))) (8 ∷ []))
request_der-encode_example =
    request_der-encode (at 60) (8 ∷ []) std (omega arith, tt) (omega arith) (omega arith)
