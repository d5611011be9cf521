-- ===== src/Server/Handler/Replies.antt =====
-- When the handlers answer with 200, and what becomes of a request that is too large.
use ocsp.Base.{
  ℕ, String, true, Option, ◌==◌, ◌≡◌, ◌≢◌, ◌↔◌, inl, inr, refl, arith, eq_iff, ◌∙◌, ap, sym,
  if◌then◌else◌,
}
use ocsp.Base.Int.{◌<ℤ◌}
use ocsp.Go.Time.{Time, Duration}
use ocsp.Go.Errors.{Result, ok, err, ok-injective}
use ocsp.Go.X509.{Bytes}
use ocsp.Source.{Source}
use ocsp.Signer
use ocsp.Signer.{valid}
use ocsp.Responder.Binding.{Externals}
use ocsp.Responder.Handle
use ocsp.Responder.Handle.{Responder, Call, handle}
use ocsp.Server.Handler.Requests.{
  IsTooLarge, request_der-post, request_der-refused, decode_too_large, read_limited-too_large,
  got_refused,
}
use ocsp.Server.Handler.{
  HttpRequest, HttpReply, Requested, requested, refused, request_der, decode_ocsp_get_request,
  serve_ocsp, answered, replied, serve_health, der, lower,
}

der-injective : {a b : Bytes} → der a ≡ der b → a ≡ b
der-injective h = cc

-- The answer carries these bytes with status 200.
abbrev pub Delivers : HttpReply → Bytes → Type 0
Delivers reply out = (reply.status_code ≡ 200) × (reply.content ≡ der out)

module _ (parse_status : Bytes → Option ℕ) (x : Externals) (S : Source) (sgn : Handle.Signer) where
  -- A POST whose body is past 10240 bytes is refused with 413, a GET whose text in the path is past
  -- 13656 bytes with 400, and the responder stays as it is.
  pub serve_ocsp_too_large :
      (ttl : Duration) (call : Call S) (q : HttpRequest) (r : Responder S)
      → IsTooLarge q
      → ((serve_ocsp parse_status x S sgn ttl call q r).1 ≡ r)
        × ((serve_ocsp parse_status x S sgn ttl call q r).0.status_code
            ≡ (if q.method == "POST" then 413 else 400))
  unfolding serve_ocsp answered
  serve_ocsp_too_large ttl call q r (inl (post, h)) =
      let is_post = (eq_iff q.method "POST").1 post in
      rw (request_der-post ttl q is_post, read_limited-too_large q.body h, is_post) (refl, refl)
  serve_ocsp_too_large ttl call q r (inr (get, h)) =
      rw
        (
          get,
          got_refused ttl (decode_ocsp_get_request q.path_value)
              (λ b. decode_too_large q.path_value b h),
        )
        (refl, refl)

  replied-ok :
      (method : String) (cache_control : Option String) (p : Result Bytes × Responder S)
      → (replied parse_status x S sgn method cache_control p).0.status_code ≡ 200
      → (out : Bytes) × (p.0 ≡ ok out)
        × ((replied parse_status x S sgn method cache_control p).0.content ≡ der out)
  unfolding replied
  replied-ok method cache_control (err e, r) h = absurd (omega arith)
  replied-ok method cache_control (ok out, r) h = (out, refl, refl)

  replied-Delivers :
      (method : String) (cache_control : Option String) (p : Result Bytes × Responder S)
      (out : Bytes)
      → p.0 ≡ ok out
      → Delivers (replied parse_status x S sgn method cache_control p).0 out
  unfolding replied
  replied-Delivers method cache_control (err e, r) out h = absurd (cc)
  replied-Delivers method cache_control (ok out', r) out h = (refl, ap der (ok-injective h))

  answered-ok :
      (call : Call S) (method : String) (req : Requested) (r : Responder S)
      → ((reply : HttpReply) → req ≡ refused reply → reply.status_code ≢ 200)
      → (answered parse_status x S sgn call method req r).0.status_code ≡ 200
      → (cache_control : Option String) × (b out : Bytes) × (req ≡ requested cache_control b)
        × ((handle x S sgn call b r).0 ≡ ok out)
        × ((answered parse_status x S sgn call method req r).0.content ≡ der out)
  unfolding answered
  answered-ok call method (refused reply) r not_200 h = absurd (not_200 reply refl h)
  answered-ok call method (requested cache_control b) r not_200 h =
      let (out, handled, content) = replied-ok method cache_control (handle x S sgn call b r) h in
      (cache_control, b, out, refl, handled, content)

  -- The handler answers with status 200 exactly if the method's way of carrying a request gives one
  -- and the responder answers it, and then the answer's content is the responder's.
  pub serve_ocsp-Delivers_iff :
      (ttl : Duration) (call : Call S) (q : HttpRequest) (r : Responder S) (out : Bytes)
      → Delivers (serve_ocsp parse_status x S sgn ttl call q r).0 out ↔ (
          (cache_control : Option String) × (b : Bytes) × (request_der ttl q
            ≡ requested cache_control b)
          × ((handle x S sgn call b r).0 ≡ ok out))
  unfolding serve_ocsp answered
  serve_ocsp-Delivers_iff ttl call q r out = (forward, backward)
    where
      forward :
          Delivers (serve_ocsp parse_status x S sgn ttl call q r).0 out
          → (cache_control : Option String) × (b : Bytes) × (request_der ttl q
              ≡ requested cache_control b)
            × ((handle x S sgn call b r).0 ≡ ok out)
      forward (is_200, content) =
          let (cache_control, b, out', gives, handled, content') =
            answered-ok call (lower q.method) (request_der ttl q) r (request_der-refused ttl q)
              is_200 in
          (cache_control, b, gives, handled ∙ ap ok (der-injective (sym content' ∙ content)))

      backward :
          (cache_control : Option String) × (b : Bytes) × (request_der ttl q
              ≡ requested cache_control b)
            × ((handle x S sgn call b r).0 ≡ ok out)
          → Delivers (serve_ocsp parse_status x S sgn ttl call q r).0 out
      backward (cache_control, b, gives, handled) =
          rw gives
            (replied-Delivers (lower q.method) cache_control (handle x S sgn call b r) out handled)

-- The health check answers with 200 exactly while the signer's certificate is in its validity and the
-- backend is healthy.
pub serve_health_iff :
    (S : Source) (now : Time) (sgn : Signer.Signer) (source : S.State)
    → ((serve_health S now sgn source).0 ≡ 200)
      ↔ ((sgn.cert.not_before <ℤ now) × (now <ℤ sgn.cert.not_after) × (S.healthy now source ≡ true))
unfolding serve_health valid
serve_health_iff S now sgn source = ground arith
