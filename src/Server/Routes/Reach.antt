-- ===== src/Server/Routes/Reach.antt =====
-- Which requests reach the OCSP handler, and that the two methods are two ways to ask one question.
use ocsp.Base.{
  ℕ, ◌<◌, String, false, Option, none, List, [], ◌∷◌, ◌≡◌, ◌≢◌, ◌⊎◌, refl, sym, arith, length, All,
  Bool-cases, inl, inr,
}
use ocsp.Go.Time.{Duration}
use ocsp.Go.Errors.{Result, ok, err}
use ocsp.Go.X509.{Bytes, bytes_equal, bytes_equal→eq}
use ocsp.Go.Base64.{Encoding, char, encode}
use ocsp.Go.Base64.Alphabets.{IsKnown}
use ocsp.Go.Base64.RoundTrip.{IsByte}
use ocsp.Source.{Source}
use ocsp.Responder.Binding.{Externals}
use ocsp.Responder.Handle
use ocsp.Responder.Handle.{Responder, Call, handle}
use ocsp.Server.Handler
use ocsp.Server.Handler.{
  Body, Content, HttpReply, Requested, requested, request_der, answered, serve_ocsp,
  max_ocsp_request_size,
}
use ocsp.Server.Handler.Encodings.{request_der-encode}
use ocsp.Server.Routes.{
  routed, ocsp_handler, route, best, match_path, health_path, metrics_path, Dispatched, replies,
  dispatch, dispatched,
}

bytes_equal-neq : (a b : Bytes) → b ≢ a → bytes_equal a b ≡ false
bytes_equal-neq a b h = elim (Bool-cases (bytes_equal a b)) [
  | inl same ↦ absurd (h (sym (bytes_equal→eq a b same)))
  | inr differs ↦ differs
]

-- A GET of any one segment but the two that the other handlers have reaches the OCSP handler.
route-get :
    (segment : Bytes)
    → segment ≢ health_path
    → segment ≢ metrics_path
    → route "GET" (segment ∷ []) ≡ routed ocsp_handler segment
unfolding route best match_path
route-get segment not_health not_metrics = simp (
  bytes_equal-neq health_path segment not_health,
  bytes_equal-neq metrics_path segment not_metrics,
)

-- 48 is the tag of a SEQUENCE, with which every DER request begins.
encode-head : (e : Encoding) (rest : Bytes) → (more : Bytes) × (encode e (48 ∷ rest) ≡ b'M' ∷ more)
unfolding encode char
encode-head e [] = (_, refl)
encode-head e (y ∷ []) = (_, refl)
encode-head e (y ∷ z ∷ rest) = (_, refl)

head-differs : {x y : ℕ} {xs ys : Bytes} → x < y ⊎ y < x → x ∷ xs ≢ y ∷ ys
head-differs h same = absurd (grind arith)

route-m :
    {segment : Bytes} (more : Bytes)
    → segment ≡ b'M' ∷ more
    → route "GET" (segment ∷ []) ≡ routed ocsp_handler segment
route-m more head =
    rw head (
      route-get (b'M' ∷ more) (head-differs (inl (omega arith))) (head-differs (inl (omega arith))))

-- The encoding of a DER request is neither of the two segments.
route-encode :
    (e : Encoding) (rest : Bytes)
    → route "GET" (encode e (48 ∷ rest) ∷ []) ≡ routed ocsp_handler (encode e (48 ∷ rest))
route-encode e rest = let (more, head) = encode-head e rest in route-m more head

-- Both are answered, with one status and one content, and leave the same backend and cache.
pub record SameAnswer {S : Source} (p q : Dispatched × Responder S) : Type 0 where
  pub post : HttpReply
  pub get : HttpReply
  pub posted : p.0 ≡ replies post
  pub got : q.0 ≡ replies get
  pub status_code : post.status_code ≡ get.status_code
  pub content : post.content ≡ get.content
  pub source : p.1.source ≡ q.1.source
  pub cache : p.1.cache ≡ q.1.cache

module _ (parse_status : Bytes → Option ℕ) (x : Externals) (S : Source) (sgn : Handle.Signer) where
  -- What the handler makes of an outcome is the same for both methods, but for the metrics and
  -- `Cache-Control`.
  replied-same :
      (m m' : String) (cc cc' : Option String) (p : Result Bytes × Responder S)
      → SameAnswer
          (let a = Handler.replied parse_status x S sgn m cc p in (replies a.0, a.1))
          (let b = Handler.replied parse_status x S sgn m' cc' p in (replies b.0, b.1))
  unfolding Handler.replied
  replied-same m m' cc cc' (err e, r) = record {
    post = _;
    got = refl;
    posted = refl;
    get = _;
    status_code = refl;
    content = refl;
    source = refl;
    cache = refl;
  }
  replied-same m m' cc cc' (ok out, r) = record {
    post = _;
    got = refl;
    posted = refl;
    get = _;
    status_code = refl;
    content = refl;
    source = refl;
    cache = refl;
  }

  -- A DER request of up to 10240 bytes is answered alike by the server, with the same status and the same
  -- bytes and with the same effect on the backend and the cache, whether a POST brings it in its body, to
  -- any path, or a GET in the path, in any of the four encodings.
  pub dispatch-SameAnswer :
      {e : Encoding} (ttl : Duration) (call : Call S) (r : Responder S) (rest : Bytes)
      (path : List Bytes) (body : Body)
      → IsKnown e
      → All IsByte rest
      → length rest < max_ocsp_request_size
      → SameAnswer
          (dispatch parse_status x S sgn ttl call
            (record {
              method = "POST";
              path = path;
              body = record { content = 48 ∷ rest; broken = none };
            })
            r)
          (dispatch parse_status x S sgn ttl call
            (record { method = "GET"; path = encode e (48 ∷ rest) ∷ []; body = body })
            r)
  unfolding dispatch dispatched serve_ocsp answered
  dispatch-SameAnswer {e} ttl call r rest path body known bytes le =
      let (post, get) =
        request_der-encode ttl (48 ∷ rest) known (omega arith, bytes) (omega arith) le in
      rw (route-encode e rest, post, get body)
        (replied-same "post" "get" _ _ (handle x S sgn call (48 ∷ rest) r))
