-- ===== src/Server/Routes/Soundness.antt =====
-- What a request leaves of the backend and the cache, and what a reply with status 200 stands for.
use ocsp.Base.{ℕ, String, Option, ◌≡◌, refl, ◌≢◌, arith}
use ocsp.Base.Int.{ℤ}
use ocsp.Go.Time.{Duration}
use ocsp.Go.Errors.{Result, ok, err}
use ocsp.Go.X509.{Bytes}
use ocsp.Source.{Source}
use ocsp.Responder.Binding.{Externals}
use ocsp.Responder.Handle
use ocsp.Responder.Handle.{Responder, Call, handle}
use ocsp.Responder.Handle.Backend.{handle-source}
use ocsp.Responder.Handle.Provenance.{Holds, Signed, handle-Holds}
use ocsp.Server.Handler.{
  HttpReply, Requested, requested, refused, request_der, serve_ocsp, answered, replied,
}
use ocsp.Server.Handler.Replies.{Delivers, serve_ocsp-Delivers_iff}
use ocsp.Server.Routes.{
  Route, routed, not_routed, ocsp_handler, health_handler, metrics_handler, route, Incoming,
  replies, dispatch, dispatched, mux_refusal,
}

-- The source has the property `R`, and the cache only bytes that were signed where `Q` held.
pub record IsSound (S : Source) (sgn : Handle.Signer) (Q : S.Env → S.State → Type 0)
    (R : S.State → Type 0) (r : Responder S) : Type 0 where
  pub source : R r.source
  pub cache : Holds (Signed S sgn Q) r.cache

replies-injective : {a b : HttpReply} → replies a ≡ replies b → a ≡ b
replies-injective h = cc

not_refusal : (reply : HttpReply) → mux_refusal ≡ reply → reply.status_code ≢ 200
not_refusal reply same h = absurd (grind arith)

Delivers-same : {a b : HttpReply} {out : Bytes} → a ≡ b → Delivers b out → Delivers a out
Delivers-same same h = rw same h

module _ (parse_status : Bytes → Option ℕ) (x : Externals) (S : Source) (sgn : Handle.Signer)
    (Q : S.Env → S.State → Type 0) (R : S.State → Type 0) where
  replied-IsSound :
      (m : String) (cc : Option String) (p : Result Bytes × Responder S)
      → IsSound S sgn Q R p.1
      → IsSound S sgn Q R (replied parse_status x S sgn m cc p).1
  unfolding replied
  replied-IsSound m cc (err e, r) h = record { source = h.source; cache = h.cache }
  replied-IsSound m cc (ok out, r) h = record { source = h.source; cache = h.cache }

  answered-IsSound :
      (call : Call S) (m : String) (req : Requested) (r : Responder S)
      → ((b : Bytes) → IsSound S sgn Q R (handle x S sgn call b r).1)
      → IsSound S sgn Q R r
      → IsSound S sgn Q R (answered parse_status x S sgn call m req r).1
  unfolding answered
  answered-IsSound call m (refused reply) r k h = h
  answered-IsSound call m (requested cc b) r k h =
      replied-IsSound m cc (handle x S sgn call b r) (k b)

  dispatched-IsSound :
      (ttl : Duration) (call : Call S) (q : Incoming) (way : Route) (r : Responder S)
      → ((b : Bytes) → IsSound S sgn Q R (handle x S sgn call b r).1)
      → IsSound S sgn Q R r
      → IsSound S sgn Q R (dispatched parse_status x S sgn ttl call q way r).1
  unfolding dispatched serve_ocsp
  dispatched-IsSound ttl call q not_routed r k h = h
  dispatched-IsSound ttl call q (routed health_handler path_value) r k h = h
  dispatched-IsSound ttl call q (routed metrics_handler path_value) r k h = h
  dispatched-IsSound ttl call q (routed ocsp_handler path_value) r k h =
      answered-IsSound call _ _ r k h

  -- Every request keeps a sound responder sound, if `Q` holds of its lookup and `R` stays.
  pub dispatch-IsSound :
      (ttl : Duration) (call : Call S) (q : Incoming) (r : Responder S)
      → Q call.source_env r.source
      → ((serial : ℤ) (s : S.State)
          → R s
          → R (S.get_status call.source_env serial sgn.issuer_cert s).1)
      → IsSound S sgn Q R r
      → IsSound S sgn Q R (dispatch parse_status x S sgn ttl call q r).1
  unfolding dispatch
  dispatch-IsSound ttl call q r meets stays h =
      dispatched-IsSound ttl call q (route q.method q.path) r handled h
    where
      handled : (b : Bytes) → IsSound S sgn Q R (handle x S sgn call b r).1
      handled b = record {
        source = handle-source x S sgn R call stays b r h.source;
        cache = handle-Holds x S sgn Q call b r meets h.cache;
      }

module _ (parse_status : Bytes → Option ℕ) (x : Externals) (S : Source) (sgn : Handle.Signer) where
  -- The request that the OCSP handler was given, and the responder's answer to it.
  pub record Served (ttl : Duration) (call : Call S) (q : Incoming) (r : Responder S) (out : Bytes)
      : Type 0 where
    pub path_value : Bytes
    pub cache_control : Option String
    pub der : Bytes
    pub reached : route q.method q.path ≡ routed ocsp_handler path_value
    pub carried :
        request_der ttl (record { method = q.method; body = q.body; path_value = path_value })
        ≡ requested cache_control der
    pub handled : (handle x S sgn call der r).0 ≡ ok out

  dispatched-Served :
      (ttl : Duration) (call : Call S) (q : Incoming) (way : Route) (r : Responder S)
      (reply : HttpReply) (out : Bytes)
      → route q.method q.path ≡ way
      → (dispatched parse_status x S sgn ttl call q way r).0 ≡ replies reply
      → Delivers reply out
      → Served ttl call q r out
  unfolding dispatched
  dispatched-Served ttl call q not_routed r reply out reached h (is_200, content) =
      absurd (not_refusal reply (replies-injective h) is_200)
  dispatched-Served ttl call q (routed health_handler path_value) r reply out reached h delivers =
      absurd (cc)
  dispatched-Served ttl call q (routed metrics_handler path_value) r reply out reached h delivers =
      absurd (cc)
  dispatched-Served ttl call q (routed ocsp_handler path_value) r reply out reached h delivers =
      let delivered = Delivers-same (replies-injective h) delivers in
      let (cache_control, der, carried, handled) =
        (serve_ocsp-Delivers_iff parse_status x S sgn ttl call
            (record { method = q.method; body = q.body; path_value = path_value }) r out).0
          delivered in
      record {
        path_value = path_value;
        reached = reached;
        cache_control = cache_control;
        der = der;
        carried = carried;
        handled = handled;
      }

  -- A reply of the server with status 200 delivers the responder's answer to a request that it carried.
  pub dispatch-Served :
      (ttl : Duration) (call : Call S) (q : Incoming) (r : Responder S) (reply : HttpReply)
      (out : Bytes)
      → (dispatch parse_status x S sgn ttl call q r).0 ≡ replies reply
      → Delivers reply out
      → Served ttl call q r out
  unfolding dispatch
  dispatch-Served ttl call q r reply out h delivers =
      dispatched-Served ttl call q (route q.method q.path) r reply out refl h delivers
