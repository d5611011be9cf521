-- ===== src/Responder/Handle/Counts.antt =====
-- What `Handle` counts: a hit or a miss for each request that is admitted, and for each miss one
-- request to the backend, as "ok" or as "error".
use ocsp.Base.{
  ℕ, ◌+◌, String, Bool, true, Option, none, some, ◌≡◌, refl, arith, if◌then◌else◌, ap, ◌∙◌, eq_iff,
}
use ocsp.Base.Int.{ℤ}
use ocsp.Go.Time.{Time}
use ocsp.Go.Errors.{Result, ok, err, is_ok}
use ocsp.Go.X509.{Bytes}
use ocsp.Source.{Source, CertStatus, Status}
use ocsp.Server.Metrics.{Metrics, record_cache_hit, record_cache_miss, record_source_request}
use ocsp.Responder.Binding.{Externals, Request}
use ocsp.Responder.Cache.{Cache}
use ocsp.Responder.Handle.{
  Signer, Responder, Call, admit, handle, serve, look_up, store_signed, recorded, source_result,
}

-- The requests to a backend, whatever came of them.
abbrev pub asked : String → Metrics → ℕ
asked name m = m.source_requests name "ok" + m.source_requests name "error"

-- `m'` has one more lookup of the cache than `m` if a request was admitted, and one more request to the
-- backend for each more miss.
pub record Counted (name : String) (admitted : Bool) (m m' : Metrics) : Type 0 where
  pub lookups :
      m'.cache_hits + m'.cache_misses ≡ m.cache_hits + m.cache_misses + (if admitted then 1 else 0)
  pub requests : asked name m' + m.cache_misses ≡ asked name m + m'.cache_misses

asked-source_result :
    (name : String) (a : Result (Option CertStatus)) (m : Metrics)
    → asked name (record_source_request name (source_result a) m) ≡ asked name m + 1
asked-source_result name (ok a) m = ground (arith, eq_iff name name)
asked-source_result name (err a) m = ground (arith, eq_iff name name)

module _ (x : Externals) (S : Source) (sgn : Signer) where
  store_signed-metrics :
      (call : Call S) (serial : ℤ) (status : Status) (res : Result (Bytes × Time)) (r : Responder S)
      → (store_signed x S sgn call serial status res r).1.metrics ≡ r.metrics
  unfolding store_signed
  store_signed-metrics call serial status (err e) r = refl
  store_signed-metrics call serial status (ok _) r = refl

  after_look_up : Call S → ℤ → Option Bytes → Responder S → Metrics → Metrics
  after_look_up call serial (some _) r m = record_cache_hit m
  after_look_up call serial none r m =
      record_source_request S.name
        (source_result (S.get_status call.source_env serial sgn.issuer_cert r.source).0)
        (record_cache_miss m)

  look_up-Counted :
      (call : Call S) (serial : ℤ) (found : Option Bytes × Cache) (r : Responder S) (m : Metrics)
      → r.metrics ≡ some m
      → (m' : Metrics) × ((look_up x S sgn call serial found r).1.metrics ≡ some m')
        × Counted S.name true m m'
  unfolding look_up after_look_up
  look_up-Counted call serial (some out, cache) r m h = (
    after_look_up call serial (some out) r m,
    rw h refl,
    record { lookups = omega arith; requests = omega arith },
  )
  look_up-Counted call serial (none, cache) r m h = (
    after_look_up call serial none r m,
    store_signed-metrics call serial _ _ _
        ∙ ap
            (λ kept.
              recorded
                (record_source_request S.name
                  (source_result (S.get_status call.source_env serial sgn.issuer_cert r.source).0))
                (recorded record_cache_miss kept))
            h,
    record {
      lookups = omega arith;
      requests = omega (
        arith,
        asked-source_result S.name (S.get_status call.source_env serial sgn.issuer_cert r.source).0
            (record_cache_miss m),
      );
    },
  )

  serve-Counted :
      (call : Call S) (admitted : Result Request) (r : Responder S) (m : Metrics)
      → r.metrics ≡ some m
      → (m' : Metrics) × ((serve x S sgn call admitted r).1.metrics ≡ some m')
        × Counted S.name (is_ok admitted) m m'
  unfolding serve
  serve-Counted call (err e) r m h =
      (m, h, record { lookups = omega arith; requests = omega arith })
  serve-Counted call (ok req) r m h = look_up-Counted call req.serial_number _ r m h

  -- Where metrics are kept, a request adds one to the hits or the misses exactly if it is admitted, and
  -- adds as many requests to the backend, as "ok" or as "error", as misses.
  pub handle-Counted :
      (call : Call S) (request_der : Bytes) (r : Responder S) (m : Metrics)
      → r.metrics ≡ some m
      → (m' : Metrics) × ((handle x S sgn call request_der r).1.metrics ≡ some m')
        × Counted S.name (is_ok (admit x S sgn call.ctx_err request_der)) m m'
  unfolding handle
  handle-Counted call request_der r m h =
      serve-Counted call (admit x S sgn call.ctx_err request_der) r m h
