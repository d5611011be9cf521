-- ===== src/Responder/Handle/Backend.antt =====
-- What a request leaves of the backend.
use ocsp.Base.{Option, none, some, ◌≡◌, refl}
use ocsp.Base.Int.{ℤ}
use ocsp.Go.Time.{Time}
use ocsp.Go.Errors.{Result, ok, err}
use ocsp.Go.X509.{Bytes}
use ocsp.Source.{Source, Status}
use ocsp.Responder.Binding.{Externals, Request}
use ocsp.Responder.Cache.{Cache}
use ocsp.Responder.Handle.{Signer, Responder, Call, admit, handle, store_signed, look_up, serve}

module _ (x : Externals) (S : Source) (sgn : Signer) where
  store_signed-source :
      (call : Call S) (serial : ℤ) (status : Status) (res : Result (Bytes × Time)) (r : Responder S)
      → (store_signed x S sgn call serial status res r).1.source ≡ r.source
  unfolding store_signed
  store_signed-source call serial status (err e) r = refl
  store_signed-source call serial status (ok _) r = refl

  -- A request keeps what every lookup that it may make of the backend keeps.
  module _ (R : S.State → Type 0) (call : Call S)
      (keeps : (serial : ℤ) (s : S.State)
        → R s
        → R (S.get_status call.source_env serial sgn.issuer_cert s).1) where
    look_up-source :
        (serial : ℤ) (found : Option Bytes × Cache) (r : Responder S)
        → R r.source
        → R (look_up x S sgn call serial found r).1.source
    unfolding look_up
    look_up-source serial (some out, cache) r q = q
    look_up-source serial (none, cache) r q =
        rw (store_signed-source call serial _) (keeps serial r.source q)

    serve-source :
        (req : Result Request) (r : Responder S)
        → R r.source
        → R (serve x S sgn call req r).1.source
    unfolding serve
    serve-source (err e) r q = q
    serve-source (ok req) r q = look_up-source req.serial_number _ r q

    pub handle-source :
        (request_der : Bytes) (r : Responder S)
        → R r.source
        → R (handle x S sgn call request_der r).1.source
    unfolding handle
    handle-source request_der r q = serve-source (admit x S sgn call.ctx_err request_der) r q
