-- ===== src/Responder/Handle/Logs.antt =====
-- What `Handle` writes to the log.
use ocsp.Base.{true, false, none, some, ◌∷◌, ◌≡◌}
use ocsp.Base.Int.{ℤ}
use ocsp.Go.Time.{Time}
use ocsp.Go.Numerals.{to_decimal}
use ocsp.Go.Errors.{Error, Result, ok, err}
use ocsp.Go.X509.{Bytes}
use ocsp.Source.{Source}
use ocsp.Responder.Binding.{Externals, Request}
use ocsp.Responder.Cache.{Cache, get_at}
use ocsp.Responder.Handle.{Signer, Responder, Call, Line, serial_hex, status_string, verdict}

module _ (x : Externals) (S : Source) (sgn : Signer) (call : Call S) (r : Responder S) where
  -- The line for a serial number that was found in the cache.
  abbrev pub hit_line : ℤ → Line
  hit_line serial = record {
    serial = serial_hex serial;
    status = "cached";
    source = S.name;
    cache_hit = true;
  }

  -- The line for a serial number of which the backend was asked.
  abbrev pub miss_line : ℤ → Line
  miss_line serial = record {
    serial = serial_hex serial;
    status =
        status_string
          (verdict (S.get_status call.source_env serial sgn.issuer_cert r.source).0).status;
    source = S.name;
    cache_hit = false;
  }

  -- A failure adds no line; an answer from the cache, and one that was signed, add one.
  pub data IsLogged (admitted : Result Request) (p : Result Bytes × Responder S) : Type 0 where
    failed : (e : Error) → p.0 ≡ err e → p.1.log ≡ r.log → IsLogged admitted p
    from_cache :
        (req : Request) (out : Bytes)
        → admitted ≡ ok req
        → (get_at (to_decimal req.serial_number) call.looked_up r.cache).0 ≡ some out
        → p.0 ≡ ok out
        → p.1.log ≡ hit_line req.serial_number ∷ r.log
        → IsLogged admitted p
    from_source :
        (req : Request) (out : Bytes)
        → admitted ≡ ok req
        → (get_at (to_decimal req.serial_number) call.looked_up r.cache).0 ≡ none
        → p.0 ≡ ok out
        → p.1.log ≡ miss_line req.serial_number ∷ r.log
        → IsLogged admitted p
