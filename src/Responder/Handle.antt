-- ===== src/Responder/Handle.antt =====
-- `Responder` and `Handle` of internal/responder/responder.go. Handling one request is a function of
-- the responder's state and of what the request meets outside: its context, the clock, the backend's
-- surroundings.
pub mod Admission
pub mod Counts
pub mod Logs
pub mod Repeats
pub mod Answers
pub mod Backend
pub mod Provenance
use ocsp.Base.{ℕ, String, Bool, true, false, Option, none, some, List, [], ◌∷◌}
use ocsp.Base.Int.{ℤ}
use ocsp.Go.Time.{Time, Duration, zero_time}
use ocsp.Go.Numerals.{to_decimal}
use ocsp.Go.Hex.{bytes_of, encode_to_string}
use ocsp.Go.Errors.{Error, text, wrap, Result, ok, err, check, wrap_error, ◌>>=◌, ◌>>◌}
use ocsp.Go.X509.{Bytes, Certificate}
use ocsp.Source.{Source, CertStatus, RevocationInfo, Status, good, revoked, unknown}
use ocsp.Server.Metrics.{Metrics, record_cache_hit, record_cache_miss, record_source_request}
use ocsp.Responder.Binding.{Externals, Request, validate_issuer_binding}
use ocsp.Responder.Cache.{Cache, get_at, set_at}

-- The interface `signer`. A signed response comes with the next update that it carries.
pub record Signer : Type 0 where
  pub issuer_cert : Option Certificate
  pub create_response : ℤ → Status → Option RevocationInfo → Time → Time → Result (Bytes × Time)

-- A line "ocsp" of the log, without the time that the request took.
pub record Line : Type 0 where
  pub serial : String
  pub status : String
  pub source : String
  pub cache_hit : Bool

-- `serialHex`
unfoldable pub serial_hex : ℤ → String
unfolding bytes_of encode_to_string
serial_hex n = encode_to_string (bytes_of n)

-- `statusString`
abbrev pub status_string : Status → String
status_string good = "good"
status_string revoked = "revoked"
status_string _ = "unknown"

-- A responder; the last line of its log is the first of `log`.
pub record Responder (S : Source) : Type 0 where
  pub source : S.State
  pub cache : Cache
  pub metrics : Option Metrics
  pub log : List Line

-- What one call of `Handle` meets: the context's error, the readings of the clock in `get`, before
-- `CreateResponse` and in `set`, and the key that a full cache would give up.
pub record Call (S : Source) : Type 0 where
  pub ctx_err : Option Error
  pub looked_up : Time
  pub source_env : S.Env
  pub signed_at : Time
  pub stored_at : Time
  pub victim : ℕ

-- `NewResponder`
abbrev pub new_responder :
    (S : Source) → S.State → Duration → ℤ → Bool → Option Metrics → Option ℕ → Responder S
new_responder S source cache_ttl max_entries cache_enabled metrics gauge = record {
  source = source;
  cache = record {
    entries = [];
    ttl = cache_ttl;
    max_entries = max_entries;
    enabled = cache_enabled;
    entries_gauge = gauge;
  };
  metrics = metrics;
  log = [];
}

-- `if r.metrics != nil`
abbrev pub recorded : (Metrics → Metrics) → Option Metrics → Option Metrics
recorded f none = none
recorded f (some m) = some (f m)

-- What the request is to be signed with: the backend's answer, or `unknown` where it has none.
pub record Verdict : Type 0 where
  pub status : Status
  pub revocation_info : Option RevocationInfo
  pub source_next_update : Time

unfoldable pub verdict : Result (Option CertStatus) → Verdict
verdict (ok (some cs)) = record {
  status = cs.status;
  revocation_info = cs.revocation_info;
  source_next_update = cs.source_next_update;
}
verdict _ = record { status = unknown; revocation_info = none; source_next_update = zero_time }

abbrev pub source_result {ℓ} : {A : Type ℓ} → Result A → String
source_result (ok _) = "ok"
source_result (err _) = "error"

module _ (x : Externals) (S : Source) (sgn : Signer) where
  -- The checks that come before the cache.
  unfoldable pub admit : Option Error → Bytes → Result Request
  admit ctx_err request_der = wrap_error "ocsp-responder/responder" (do
    check ctx_err
    req ← x.parse_request request_der
    validate_issuer_binding x (some req) sgn.issuer_cert
    ok req)

  unfoldable pub store_signed :
      Call S → ℤ → Status → Result (Bytes × Time) → Responder S → Result Bytes × Responder S
  unfolding serial_hex
  store_signed call serial status (err e) r = (err (wrap "ocsp-responder/responder" e), r)
  store_signed call serial status (ok (der, signed_next_update)) r = (
    ok der,
    record r {
      cache = set_at call.victim (to_decimal serial) der call.stored_at signed_next_update r.cache;
      log =
          record {
            serial = serial_hex serial;
            status = status_string status;
            source = S.name;
            cache_hit = false;
          }
          ∷ r.log;
    },
  )

  unfoldable pub sign : Call S → ℤ → Verdict → Responder S → Result Bytes × Responder S
  unfolding store_signed
  sign call serial v r =
      store_signed call serial v.status
        (sgn.create_response serial v.status v.revocation_info call.signed_at v.source_next_update)
        r

  -- A cache miss: the backend is asked, and its answer signed and stored.
  unfoldable pub miss : Call S → ℤ → Responder S → Result Bytes × Responder S
  unfolding verdict sign
  miss call serial r =
      let (answer, source) = S.get_status call.source_env serial sgn.issuer_cert r.source in
      sign call serial (verdict answer) (record r {
        source = source;
        metrics =
            recorded (record_source_request S.name (source_result answer))
              (recorded record_cache_miss r.metrics);
      })

  unfoldable pub look_up :
      Call S → ℤ → Option Bytes × Cache → Responder S → Result Bytes × Responder S
  unfolding miss
  look_up call serial (some data_bytes, cache) r = (
    ok data_bytes,
    record r {
      cache = cache;
      metrics = recorded record_cache_hit r.metrics;
      log =
          record {
            serial = serial_hex serial;
            status = "cached";
            source = S.name;
            cache_hit = true;
          }
          ∷ r.log;
    },
  )
  look_up call serial (none, cache) r = miss call serial (record r { cache = cache })

  unfoldable pub serve : Call S → Result Request → Responder S → Result Bytes × Responder S
  unfolding look_up
  serve call (err e) r = (err e, r)
  serve call (ok req) r =
      look_up call req.serial_number (get_at (to_decimal req.serial_number) call.looked_up r.cache)
        r

  unfoldable pub handle : Call S → Bytes → Responder S → Result Bytes × Responder S
  unfolding admit serve
  handle call request_der r = serve call (admit call.ctx_err request_der) r
