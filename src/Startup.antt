-- ===== src/Startup.antt =====
-- cmd/ocsp-responder/main.go: `newSource`, and what `main` makes before it starts the server.
pub mod Backends
pub mod Sources
pub mod Main
use ocsp.Base.{
  ℕ, String, Bool, true, false, Option, none, some, List, [], ◌∷◌, ◌==◌, ◌<>◌, ◌||◌, if◌then◌else◌,
}
use ocsp.Base.Int.{ℤ, pos}
use ocsp.Go.Time.{Time, Duration}
use ocsp.Go.Strings.{has_prefix}
use ocsp.Go.Errors.{Error, text, Result, ok, err, wrap_error, ◌>>=◌}
use ocsp.Go.X509.{Bytes, Certificate}
use ocsp.Config
use ocsp.Config.{SourceConfig, FileSourceConfig, HttpSourceConfig, load}
use ocsp.Signer
use ocsp.Signer.{new_signer}
use ocsp.Server.Lifecycle.{Net, serve}
use ocsp.Server.Metrics.{Metrics, new_metrics}
use ocsp.Source.File.{FileSource, file_source}
use ocsp.Source.File.Load
use ocsp.Source.File.Reload.{Tick, new_file_source}
use ocsp.Source.Static.{StaticSource, static_source, new_static_source}
use ocsp.Source.Http
use ocsp.Source.Http.{HttpSource, new_http_source, set_observer}
use ocsp.Source.Http.Fetch.{http_source}
use ocsp.Responder.Handle.{Responder, new_responder}

-- What starting the program calls and meets: the library functions of its parts, the configuration's
-- file and its decoder, the list at a path or URL, and the root certificate's file.
pub record World : Type 0 where
  pub parse_duration : String → Result Duration
  pub decode : Bytes → Result Config.Config
  pub config_file : Result Bytes
  pub files : Load.Crypto
  pub keys : Signer.Crypto
  pub first_tick : String → Tick
  pub root_cert : String → Result Bytes
  pub append_certs : Bytes → Bool
  pub now : Time

-- A backend of one of the three types.
pub data Backend : Type 0 where
  over_file : FileSource → Backend
  over_static : StaticSource → Backend
  over_http : HttpSource → Backend

-- The responder over its backend, and the signer.
pub data Running : Type 0 where
  with_file : Signer.Signer → Responder file_source → Running
  with_static : Signer.Signer → Responder static_source → Running
  with_http : Signer.Signer → Responder http_source → Running

abbrev pub map_ok {ℓ κ} : {A : Type ℓ} {B : Type κ} → (A → B) → Result A → Result B
map_ok f (ok a) = ok (f a)
map_ok f (err e) = err e

abbrev pub is_url : String → Bool
is_url crl_path = has_prefix crl_path "http://" || has_prefix crl_path "https://"

-- The fields of the mapping, from the configuration's type to the source's.
abbrev pub mapping_of : Config.ResponseMapping → Http.ResponseMapping
mapping_of m = record {
  path_template = m.path_template;
  status_field = m.status_field;
  good_values = m.good_values;
  revoked_values = m.revoked_values;
}

-- `NewResponder` over a backend, with new metrics, which a source that asks the CA observes.
abbrev pub running : Signer.Signer → Duration → ℤ → Bool → Backend → Running
running sgn ttl max_entries enabled (over_file s) =
    with_file sgn (new_responder file_source s ttl max_entries enabled (some new_metrics) (some 0))
running sgn ttl max_entries enabled (over_static s) =
    with_static sgn
      (new_responder static_source s ttl max_entries enabled (some new_metrics) (some 0))
running sgn ttl max_entries enabled (over_http s) = with_http sgn (
    new_responder http_source (set_observer (some new_metrics) s) ttl max_entries enabled
      (some new_metrics) (some 0))

module _ (w : World) where
  -- A duration that may be left out, with its default.
  abbrev pub duration_or : Duration → String → String → Result Duration
  duration_or d name value =
      if value == ""
      then ok d
      else wrap_error ("ocsp-responder: invalid " <> name) (w.parse_duration value)

  unfoldable pub new_file : FileSourceConfig → Certificate → Result FileSource
  unfolding new_file_source
  new_file c issuer = do
    interval ←
        wrap_error "ocsp-responder: invalid file reload interval"
          (w.parse_duration c.reload_interval)
    grace ← duration_or (pos 0) "file expiry grace" c.expiry_grace
    new_file_source w.files (is_url c.crl_path) (some issuer) grace (w.first_tick c.crl_path)

  unfoldable pub new_http : HttpSourceConfig → Result HttpSource
  unfolding new_http_source
  new_http c = do
    timeout ← wrap_error "ocsp-responder: invalid HTTP source timeout" (w.parse_duration c.timeout)
    retry_backoff ← duration_or (pos 500_000_000) "HTTP source retry backoff" c.retry_backoff
    cache_ttl ← duration_or (pos 0) "HTTP source cache ttl" c.cache_ttl
    new_http_source c.base_url c.root_cert_file (w.root_cert c.root_cert_file) w.append_certs
        (mapping_of c.mapping) c.retry_max retry_backoff cache_ttl

  -- `newSource`
  unfoldable pub new_source : SourceConfig → Certificate → Result Backend
  unfolding new_file new_http new_static_source
  new_source c issuer =
      if c.type == "file"
      then map_ok over_file (new_file c.file issuer)
      else if c.type == "static"
      then map_ok over_static (new_static_source c.static.status)
      else if c.type == "http"
      then map_ok over_http (new_http c.http)
      else err (text ("ocsp-responder: unknown source type " <> c.type))

  -- What `main` makes of the configuration before it starts the server: where it exits it ends with the
  -- error. The monitor of the certificate's expiry, which it starts on the way, is Signer/Monitor.
  unfoldable pub assemble : Config.Config → Result Running
  unfolding new_signer new_source set_observer
  assemble cfg = do
    validity ← w.parse_duration cfg.signer.response_validity
    (sgn, warned) ←
        new_signer w.keys cfg.signer.cert_file cfg.signer.key_file cfg.signer.issuer_cert_file
          validity w.now
    source ← new_source cfg.source sgn.issuer_cert
    ttl ← w.parse_duration cfg.cache.ttl
    ok (running sgn ttl cfg.cache.max_entries cfg.cache.enabled source)

  -- `main`, up to the start of the server
  unfoldable pub start : Result Running
  unfolding load assemble
  start = do cfg ← load w.parse_duration w.decode w.config_file; assemble cfg

  -- `main`, whose exit code is 0 if this is `ok`. The server is over the responder that was assembled; how
  -- it ends does not depend on that.
  unfoldable pub main : Net → Result (Unit {0})
  unfolding load assemble serve
  main net = do
    cfg ← load w.parse_duration w.decode w.config_file
    r ← assemble cfg
    serve w.parse_duration net cfg

-- The records of a logger that it writes, and how: `slog.Level`, and the handler.
pub data Level : Type 0 where
  debug info warn error : Level

pub data Format : Type 0 where
  json plain_text : Format

pub record Logger : Type 0 where
  pub level : Level
  pub format : Format

-- `buildLogger`
abbrev pub build_logger : String → String → Logger
build_logger level format = record {
  level =
      if level == "debug"
      then debug
      else if level == "warn"
      then warn
      else if level == "error"
      then error
      else info;
  format = if format == "json" then json else plain_text;
}
