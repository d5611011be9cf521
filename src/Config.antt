-- ===== src/Config.antt =====
-- internal/config/config.go: the configuration, as the YAML decoder fills it in, and its checks. A check
-- that fills in a default returns the configuration with it; on an error `Load` drops it.
pub mod Checks
pub mod Valid
use ocsp.Base.{
  ℕ, String, Bool, true, false, not, ◌&&◌, ◌||◌, Option, none, some, List, [], ◌∷◌, ◌==◌, ◌<>◌,
  if◌then◌else◌,
}
use ocsp.Base.Int.{ℤ, pos, ltb_ℤ, eqb_ℤ}
use ocsp.Go.Time.{Duration}
use ocsp.Go.Errors.{Error, text, Result, ok, err, is_end_of_file, guard, wrap_error, ◌>>=◌, ◌>>◌}
use ocsp.Go.X509.{Bytes}

pub record TlsConfig : Type 0 where
  pub enabled : Bool
  pub cert_file : String
  pub key_file : String
  pub min_version : String
  pub acme_host : String
  pub acme_ca_url : String
  pub acme_cache_dir : String

pub record ServerConfig : Type 0 where
  pub listen_addr : String
  pub tls : TlsConfig

pub record SignerConfig : Type 0 where
  pub cert_file : String
  pub key_file : String
  pub issuer_cert_file : String
  pub response_validity : String

pub record FileSourceConfig : Type 0 where
  pub crl_path : String
  pub reload_interval : String
  pub expiry_grace : String

pub record ResponseMapping : Type 0 where
  pub path_template : String
  pub status_field : String
  pub good_values : List String
  pub revoked_values : List String

pub record HttpSourceConfig : Type 0 where
  pub base_url : String
  pub root_cert_file : String
  pub timeout : String
  pub retry_max : ℤ
  pub retry_backoff : String
  pub cache_ttl : String
  pub mapping : ResponseMapping

pub record StaticSourceConfig : Type 0 where
  pub status : String

pub record SourceConfig : Type 0 where
  pub type : String
  pub file : FileSourceConfig
  pub http : HttpSourceConfig
  pub static : StaticSourceConfig

pub record CacheConfig : Type 0 where
  pub enabled : Bool
  pub ttl : String
  pub max_entries : ℤ

pub record LoggingConfig : Type 0 where
  pub level : String
  pub format : String

pub record Config : Type 0 where
  pub server : ServerConfig
  pub signer : SignerConfig
  pub source : SourceConfig
  pub cache : CacheConfig
  pub logging : LoggingConfig

-- `var cfg Config`
abbrev pub zero_config : Config
zero_config = record {
  server = record {
    listen_addr = "";
    tls = record {
      enabled = false;
      cert_file = "";
      key_file = "";
      min_version = "";
      acme_host = "";
      acme_ca_url = "";
      acme_cache_dir = "";
    };
  };
  signer = record { cert_file = ""; key_file = ""; issuer_cert_file = ""; response_validity = "" };
  source = record {
    type = "";
    file = record { crl_path = ""; reload_interval = ""; expiry_grace = "" };
    http = record {
      base_url = "";
      root_cert_file = "";
      timeout = "";
      retry_max = pos 0;
      retry_backoff = "";
      cache_ttl = "";
      mapping = record {
        path_template = "";
        status_field = "";
        good_values = [];
        revoked_values = [];
      };
    };
    static = record { status = "" };
  };
  cache = record { enabled = false; ttl = ""; max_entries = pos 0 };
  logging = record { level = ""; format = "" };
}

abbrev pub default_listen_addr : String
default_listen_addr = "0.0.0.0:8080"

-- A field that must be set.
abbrev pub required : String → String → Result (Unit {0})
required name value =
    guard (not (value == "")) (text ("ocsp-responder/config: " <> name <> " must be set"))

-- What the decoder made of the file; of an empty document it makes nothing and reports the end.
unfoldable pub decoded : Result Config → Result Config
decoded (ok c) = ok c
decoded (err e) =
    if is_end_of_file e then ok zero_config else err (Error.wrap "ocsp-responder/config" e)

-- What the configuration calls and does not implement: `time.ParseDuration`.
module _ (parse_duration : String → Result Duration) where
  abbrev pub duration : String → String → Result Duration
  duration name value =
      wrap_error ("ocsp-responder/config: invalid " <> name) (parse_duration value)

  -- A duration that may be left out.
  abbrev pub optional_duration : String → String → Result (Unit {0})
  optional_duration name value = if value == "" then ok tt else do d ← duration name value; ok tt

  abbrev pub validate_grace : String → Result (Unit {0})
  validate_grace value = if value == "" then ok tt else do
    grace ← duration "source.file.expiry_grace" value
    guard (not (ltb_ℤ grace (pos 0)))
        (text "ocsp-responder/config: source.file.expiry_grace must not be negative")

  unfoldable pub validate_file : FileSourceConfig → Result (Unit {0})
  validate_file c = do
    required "source.file.crl_path" c.crl_path
    required "source.file.reload_interval" c.reload_interval
    reload_interval ← duration "source.file.reload_interval" c.reload_interval
    guard (ltb_ℤ (pos 0) reload_interval)
        (text "ocsp-responder/config: source.file.reload_interval must be greater than 0")
    validate_grace c.expiry_grace

  unfoldable pub validate_http : HttpSourceConfig → Result HttpSourceConfig
  validate_http c = do
    required "source.http.base_url" c.base_url
    required "source.http.timeout" c.timeout
    timeout ← duration "source.http.timeout" c.timeout
    optional_duration "source.http.retry_backoff" c.retry_backoff
    optional_duration "source.http.cache_ttl" c.cache_ttl
    ok (record c {
      retry_backoff = if c.retry_backoff == "" then "500ms" else c.retry_backoff;
      retry_max = if eqb_ℤ c.retry_max (pos 0) then pos 3 else c.retry_max;
    })

  unfoldable pub validate_static : StaticSourceConfig → Result (Unit {0})
  validate_static c = do
    required "source.static.status" c.status
    guard (c.status == "good" || c.status == "revoked" || c.status == "unknown")
        (text ("ocsp-responder/config: invalid source.static.status " <> c.status))

  -- The switch on `source.type`.
  unfoldable pub validate_source : SourceConfig → Result SourceConfig
  unfolding validate_file validate_http validate_static
  validate_source c =
      if c.type == "file"
      then (do validate_file c.file; ok c)
      else if c.type == "http"
      then (do http ← validate_http c.http; ok (record c { http = http }))
      else if c.type == "static"
      then (do validate_static c.static; ok c)
      else err (text ("ocsp-responder/config: invalid source.type " <> c.type))

  unfoldable pub validate : Config → Result Config
  unfolding validate_source
  validate c = do
    required "signer.cert_file" c.signer.cert_file
    required "signer.key_file" c.signer.key_file
    required "signer.issuer_cert_file" c.signer.issuer_cert_file
    source ← validate_source c.source
    validity ← duration "signer.response_validity" c.signer.response_validity
    guard (ltb_ℤ (pos 0) validity)
        (text "ocsp-responder/config: signer.response_validity must be greater than 0")
    ttl ← duration "cache.ttl" c.cache.ttl
    ok (record c {
      server = record c.server {
        listen_addr =
            if c.server.listen_addr == "" then default_listen_addr else c.server.listen_addr;
      };
      source = source;
    })

  -- `Load`, from what `os.ReadFile` answers; `decode` is the YAML decoder, which refuses fields that are
  -- not known.
  unfoldable pub load : (Bytes → Result Config) → Result Bytes → Result Config
  unfolding validate decoded
  load decode file = do
    b ← wrap_error "ocsp-responder/config" file
    c ← decoded (decode b)
    validate c
