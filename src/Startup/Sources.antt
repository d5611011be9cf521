-- ===== src/Startup/Sources.antt =====
-- What the program runs with once it has started.
use ocsp.Base.{Bool, some, [], ◌≡◌, refl}
use ocsp.Base.Int.{pos}
use ocsp.Go.Time.{Duration}
use ocsp.Go.Errors.{Result, ok, err, bind-ok, ok-injective}
use ocsp.Config
use ocsp.Config.{SourceConfig, load}
use ocsp.Config.Valid.{Parses, load-IsValid}
use ocsp.Signer
use ocsp.Signer.{new_signer}
use ocsp.Signer.Trust.{IsTrusted, new_signer-IsTrusted}
use ocsp.Source.{Source}
use ocsp.Source.File.{file_source}
use ocsp.Source.File.Reload.{new_file_source}
use ocsp.Source.Static.{static_source}
use ocsp.Source.Http.{HttpSource, new_http_source, set_observer}
use ocsp.Source.Http.Fetch.{http_source}
use ocsp.Server.Metrics.{new_metrics}
use ocsp.Responder.Cache.{Cache}
use ocsp.Responder.Handle.{Responder, new_responder}
use ocsp.Startup.{
  assemble, World, Backend, Running, with_file, with_static, with_http, is_url, mapping_of, map_ok,
  running, new_source, start,
}
use ocsp.Startup.Backends.{Names, Given, Made, made_file, made_static, made_http, new_source-Made}

module _ (w : World) where
  -- The cache of a new responder: nothing in it, and the configuration's lifetime, bound and switch.
  pub record IsNewCache (cfg : Config.Config) (c : Cache) : Type 0 where
    pub entries : c.entries ≡ []
    pub ttl : w.parse_duration cfg.cache.ttl ≡ ok c.ttl
    pub max_entries : c.max_entries ≡ cfg.cache.max_entries
    pub enabled : c.enabled ≡ cfg.cache.enabled
    pub entries_gauge : c.entries_gauge ≡ some 0

  -- The signer is trusted, and is the one of the configuration's files and validity.
  pub record IsConfigured (cfg : Config.Config) (sgn : Signer.Signer) : Type 0 where
    pub trusted : IsTrusted w.keys sgn
    pub warned : Bool
    pub made :
        new_signer w.keys cfg.signer.cert_file cfg.signer.key_file cfg.signer.issuer_cert_file
          sgn.validity w.now
        ≡ ok (sgn, warned)
    pub validity : w.parse_duration cfg.signer.response_validity ≡ ok sgn.validity

  -- A responder as it is before the first request.
  pub record IsNew (cfg : Config.Config) {S : Source} (r : Responder S) : Type 0 where
    pub cache : IsNewCache cfg r.cache
    pub metrics : r.metrics ≡ some new_metrics
    pub log : r.log ≡ []

  -- What the program runs with: a signer and a new responder, and the backend of the configured type. One
  -- over a list was made by loading the configured list for the signer's issuer; one of a fixed status has
  -- the status that the configuration names; one of the CA's API has the configured address, mapping,
  -- retries and lifetime, and the new metrics as its observer.
  pub data IsReady (cfg : Config.Config) : Running → Type 0 where
    ready_file :
        (sgn : Signer.Signer) (r : Responder file_source) (grace : Duration)
        → IsConfigured cfg sgn
        → IsNew cfg r
        → cfg.source.type ≡ "file"
        → Given w (pos 0) cfg.source.file.expiry_grace grace
        → new_file_source w.files
            (is_url cfg.source.file.crl_path)
            (some sgn.issuer_cert)
            grace
            (w.first_tick cfg.source.file.crl_path)
          ≡ ok r.source
        → IsReady cfg (with_file sgn r)
    ready_static :
        (sgn : Signer.Signer) (r : Responder static_source)
        → IsConfigured cfg sgn
        → IsNew cfg r
        → cfg.source.type ≡ "static"
        → Names cfg.source.static.status r.source.status
        → IsReady cfg (with_static sgn r)
    ready_http :
        (sgn : Signer.Signer) (r : Responder http_source) (backoff ttl : Duration)
        (made : HttpSource)
        → IsConfigured cfg sgn
        → IsNew cfg r
        → cfg.source.type ≡ "http"
        → Given w (pos 500_000_000) cfg.source.http.retry_backoff backoff
        → Given w (pos 0) cfg.source.http.cache_ttl ttl
        → new_http_source cfg.source.http.base_url cfg.source.http.root_cert_file
            (w.root_cert cfg.source.http.root_cert_file)
            w.append_certs
            (mapping_of cfg.source.http.mapping)
            cfg.source.http.retry_max
            backoff
            ttl
          ≡ ok made
        → r.source ≡ record made { observer = some new_metrics }
        → IsReady cfg (with_http sgn r)

  map_ok-ok :
      {A B : Type 0} (f : A → B) (m : Result A) {b : B}
      → map_ok f m ≡ ok b
      → (a : A) × (m ≡ ok a) × (f a ≡ b)
  map_ok-ok f (ok a) h = (a, refl, ok-injective h)
  map_ok-ok f (err e) h = absurd (cc)

  new_responder-IsNew :
      (cfg : Config.Config) (S : Source) (source : S.State) (ttl : Duration)
      → w.parse_duration cfg.cache.ttl ≡ ok ttl
      → IsNew cfg (
          new_responder S source ttl cfg.cache.max_entries cfg.cache.enabled
            (some new_metrics)
            (some 0))
  new_responder-IsNew cfg S source ttl parsed = record {
    cache = record {
      entries = refl;
      ttl = parsed;
      max_entries = refl;
      enabled = refl;
      entries_gauge = refl;
    };
    metrics = refl;
    log = refl;
  }

  running-IsReady :
      (cfg : Config.Config) (sgn : Signer.Signer) (ttl : Duration) (made : Result Backend)
      (b : Backend)
      → Made w cfg.source sgn.issuer_cert made
      → IsConfigured cfg sgn
      → w.parse_duration cfg.cache.ttl ≡ ok ttl
      → made ≡ ok b
      → IsReady cfg (running sgn ttl cfg.cache.max_entries cfg.cache.enabled b)
  unfolding set_observer
  running-IsReady cfg sgn ttl _ b (made_file grace type given) configured parsed h =
      let (s, started, same) = map_ok-ok Backend.over_file _ h in
      rw (← same) (
        ready_file sgn _ grace configured (new_responder-IsNew cfg file_source s ttl parsed) type
          given started)
  running-IsReady cfg sgn ttl _ b (made_static status type names) configured parsed h =
      rw (← ok-injective h) (
        ready_static sgn _ configured
          (new_responder-IsNew cfg static_source (record { status = status }) ttl parsed) type
          names)
  running-IsReady cfg sgn ttl _ b (made_http backoff wait type given given') configured parsed h =
      let (s, started, same) = map_ok-ok Backend.over_http _ h in
      rw (← same) (
        ready_http sgn _ backoff wait s configured
          (new_responder-IsNew cfg http_source (set_observer (some new_metrics) s) ttl parsed) type
          given given' started refl)

  -- A program that starts has accepted its configuration, and runs with what that says: a signer that is
  -- trusted, from the configured files and with the configured validity; a responder whose cache is empty,
  -- with the configured lifetime, bound and switch; and a backend of the configured type and settings,
  -- which over a list was made by loading the configured list for the signer's issuer. The text "500ms"
  -- has to be a duration.
  pub start-IsReady :
      (r : Running)
      → Parses w.parse_duration "500ms"
      → start w ≡ ok r
      → (cfg : Config.Config) × (load w.parse_duration w.decode w.config_file ≡ ok cfg)
        × IsReady cfg r
  unfolding start assemble
  start-IsReady r half h =
      let (cfg, loaded, h1) = bind-ok (load w.parse_duration w.decode w.config_file) _ h in
      let valid = load-IsValid w.parse_duration w.decode w.config_file cfg half loaded in
      let (validity, is_validity, h2) =
        bind-ok (w.parse_duration cfg.signer.response_validity) _ h1 in
      let ((sgn, warned), signer, h3) =
        bind-ok
          (new_signer w.keys cfg.signer.cert_file cfg.signer.key_file cfg.signer.issuer_cert_file
            validity w.now)
          _ h2 in
      let (b, made, h4) = bind-ok (new_source w cfg.source sgn.issuer_cert) _ h3 in
      let (ttl, parsed, same) = bind-ok (w.parse_duration cfg.cache.ttl) _ h4 in
      let (trusted, kept) =
        new_signer-IsTrusted w.keys cfg.signer.cert_file cfg.signer.key_file
          cfg.signer.issuer_cert_file validity w.now sgn warned signer in
      let configured : IsConfigured cfg sgn = record {
        trusted = trusted;
        warned = warned;
        made = rw kept signer;
        validity = rw kept is_validity;
      } in
      (
        cfg,
        loaded,
        rw (← ok-injective same) (
            running-IsReady cfg sgn ttl _ b
              (new_source-Made w cfg.source sgn.issuer_cert valid.source) configured parsed made),
      )
