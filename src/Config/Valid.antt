-- ===== src/Config/Valid.antt =====
-- What a configuration that is accepted is like.
use ocsp.Base.{
  String, Bool, true, false, not, ◌||◌, ◌==◌, ◌<>◌, ◌≡◌, ◌≢◌, ◌⊎◌, inl, inr, refl, arith, eq_iff,
  if◌then◌else◌,
}
use ocsp.Base.Int.{pos, ◌<ℤ◌, ◌≤ℤ◌, ltb_ℤ}
use ocsp.Go.Time.{Duration}
use ocsp.Go.Errors.{Result, ok, guard, wrap_error, bind-ok, guard-ok, wrap_error-ok, ok-injective}
use ocsp.Go.X509.{Bytes}
use ocsp.Config
use ocsp.Config.Checks.{
  unless-ok, ltb-lt, not_below, retry_max-set, listed_status, listen_addr-set, switch-ok,
}
use ocsp.Config.{
  FileSourceConfig, HttpSourceConfig, StaticSourceConfig, SourceConfig, required, duration,
  optional_duration, validate_grace, validate_file, validate_http, validate_static, validate_source,
  validate, load, decoded, default_listen_addr,
}

module _ (parse_duration : String → Result Duration) where
  -- The text is that of a duration.
  abbrev pub Parses : String → Type 0
  Parses s = (d : Duration) × (parse_duration s ≡ ok d)

  abbrev pub ParsesPositive : String → Type 0
  ParsesPositive s = (d : Duration) × (parse_duration s ≡ ok d) × (pos 0 <ℤ d)

  pub record FileIsValid (c : FileSourceConfig) : Type 0 where
    pub crl_path : c.crl_path ≢ ""
    pub reload_interval : ParsesPositive c.reload_interval
    pub expiry_grace :
        (c.expiry_grace ≡ "")
        ⊎ ((d : Duration) × (parse_duration c.expiry_grace ≡ ok d) × (pos 0 ≤ℤ d))

  pub record HttpIsValid (c : HttpSourceConfig) : Type 0 where
    pub base_url : c.base_url ≢ ""
    pub timeout : Parses c.timeout
    pub retry_backoff : Parses c.retry_backoff
    pub retry_max : c.retry_max ≢ pos 0
    pub cache_ttl : (c.cache_ttl ≡ "") ⊎ Parses c.cache_ttl

  abbrev pub StaticIsValid : String → Type 0
  StaticIsValid status = (status ≡ "good") ⊎ (status ≡ "revoked") ⊎ (status ≡ "unknown")

  pub data SourceIsValid (c : SourceConfig) : Type 0 where
    over_file : c.type ≡ "file" → FileIsValid c.file → SourceIsValid c
    over_http : c.type ≡ "http" → HttpIsValid c.http → SourceIsValid c
    over_static : c.type ≡ "static" → StaticIsValid c.static.status → SourceIsValid c

  -- A configuration that the program can be started with.
  pub record IsValid (c : Config.Config) : Type 0 where
    pub listen_addr : c.server.listen_addr ≢ ""
    pub cert_file : c.signer.cert_file ≢ ""
    pub key_file : c.signer.key_file ≢ ""
    pub issuer_cert_file : c.signer.issuer_cert_file ≢ ""
    pub source : SourceIsValid c.source
    pub response_validity : ParsesPositive c.signer.response_validity
    pub cache_ttl : Parses c.cache.ttl

  required-ok : (name value : String) → required name value ≡ ok tt → value ≢ ""
  required-ok name value h e = ground (arith, eq_iff value "", guard-ok (not (value == "")) _ h)

  duration-ok :
      (name value : String) (d : Duration)
      → duration parse_duration name value ≡ ok d
      → parse_duration value ≡ ok d
  duration-ok name value d h =
      wrap_error-ok ("ocsp-responder/config: invalid " <> name) (parse_duration value) h

  validate_grace-ok :
      (value : String)
      → validate_grace parse_duration value ≡ ok tt
      → (value ≡ "") ⊎ ((d : Duration) × (parse_duration value ≡ ok d) × (pos 0 ≤ℤ d))
  validate_grace-ok value h = elim (unless-ok (value == "") _ h) [
    | inl unset ↦ inl ((eq_iff value "").0 unset)
    | inr set ↦
        let (d, parsed, rest) =
          bind-ok (duration parse_duration "source.file.expiry_grace" value) _ set in
        inr (
          d,
          duration-ok "source.file.expiry_grace" value d parsed,
          not_below d (guard-ok (not (ltb_ℤ d (pos 0))) _ rest),
        )
  ]

  validate_file-IsValid :
      (c : FileSourceConfig) → validate_file parse_duration c ≡ ok tt → FileIsValid c
  unfolding validate_file
  validate_file-IsValid c h =
      let (_, crl_path, h1) = bind-ok (required "source.file.crl_path" c.crl_path) _ h in
      let (_, _, h2) = bind-ok (required "source.file.reload_interval" c.reload_interval) _ h1 in
      let (d, parsed, h3) =
        bind-ok (duration parse_duration "source.file.reload_interval" c.reload_interval) _ h2 in
      let (_, positive, h4) = bind-ok (guard (ltb_ℤ (pos 0) d) _) _ h3 in
      record {
        crl_path = required-ok "source.file.crl_path" c.crl_path crl_path;
        reload_interval = (
          d,
          duration-ok "source.file.reload_interval" c.reload_interval d parsed,
          ltb-lt (pos 0) d (guard-ok (ltb_ℤ (pos 0) d) _ positive),
        );
        expiry_grace = validate_grace-ok c.expiry_grace h4;
      }

  optional_duration-ok :
      (name value : String)
      → optional_duration parse_duration name value ≡ ok tt
      → (value ≡ "") ⊎ Parses value
  optional_duration-ok name value h = elim (unless-ok (value == "") _ h) [
    | inl unset ↦ inl ((eq_iff value "").0 unset)
    | inr set ↦
        let (d, parsed, _) = bind-ok (duration parse_duration name value) _ set in
        inr (d, duration-ok name value d parsed)
  ]

  either-Parses :
      (b : Bool) (x y : String) → Parses x → (b ≡ false → Parses y) → Parses (if b then x else y)
  either-Parses true x y h k = h
  either-Parses false x y h k = k refl

  pub set-Parses :
      (value : String) → (value ≡ "") ⊎ Parses value → value == "" ≡ false → Parses value
  set-Parses value (inl unset) set = absurd (ground (arith, eq_iff value ""))
  set-Parses value (inr parses) set = parses

  validate_http-IsValid :
      (c c' : HttpSourceConfig)
      → Parses "500ms"
      → validate_http parse_duration c ≡ ok c'
      → HttpIsValid c'
  unfolding validate_http
  validate_http-IsValid c c' half h =
      let (_, base_url, h1) = bind-ok (required "source.http.base_url" c.base_url) _ h in
      let (_, _, h2) = bind-ok (required "source.http.timeout" c.timeout) _ h1 in
      let (d, parsed, h3) =
        bind-ok (duration parse_duration "source.http.timeout" c.timeout) _ h2 in
      let (_, backoff, h4) =
        bind-ok (optional_duration parse_duration "source.http.retry_backoff" c.retry_backoff) _
          h3 in
      let (_, ttl, h5) =
        bind-ok (optional_duration parse_duration "source.http.cache_ttl" c.cache_ttl) _ h4 in
      rw (← ok-injective h5) (record {
        base_url = required-ok "source.http.base_url" c.base_url base_url;
        timeout = (d, duration-ok "source.http.timeout" c.timeout d parsed);
        retry_backoff = either-Parses (c.retry_backoff == "") "500ms" c.retry_backoff half (
            set-Parses c.retry_backoff
              (optional_duration-ok "source.http.retry_backoff" c.retry_backoff backoff));
        retry_max = retry_max-set c.retry_max;
        cache_ttl = optional_duration-ok "source.http.cache_ttl" c.cache_ttl ttl;
      })

  validate_static-IsValid :
      (c : StaticSourceConfig) → validate_static parse_duration c ≡ ok tt → StaticIsValid c.status
  unfolding validate_static
  validate_static-IsValid c h =
      let (_, _, listed) = bind-ok (required "source.static.status" c.status) _ h in
      listed_status c.status
        (guard-ok (c.status == "good" || c.status == "revoked" || c.status == "unknown") _ listed)

  validate_source-IsValid :
      (c c' : SourceConfig)
      → Parses "500ms"
      → validate_source parse_duration c ≡ ok c'
      → SourceIsValid c'
  unfolding validate_source
  validate_source-IsValid c c' half h =
      elim (switch-ok (c.type == "file") (c.type == "http") (c.type == "static") _ _ _ _ h) [
        | inl (file, k) ↦
            let (_, checked, same) = bind-ok (validate_file parse_duration c.file) _ k in
            rw (← ok-injective same)
              (over_file ((eq_iff c.type "file").0 file) (validate_file-IsValid c.file checked))
        | inr (inl (http, k)) ↦
            let (http', checked, same) = bind-ok (validate_http parse_duration c.http) _ k in
            rw (← ok-injective same) (
              over_http ((eq_iff c.type "http").0 http)
                (validate_http-IsValid c.http http' half checked))
        | inr (inr (static, k)) ↦
            let (_, checked, same) = bind-ok (validate_static parse_duration c.static) _ k in
            rw (← ok-injective same) (
              over_static ((eq_iff c.type "static").0 static)
                (validate_static-IsValid c.static checked))
      ]

  -- A configuration that passes the checks can be started with, if the text "500ms" is a duration.
  pub validate-IsValid :
      (c c' : Config.Config) → Parses "500ms" → validate parse_duration c ≡ ok c' → IsValid c'
  unfolding validate
  validate-IsValid c c' half h =
      let (_, cert_file, h1) = bind-ok (required "signer.cert_file" c.signer.cert_file) _ h in
      let (_, key_file, h2) = bind-ok (required "signer.key_file" c.signer.key_file) _ h1 in
      let (_, issuer, h3) =
        bind-ok (required "signer.issuer_cert_file" c.signer.issuer_cert_file) _ h2 in
      let (source, checked, h4) = bind-ok (validate_source parse_duration c.source) _ h3 in
      let (d, parsed, h5) =
        bind-ok (duration parse_duration "signer.response_validity" c.signer.response_validity) _
          h4 in
      let (_, positive, h6) = bind-ok (guard (ltb_ℤ (pos 0) d) _) _ h5 in
      let (ttl, ttl_parsed, same) =
        bind-ok (duration parse_duration "cache.ttl" c.cache.ttl) _ h6 in
      rw (← ok-injective same) (record {
        listen_addr = listen_addr-set c.server.listen_addr;
        cert_file = required-ok "signer.cert_file" c.signer.cert_file cert_file;
        key_file = required-ok "signer.key_file" c.signer.key_file key_file;
        issuer_cert_file = required-ok "signer.issuer_cert_file" c.signer.issuer_cert_file issuer;
        source = validate_source-IsValid c.source source half checked;
        response_validity = (
          d,
          duration-ok "signer.response_validity" c.signer.response_validity d parsed,
          ltb-lt (pos 0) d (guard-ok (ltb_ℤ (pos 0) d) _ positive),
        );
        cache_ttl = (ttl, duration-ok "cache.ttl" c.cache.ttl ttl ttl_parsed);
      })

  -- A configuration that is loaded can be started with: its required fields are set, its durations
  -- parse and are in their ranges, its source is of a known type and sound, and its defaults are filled
  -- in. The text "500ms" has to be a duration.
  pub load-IsValid :
      (decode : Bytes → Result Config.Config) (file : Result Bytes) (c : Config.Config)
      → Parses "500ms"
      → load parse_duration decode file ≡ ok c
      → IsValid c
  unfolding load
  load-IsValid decode file c half h =
      let (b, _, h1) = bind-ok (wrap_error "ocsp-responder/config" file) _ h in
      let (c0, _, checked) = bind-ok (decoded (decode b)) (validate parse_duration) h1 in
      validate-IsValid c0 c half checked
