-- ===== src/Startup/Backends.antt =====
-- Which backend a valid configuration makes.
use ocsp.Base.{String, some, ◌==◌, ◌≡◌, ◌⊎◌, inl, inr, refl, eq_iff, Bool-cases}
use ocsp.Base.Int.{pos, ◌≤ℤ◌}
use ocsp.Go.Time.{Duration}
use ocsp.Go.Errors.{Result, ok}
use ocsp.Go.X509.{Certificate}
use ocsp.Config.{SourceConfig}
use ocsp.Config.Valid.{
  Parses, StaticIsValid, SourceIsValid, over_file, over_http, over_static, set-Parses,
}
use ocsp.Source.{Status, good, revoked, unknown, other}
use ocsp.Source.File.Reload.{new_file_source}
use ocsp.Source.Static.{new_static_source}
use ocsp.Source.Http.{new_http_source}
use ocsp.Startup.{
  World, Backend, is_url, mapping_of, map_ok, new_file, new_http, new_source, duration_or,
}

-- The status that a text names.
abbrev pub Names : String → Status → Type 0
Names s good = s ≡ "good"
Names s revoked = s ≡ "revoked"
Names s unknown = s ≡ "unknown"
Names s (other n) = ⊥

module _ (w : World) where
  -- The duration that a text gives, or the default of an empty text.
  abbrev pub Given : Duration → String → Duration → Type 0
  Given default value d = ((value ≡ "") × (d ≡ default)) ⊎ (w.parse_duration value ≡ ok d)

  duration_or-Given :
      (default : Duration) (name value : String)
      → (value ≡ "") ⊎ Parses w.parse_duration value
      → (d : Duration) × (duration_or w default name value ≡ ok d) × Given default value d
  duration_or-Given default name value h = elim (Bool-cases (value == "")) [
    | inl unset ↦ (default, rw unset refl, inl ((eq_iff value "").0 unset, refl))
    | inr set ↦
        let (d, parsed) = set-Parses w.parse_duration value h set in
        (d, rw (set, parsed) refl, inr parsed)
  ]

  Parses-grace :
      (value : String)
      → (value ≡ "") ⊎ ((d : Duration) × (w.parse_duration value ≡ ok d) × (pos 0 ≤ℤ d))
      → (value ≡ "") ⊎ Parses w.parse_duration value
  Parses-grace value (inl unset) = inl unset
  Parses-grace value (inr (d, parsed, _)) = inr (d, parsed)

  static-Names :
      (s : String)
      → StaticIsValid w.parse_duration s
      → (status : Status) × (new_static_source s ≡ ok (record { status = status })) × Names s status
  unfolding new_static_source
  static-Names s (inl h) = (good, rw h refl, h)
  static-Names s (inr (inl h)) = (revoked, rw h refl, h)
  static-Names s (inr (inr h)) = (unknown, rw h refl, h)

  -- How a backend is made: over a list for the issuer, checked at startup, with the grace of the
  -- configuration; of a fixed status; or of the CA's API.
  pub data Made (c : SourceConfig) (issuer : Certificate) : Result Backend → Type 0 where
    made_file :
        (grace : Duration)
        → c.type ≡ "file"
        → Given (pos 0) c.file.expiry_grace grace
        → Made c issuer (
            map_ok Backend.over_file (
              new_file_source w.files
                (is_url c.file.crl_path)
                (some issuer)
                grace
                (w.first_tick c.file.crl_path)))
    made_static :
        (status : Status)
        → c.type ≡ "static"
        → Names c.static.status status
        → Made c issuer (ok (Backend.over_static (record { status = status })))
    made_http :
        (backoff ttl : Duration)
        → c.type ≡ "http"
        → Given (pos 500_000_000) c.http.retry_backoff backoff
        → Given (pos 0) c.http.cache_ttl ttl
        → Made c issuer (
            map_ok Backend.over_http (
              new_http_source c.http.base_url c.http.root_cert_file
                (w.root_cert c.http.root_cert_file)
                w.append_certs
                (mapping_of c.http.mapping)
                c.http.retry_max
                backoff
                ttl))

  new_source-file :
      (c : SourceConfig) (issuer : Certificate)
      → c.type ≡ "file"
      → new_source w c issuer ≡ map_ok Backend.over_file (new_file w c.file issuer)
  unfolding new_source
  new_source-file c issuer h = rw h refl

  new_source-static :
      (c : SourceConfig) (issuer : Certificate)
      → c.type ≡ "static"
      → new_source w c issuer ≡ map_ok Backend.over_static (new_static_source c.static.status)
  unfolding new_source
  new_source-static c issuer h = rw h refl

  new_source-http :
      (c : SourceConfig) (issuer : Certificate)
      → c.type ≡ "http"
      → new_source w c issuer ≡ map_ok Backend.over_http (new_http w c.http)
  unfolding new_source
  new_source-http c issuer h = rw h refl

  -- A valid configuration's durations never keep the program from starting: its backend is made as its
  -- type asks for, and one of a fixed status always is.
  pub new_source-Made :
      (c : SourceConfig) (issuer : Certificate)
      → SourceIsValid w.parse_duration c
      → Made c issuer (new_source w c issuer)
  unfolding new_file new_http
  new_source-Made c issuer (over_file type v) =
      let (interval, parsed, _) = v.reload_interval in
      let (grace, is_grace, given) =
        duration_or-Given (pos 0) "file expiry grace" c.file.expiry_grace
          (Parses-grace c.file.expiry_grace v.expiry_grace) in
      rw (new_source-file c issuer type, parsed, is_grace) (made_file grace type given)
  new_source-Made c issuer (over_static type v) =
      let (status, made, names) = static-Names c.static.status v in
      rw (new_source-static c issuer type, made) (made_static status type names)
  new_source-Made c issuer (over_http type v) =
      let (timeout, parsed) = v.timeout in
      let (backoff, is_backoff, backoff_given) =
        duration_or-Given (pos 500_000_000) "HTTP source retry backoff" c.http.retry_backoff
          (inr v.retry_backoff) in
      let (ttl, is_ttl, given) =
        duration_or-Given (pos 0) "HTTP source cache ttl" c.http.cache_ttl v.cache_ttl in
      rw (new_source-http c issuer type, parsed, is_backoff, is_ttl)
        (made_http backoff ttl type backoff_given given)
