-- ===== src/Server/Listen.antt =====
-- internal/server/server.go: what the server listens with, and the directory where certificates that
-- were issued by ACME are kept.
pub mod Choice
use ocsp.Base.{
  ℕ, String, Bool, true, false, not, ◌&&◌, Option, none, some, List, [], ◌∷◌, ◌==◌, ◌<>◌,
  if◌then◌else◌,
}
use ocsp.Go.Errors.{Error, text, wrap, Result, ok, err, is_not_exist}
use ocsp.Config.{TlsConfig}

-- `tlsMinVersion`: `tls.VersionTLS13` or `tls.VersionTLS12`
abbrev pub tls_min_version : String → ℕ
tls_min_version v = if v == "1.3" then 0x0304 else 0x0303

-- `DefaultACMECacheDir`
abbrev pub default_acme_cache_dir : String
default_acme_cache_dir = "/var/lib/ocsp-responder/acme"

-- What the file system answers: `create_temp` with the name of a new file.
pub record Disk : Type 0 where
  pub mkdir_all : String → Option Error
  pub create_temp : String → Result String
  pub close : String → Option Error
  pub remove : String → Option Error

pub data DiskCall : Type 0 where
  mkdir_all create_temp close remove : String → DiskCall

abbrev pub unusable : String → Error → Result (Unit {0})
unusable dir e = err (wrap ("ocsp-responder/server: acme cache directory " <> dir) e)

-- The probe is removed; that another has removed it is no error.
abbrev pub removed : String → Option Error → Result (Unit {0})
removed dir none = ok tt
removed dir (some e) = if is_not_exist e then ok tt else unusable dir e

abbrev pub closed : Disk → String → String → Option Error → Result (Unit {0}) × List DiskCall
closed disk dir probe (some e) = (unusable dir e, remove probe ∷ [])
closed disk dir probe none = (removed dir (disk.remove probe), remove probe ∷ [])

abbrev pub probed : Disk → String → Result String → Result (Unit {0}) × List DiskCall
probed disk dir (err e) =
    (err (wrap ("ocsp-responder/server: acme cache directory " <> dir <> " is not writable") e), [])
probed disk dir (ok probe) =
    let rest = closed disk dir probe (disk.close probe) in (rest.0, close probe ∷ rest.1)

abbrev pub made : Disk → String → Option Error → Result (Unit {0}) × List DiskCall
made disk dir (some e) = (unusable dir e, [])
made disk dir none =
    let rest = probed disk dir (disk.create_temp dir) in (rest.0, create_temp dir ∷ rest.1)

-- `ensureACMECacheDir`, with the calls that it makes
unfoldable pub ensure_acme_cache_dir : Disk → String → Result (Unit {0}) × List DiskCall
ensure_acme_cache_dir disk dir =
    let rest = made disk dir (disk.mkdir_all dir) in (rest.0, mkdir_all dir ∷ rest.1)

-- What the server listens with: nothing but TCP; a certificate's files and the least version of TLS; or
-- `autocert.Manager` for a host, with its directory and the CA's URL, if one is set.
pub data Listener : Type 0 where
  plain : Listener
  with_files : String → String → ℕ → Listener
  with_acme : String → String → Option String → Listener

abbrev pub has_files : TlsConfig → Bool
has_files c = not (c.cert_file == "") && not (c.key_file == "")

abbrev pub acme_cache_dir : TlsConfig → String
acme_cache_dir c = if c.acme_cache_dir == "" then default_acme_cache_dir else c.acme_cache_dir

-- The CA's directory, where it is not the one that `autocert` takes.
abbrev pub acme_ca_url : TlsConfig → Option String
acme_ca_url c = if c.acme_ca_url == "" then none else some c.acme_ca_url

abbrev pub acme : TlsConfig → Result (Unit {0}) → Result Listener
acme c (err e) = err e
acme c (ok _) = ok (with_acme c.acme_host (acme_cache_dir c) (acme_ca_url c))

-- The goroutine of `Start`, up to the call that listens.
unfoldable pub listener : Disk → TlsConfig → Result Listener
unfolding ensure_acme_cache_dir
listener disk c =
    if c.enabled
    then (if has_files c
        then ok (with_files c.cert_file c.key_file (tls_min_version c.min_version))
        else if not (c.acme_host == "")
        then acme c (ensure_acme_cache_dir disk (acme_cache_dir c)).0
        else err (text "ocsp-responder/server: TLS enabled but no cert or ACME config provided"))
    else ok plain
