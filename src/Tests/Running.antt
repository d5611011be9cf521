-- ===== src/Tests/Running.antt =====
-- Listening, and how the program ends.
use ocsp.Base.{ℕ, true, false, none, some, ◌≡◌, ◌≢◌, ◌⊎◌, ◌↔◌}
use ocsp.Go.Errors.{ok, not_exist, server_closed}
use ocsp.Config.{TlsConfig}
use ocsp.Server.Listen.{Disk, with_files, with_acme, listener}
use ocsp.Server.Listen.Choice.{IsMinVersion, Listens, listener_iff, listener-min_version}
use ocsp.Server.Lifecycle.{Net, err_ch}
use ocsp.Startup.{main}
use ocsp.Startup.Main.{EndsWell, main-ok_iff}
use ocsp.Tests.Starting.{world}

-- Another process has removed the probe.
abbrev disk : Disk
disk = record {
  mkdir_all = λ dir. none;
  create_temp = λ dir. ok "/acme/.writable-1";
  close = λ path. none;
  remove = λ path. some not_exist;
}

abbrev acme_only : TlsConfig
acme_only = record {
  enabled = true;
  cert_file = "cert.pem";
  key_file = "";
  min_version = "1.3";
  acme_host = "ocsp.example";
  acme_ca_url = "";
  acme_cache_dir = "/acme";
}

listener_iff_example :
    (listener disk acme_only ≡ ok (with_acme "ocsp.example" "/acme" none))
    ↔ Listens disk acme_only (with_acme "ocsp.example" "/acme" none)
listener_iff_example = listener_iff disk acme_only (with_acme "ocsp.example" "/acme" none)

abbrev both_files : TlsConfig
both_files = record acme_only { cert_file = "cert.pem"; key_file = "key.pem" }

listener-min_version_example :
    ((both_files.enabled ≡ true)
      × (both_files.cert_file ≢ "")
      × (both_files.key_file ≢ "")
      × (n : ℕ) × IsMinVersion "1.3" n
      × (listener disk (record both_files { min_version = "1.3" })
          ≡ ok (with_files both_files.cert_file both_files.key_file n)))
    ⊎ (((both_files.enabled ≡ false) ⊎ ((both_files.cert_file ≡ "") ⊎ (both_files.key_file ≡ "")))
        × (listener disk (record both_files { min_version = "1.3" }) ≡ listener disk both_files))
listener-min_version_example = listener-min_version disk both_files "1.3"

-- A server that is closed while it listens.
abbrev net : Net
net = record {
  disk = disk;
  listen_and_serve = λ server l. some server_closed;
  woken = err_ch;
  shutdown = λ server limit. none;
}

main-ok_iff_example : (main world net ≡ ok tt) ↔ EndsWell world net
main-ok_iff_example = main-ok_iff world net
