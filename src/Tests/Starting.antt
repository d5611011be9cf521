-- ===== src/Tests/Starting.antt =====
-- The configuration, and starting the program.
use ocsp.Base.{
  ℕ, String, Bool, true, false, Option, none, some, List, [], ◌∷◌, ◌==◌, ◌≡◌, refl, arith,
  if◌then◌else◌,
}
use ocsp.Base.Int.{ℤ, pos}
use ocsp.Go.Time.{Duration}
use ocsp.Go.Errors.{Result, ok, err, text, end_of_file}
use ocsp.Go.X509.{Bytes}
use ocsp.Config
use ocsp.Config.{zero_config, load, default_listen_addr}
use ocsp.Config.Valid.{Parses, IsValid, load-IsValid}
use ocsp.Startup.{World, Running, Backend, running, new_source, start}
use ocsp.Startup.Sources.{IsReady, start-IsReady}
use ocsp.Tests.Bench.{files, keys, sgn, finds, at, source}

abbrev parse_duration : String → Result Duration
parse_duration s =
    if s == ""
    then err (text "time: invalid duration")
    else if s == "500ms"
    then ok (pos 500_000_000)
    else ok (at 3600)

pub half : Parses parse_duration "500ms"
half = (pos 500_000_000, refl)

abbrev written : Config.Config
written = record zero_config {
  signer = record {
    cert_file = "cert.pem";
    key_file = "key.pem";
    issuer_cert_file = "issuer.pem";
    response_validity = "1h";
  };
  source = record zero_config.source {
    type = "file";
    file = record { crl_path = "/crl.pem"; reload_interval = "1h"; expiry_grace = "" };
  };
  cache = record { enabled = true; ttl = "1h"; max_entries = pos 2 };
}

abbrev loaded : Config.Config
loaded = record written { server = record written.server { listen_addr = default_listen_addr } }

abbrev decode : Bytes → Result Config.Config
decode [] = err end_of_file
decode (_ ∷ _) = ok written

load-written : load parse_duration decode (ok (1 ∷ [])) ≡ ok loaded
unfolding load
load-written = refl

load-IsValid_example : IsValid parse_duration loaded
load-IsValid_example = load-IsValid parse_duration decode (ok (1 ∷ [])) loaded half load-written

abbrev pub world : World
world = record {
  parse_duration = parse_duration;
  decode = decode;
  config_file = ok (1 ∷ []);
  files = files;
  keys = keys;
  first_tick = λ path. finds (7 ∷ []) 200;
  root_cert = λ path. err end_of_file;
  append_certs = λ b. false;
  now = at 200;
}

abbrev ready : Running
ready = running sgn (at 3600) (pos 2) true (Backend.over_file source)

pub world-starts : start world ≡ ok ready
unfolding start ocsp.Startup.assemble ocsp.Go.Strings.has_prefix ocsp.Go.X509.bytes_equal
    ocsp.Base.Int.◌+ℤ◌ ocsp.Base.Int.◌-ℤ◌ ocsp.Base.Dict.insert ocsp.Go.Numerals.to_decimal
world-starts = refl

start-IsReady_example :
    (cfg : Config.Config) × (load world.parse_duration world.decode world.config_file ≡ ok cfg)
    × IsReady world cfg ready
start-IsReady_example = start-IsReady world ready half world-starts
