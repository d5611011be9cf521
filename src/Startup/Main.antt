-- ===== src/Startup/Main.antt =====
-- When the program ends with exit code 0.
use ocsp.Base.{◌*◌, none, ◌≡◌, ◌↔◌}
use ocsp.Base.Int.{pos}
use ocsp.Go.Time.{second}
use ocsp.Go.Errors.{ok, bind-ok}
use ocsp.Config
use ocsp.Config.{load}
use ocsp.Config.Valid.{Parses}
use ocsp.Signer.{new_signer}
use ocsp.Server.Lifecycle.{Net, http_server}
use ocsp.Server.Lifecycle.Ends.{Stopped, serve-ok_iff}
use ocsp.Startup.{World, Running, new_source, assemble, main}

-- The configuration was accepted and all the parts were made of it, the server was stopped, and it shut
-- down in time.
pub record EndsWell (w : World) (net : Net) : Type 0 where
  pub cfg : Config.Config
  pub running : Running
  pub loaded : load w.parse_duration w.decode w.config_file ≡ ok cfg
  pub assembled : assemble w cfg ≡ ok running
  pub stopped : Stopped net cfg
  pub shut_down : net.shutdown (http_server cfg) (pos (10 * second)) ≡ none

-- A configuration of which the parts can be made has a duration as the TTL of the cache.
assemble-Parses :
    (w : World) (cfg : Config.Config) (r : Running)
    → assemble w cfg ≡ ok r
    → Parses w.parse_duration cfg.cache.ttl
unfolding assemble
assemble-Parses w cfg r h =
    let (validity, _, h1) = bind-ok (w.parse_duration cfg.signer.response_validity) _ h in
    let ((sgn, warned), _, h2) =
      bind-ok
        (new_signer w.keys cfg.signer.cert_file cfg.signer.key_file cfg.signer.issuer_cert_file
          validity w.now)
        _ h1 in
    let (b, _, h3) = bind-ok (new_source w cfg.source sgn.issuer_cert) _ h2 in
    let (ttl, is_ttl, _) = bind-ok (w.parse_duration cfg.cache.ttl) _ h3 in (ttl, is_ttl)

-- The program ends with exit code 0 exactly if its configuration is accepted, the signer, the backend and
-- the responder can be made of it, the server is then stopped by a signal, or closed while it listens as
-- the configuration says, and the shutdown has no error. The server's own check of the TTL never fails.
pub main-ok_iff : (w : World) (net : Net) → (main w net ≡ ok tt) ↔ EndsWell w net
unfolding main
main-ok_iff w net = (forward, backward)
  where
    forward : main w net ≡ ok tt → EndsWell w net
    forward h =
        let (cfg, loaded, h1) = bind-ok (load w.parse_duration w.decode w.config_file) _ h in
        let (r, assembled, served) = bind-ok (assemble w cfg) _ h1 in
        let (_, stopped, shut_down) = (serve-ok_iff w.parse_duration net cfg).0 served in
        record {
          cfg = cfg;
          running = r;
          loaded = loaded;
          assembled = assembled;
          stopped = stopped;
          shut_down = shut_down;
        }

    backward : EndsWell w net → main w net ≡ ok tt
    backward e =
        let served =
          (serve-ok_iff w.parse_duration net e.cfg).1
            (assemble-Parses w e.cfg e.running e.assembled, e.stopped, e.shut_down) in
        rw (e.loaded, e.assembled) served
