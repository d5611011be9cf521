-- ===== src/Server/Lifecycle.antt =====
-- internal/server/server.go: `Start`, from the configuration to the end of the shutdown. The routes are
-- those of Server/Routes.
pub mod Ends
use ocsp.Base.{String, Bool, true, false, Option, none, some, ◌*◌, ℕ, if◌then◌else◌}
use ocsp.Base.Int.{pos}
use ocsp.Go.Time.{Duration, second}
use ocsp.Go.Errors.{Error, wrap, Result, ok, err, is_server_closed, check, wrap_error, ◌>>=◌, ◌>>◌}
use ocsp.Config
use ocsp.Server.Listen.{Disk, Listener, listener}

-- The fields of `http.Server` that are set.
pub record HttpServer : Type 0 where
  pub addr : String
  pub read_timeout : Duration
  pub write_timeout : Duration
  pub idle_timeout : Duration

-- What the select meets first: the end of the context, which is a signal to the process, or the value of
-- `errCh`.
pub data Woken : Type 0 where
  ctx_done err_ch : Woken

-- What the server calls: the file system, `ListenAndServe` and `ListenAndServeTLS`, which return when the
-- server does not listen any more, and `Shutdown`, for a time at most.
pub record Net : Type 0 where
  pub disk : Disk
  pub listen_and_serve : HttpServer → Listener → Option Error
  pub woken : Woken
  pub shutdown : HttpServer → Duration → Option Error

abbrev pub http_server : Config.Config → HttpServer
http_server cfg = record {
  addr = cfg.server.listen_addr;
  read_timeout = pos (10 * second);
  write_timeout = pos (10 * second);
  idle_timeout = pos (60 * second);
}

-- What the goroutine sends: that there is nothing to listen with, or what listening ended with.
abbrev pub sent : Net → HttpServer → Result Listener → Option Error
sent net server (err e) = some e
sent net server (ok l) = net.listen_and_serve server l

abbrev pub failed : Option Error → Option Error
failed none = none
failed (some e) = if is_server_closed e then none else some (wrap "ocsp-responder/server" e)

-- The select
abbrev pub selected : Woken → Option Error → Result (Unit {0})
selected ctx_done e = ok tt
selected err_ch e = check (failed e)

-- `Start`, which takes `time.ParseDuration`
unfoldable pub serve : (String → Result Duration) → Net → Config.Config → Result (Unit {0})
unfolding listener
serve parse_duration net cfg = do
  ttl ← wrap_error "ocsp-responder/server: invalid cache ttl" (parse_duration cfg.cache.ttl)
  selected net.woken (sent net (http_server cfg) (listener net.disk cfg.server.tls))
  check (net.shutdown (http_server cfg) (pos (10 * second)))
