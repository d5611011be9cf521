-- ===== src/Lib.antt =====
-- A verification of the OCSP responder of this repository: a server that tells clients whether a
-- certificate of one issuer is good, revoked or unknown, in responses that it signs and caches.
--
-- The parts and their files, with paths from the repository's root:
--   Responder       internal/responder/responder.go. `handle` is `Handle`: a request is admitted
--                   (Responder/Binding is `validateIssuerBinding`), looked up in the cache, and on a
--                   miss answered from the backend and signed. Responder/Cache is `cache`; `get_at` is
--                   `getAt`, in its two critical sections `observe` and `settle`, and `set_at` is `setAt`.
--   Source          internal/source/source.go, the interface of the backends, and the three of them:
--                   Source/File (file.go: the fields and `GetStatus`; Load: parsing, verifying and
--                   loading a list; Reload: `checkExpiry`, `markUnhealthy`, the reload loop, whose rounds
--                   are ticks, `NewFileSource` and `Stop`), Source/Http (http.go: the mapping of answers;
--                   Fetch: `fetchOnce`, `fetchWithRetry`, `GetStatus`) and Source/Static (static.go).
--   Signer          internal/signer/signer.go: `NewSigner` with its checks, `CreateResponse`, `Valid`, the
--                   expiry status and, in Signer/Monitor, `StartExpiryMonitor`.
--   Server          internal/server: Metrics (metrics.go), Handler (handler.go: `ServeOCSP` and
--                   `ServeHealth`) and three parts of server.go: Routes, the routes that `Start` registers;
--                   Listen, what it listens with, with `tlsMinVersion` and `ensureACMECacheDir`; and
--                   Lifecycle, `Start` itself.
--   Config          internal/config/config.go: `Load` and `validate`.
--   Startup         cmd/ocsp-responder/main.go: `newSource`, `main` and `buildLogger`.
--   Service         the parts together: the responder over a list, with requests and ticks of the reload
--                   loop in any order (Good), the same behind the HTTP server (Web), from the configuration
--                   file on (Program), and the responder over the CA's API behind the HTTP server (Api).
--   Base, Go        helpers, and what is used of Go's standard library: instants, errors, the digits of
--                   big integers, `strings`, the encodings of base64, the fields of certificates.
--   Tests           small instances of what is outside, and the theorems at concrete inputs.
--
-- How the code is read. State is passed explicitly: an operation takes the record of its state and
-- returns it. What an operation meets outside (its context's error, readings of the clock, files,
-- answers of servers) is an argument. An instant is its distance in nanoseconds from Go's zero time, and
-- the wall clock and the monotonic clock are one. A serial number is an integer, and the keys of the maps
-- are its decimal digits, as `String()` writes them. A status has a fourth case for the other values of
-- its Go type. Maps are association lists; which key a full cache gives up is an argument, `victim`.
-- Errors carry the texts of the code without their formatted parts. The waits between attempts are
-- int64, wrapped around. The counters that a source that asks the CA observes are disjoint from the
-- responder's, so each keeps a copy of the metrics. The handler's metrics are the responder's.
--
-- Arguments that stand for code outside of the repository: parsing of requests, lists, certificates and
-- keys, PEM, digests and signatures (records `Externals` and `Crypto`), the parser of responses
-- (`parse_status`), the YAML decoder and `time.ParseDuration` (`World`), and for `Start` the file system,
-- `ListenAndServe` and `Shutdown` (`Disk`, `Net`). Where a theorem asks something of them it is among
-- its hypotheses: that the parser of responses, in what the library makes with
-- the signer's own certificate and key, finds the status that was signed (0, 1 or 2), that no other bytes
-- have a file's digest, that "500ms" is a duration.
--
-- Fuel: `fetch_loop` takes the attempts that are left and starts with all of them, as the loop of the
-- code counts them; the digits and the bytes of a number and the rounds of `replace_all` are bounded by
-- the number and the length of the text, which each round makes smaller.
--
-- A path of an HTTP request is the list of its segments, percent-decoded and clean, so the redirects of
-- `ServeMux` for other paths do not occur. What the server takes from the network is read to its end; the
-- timeouts of its reads and writes are only set.
--
-- Not modelled: log lines, except those of `Handle`, of the reload loop and of the expiry monitor;
-- `server.New`, which collects its arguments; what `net/http` and `autocert` do while the server
-- listens; the command line. The end of the process by a signal is the end
-- of its context. The hours of `DaysUntilExpiry` and the seconds of the max-age,
-- which the code computes in float64, are exact. A tick that was ready with `done`, which the reload loop's
-- select may take first, is left out: after `Stop` there is none. Goroutines are
-- modelled where they share the cache (Responder/Cache/Races), as events of the service, and as what the
-- select of `Start` meets first.
pub mod Base
pub mod Go
pub mod Source
pub mod Signer
pub mod Server
pub mod Responder
pub mod Config
pub mod Startup
pub mod Service
pub mod Tests
