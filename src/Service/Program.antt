-- ===== src/Service/Program.antt =====
-- From the configuration file to an HTTP reply: the program that cmd/ocsp-responder/main.go assembles over a
-- CRL, serving HTTP requests.
use ocsp.Base.{ℕ, Option, some, List, ◌≡◌}
use ocsp.Go.Time.{Duration}
use ocsp.Go.Errors.{ok}
use ocsp.Go.X509.{Bytes}
use ocsp.Config
use ocsp.Config.Valid.{Parses}
use ocsp.Source.File.{FileSource, FileEnv, file_source}
use ocsp.Signer
use ocsp.Signer.Trust.{IsTrusted}
use ocsp.Startup.{World, Running, with_file, with_static, with_http, is_url, start}
use ocsp.Startup.Sources.{IsReady, ready_file, ready_static, ready_http, start-IsReady}
use ocsp.Server.Handler.{HttpReply}
use ocsp.Server.Handler.Replies.{Delivers}
use ocsp.Server.Routes.{Incoming, replies, dispatch}
use ocsp.Responder.Binding.{Externals}
use ocsp.Responder.Handle.{Responder, Call}
use ocsp.Service.{as_signer}
use ocsp.Service.Says.{ReadsStatus}
use ocsp.Service.Good.{IsSound, new_file_source-IsSound}
use ocsp.Service.Web.{Event, AllMet, steps, VouchedReply, sound_reply-Vouched}

-- A program over a CRL has a trusted signer and a responder that is sound.
abbrev Starts : World → Externals → (FileEnv → FileSource → Type 0) → Running → Type 0
Starts w x IsMet (with_file sgn r) = IsTrusted w.keys sgn × IsSound x w.files w.keys sgn IsMet r
Starts w x IsMet (with_static sgn r) = Unit
Starts w x IsMet (with_http sgn r) = Unit

IsReady-Starts :
    (w : World) (x : Externals) (IsMet : FileEnv → FileSource → Type 0) (cfg : Config.Config)
    (r : Running)
    → IsReady w cfg r
    → Starts w x IsMet r
IsReady-Starts w x IsMet cfg _ (ready_file sgn r grace configured new type given started) = (
  configured.trusted,
  new_file_source-IsSound x w.files w.keys sgn IsMet (is_url cfg.source.file.crl_path) grace
      (w.first_tick cfg.source.file.crl_path) r started new.cache.entries,
)
IsReady-Starts w x IsMet cfg _ (ready_static sgn r configured new type names) = tt
IsReady-Starts w x IsMet cfg _
      (ready_http sgn r backoff ttl made configured new type given given' started same) =
    tt

-- Where the program started over a CRL, whatever the configuration file had in it: its signer is a
-- delegated responder of its issuer, and after any HTTP requests and any reloads a reply with status 200
-- whose bytes read as `good` answers a request that the HTTP request carried, and whose serial number was
-- vouched for by a list whose signature verified against that issuer's certificate and that, in one of
-- the lookups, was the source's list, in its window and without an entry of the number. `IsMet` has all
-- the lookups, each with the source in the state that it had; "500ms" is a duration; and the reader of
-- responses is to find the status, 0, 1 or 2, in what the library makes with the signer's own certificate
-- and key.
pub program_reply-Vouched :
    (w : World) (parse_status : Bytes → Option ℕ) (x : Externals) (cache_ttl : Duration)
    (IsMet : FileEnv → FileSource → Type 0) (sgn : Signer.Signer) (started : Responder file_source)
    (events : List Event) (call : Call file_source) (q : Incoming) (reply : HttpReply) (out : Bytes)
    → Parses w.parse_duration "500ms"
    → start w ≡ ok (with_file sgn started)
    → ReadsStatus w.keys sgn parse_status
    → AllMet parse_status x w.files w.keys sgn cache_ttl IsMet events started
    → let r = steps parse_status x w.files w.keys sgn cache_ttl events started in
      IsMet call.source_env r.source
      → (dispatch parse_status x file_source (as_signer w.keys sgn) cache_ttl call q r).0
        ≡ replies reply
      → Delivers reply out
      → parse_status out ≡ some 0
      → IsTrusted w.keys sgn
        × VouchedReply parse_status x w.files w.keys sgn cache_ttl IsMet call q r out
program_reply-Vouched w parse_status x cache_ttl IsMet sgn started events call q reply out half
      starts reads all_met met replied delivers is_good =
    let (cfg, loaded, ready) = start-IsReady w (with_file sgn started) half starts in
    let (trusted, sound) = IsReady-Starts w x IsMet cfg (with_file sgn started) ready in
    (
      trusted,
      sound_reply-Vouched parse_status x w.files w.keys sgn cache_ttl IsMet started events call q
          reply out reads all_met met sound replied delivers is_good,
    )
