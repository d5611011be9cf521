-- ===== src/Service/Web.antt =====
-- The service over a CRL as its clients meet it: HTTP requests to internal/server, which are served while
-- the reload loop of the backend runs.
use ocsp.Base.{ℕ, Option, some, List, [], ◌∷◌, ◌≡◌}
use ocsp.Go.Time.{Duration}
use ocsp.Go.X509.{Bytes}
use ocsp.Source.File.{FileSource, FileEnv, file_source}
use ocsp.Source.File.Load
use ocsp.Source.File.Reload.{Tick, tick}
use ocsp.Signer
use ocsp.Server.Handler.{HttpReply}
use ocsp.Server.Handler.Replies.{Delivers}
use ocsp.Server.Routes.{Incoming, replies, dispatch}
use ocsp.Server.Routes.Soundness.{dispatch-IsSound, Served, dispatch-Served}
use ocsp.Responder.Binding.{Externals}
use ocsp.Responder.Handle.{Responder, Call}
use ocsp.Responder.Handle.Provenance.{Answered}
use ocsp.Service.{as_signer}
use ocsp.Service.Says.{ReadsStatus}
use ocsp.Service.Good.{IsKept, tick-IsKept, Asks, Vouched, IsSound, handle-Vouched}

-- What happens to the service: an HTTP request, or a tick of the reload loop.
pub data Event : Type 0 where
  asked : Call file_source → Incoming → Event
  reloaded : Tick → Event

module _ (parse_status : Bytes → Option ℕ) (x : Externals) (files : Load.Crypto)
    (keys : Signer.Crypto) (sgn : Signer.Signer) (cache_ttl : Duration) where
  unfoldable pub step : Event → Responder file_source → Responder file_source
  step (asked call q) r =
      (dispatch parse_status x file_source (as_signer keys sgn) cache_ttl call q r).1
  step (reloaded t) r = record r { source = tick files t r.source }

  unfoldable pub steps : List Event → Responder file_source → Responder file_source
  unfolding step
  steps [] r = r
  steps (event ∷ more) r = steps more (step event r)

  module _ (IsMet : FileEnv → FileSource → Type 0) where
    -- The lookups that the events may make, each from the source as it is then.
    abbrev pub AllMet : List Event → Responder file_source → Type 0
    AllMet [] r = Unit
    AllMet (asked call q ∷ more) r =
        IsMet call.source_env r.source × AllMet more (step (asked call q) r)
    AllMet (reloaded t ∷ more) r = AllMet more (step (reloaded t) r)

    steps-IsSound :
        (events : List Event) (r : Responder file_source)
        → AllMet events r
        → IsSound x files keys sgn IsMet r
        → IsSound x files keys sgn IsMet (steps events r)
    unfolding steps step
    steps-IsSound [] r met h = h
    steps-IsSound (asked call q ∷ more) r (met, later) (kept, held) =
        let after =
          dispatch-IsSound parse_status x file_source (as_signer keys sgn)
            (Asks x files keys sgn IsMet) (IsKept x files keys sgn IsMet) cache_ttl call q r
            (met, kept) (λ serial s b. b) (record { source = kept; cache = held }) in
        steps-IsSound more _ later (after.source, after.cache)
    steps-IsSound (reloaded t ∷ more) r met (kept, held) =
        steps-IsSound more _ met (tick-IsKept x files keys sgn IsMet t r.source kept, held)

    -- The request that a reply answers, and why it may say `good`.
    pub record VouchedReply (call : Call file_source) (q : Incoming) (r : Responder file_source)
        (out : Bytes) : Type 0 where
      pub served : Served parse_status x file_source (as_signer keys sgn) cache_ttl call q r out
      pub answered :
          Answered x file_source
            (as_signer keys sgn)
            (Asks x files keys sgn IsMet)
            call
            served.der
            out
            r
      pub vouched :
          Vouched IsMet files sgn.issuer_cert answered.req.serial_number answered.next_update

    -- A reply of a service that started with a sound responder, if it reads as `good`, is vouched for.
    pub sound_reply-Vouched :
        (start : Responder file_source) (events : List Event) (call : Call file_source)
        (q : Incoming) (reply : HttpReply) (out : Bytes)
        → ReadsStatus keys sgn parse_status
        → AllMet events start
        → IsMet call.source_env (steps events start).source
        → IsSound x files keys sgn IsMet start
        → (dispatch parse_status x file_source
            (as_signer keys sgn)
            cache_ttl
            call
            q
            (steps events start)).0
          ≡ replies reply
        → Delivers reply out
        → parse_status out ≡ some 0
        → VouchedReply call q (steps events start) out
    sound_reply-Vouched start events call q reply out reads all_met met sound replied delivers
          is_good =
        let served =
          dispatch-Served parse_status x file_source (as_signer keys sgn) cache_ttl call q _ reply
            out replied delivers in
        let (a, v) =
          handle-Vouched x files keys sgn IsMet parse_status call served.der out _ reads met
            (steps-IsSound events start all_met sound) served.handled is_good in
        record { served = served; answered = a; vouched = v }
