-- ===== src/Service/Api.antt =====
-- The service over the CA's REST API: HTTP requests to internal/server, answered from `HTTPSource`.
use ocsp.Base.{ℕ, String, Bool, Option, some, List, [], ◌∷◌, ◌≡◌, refl, All}
use ocsp.Base.Int.{ℤ}
use ocsp.Go.Time.{Time, Duration}
use ocsp.Go.Errors.{Result, ok, err}
use ocsp.Go.X509.{Bytes}
use ocsp.Source.{CertStatus}
use ocsp.Source.Http.{HttpSource, ResponseMapping, new_http_source, set_observer}
use ocsp.Source.Http.Fetch.{HttpEnv, Attempt, some_status, http_source}
use ocsp.Source.Http.Kept.{
  HeardGood, Keeps, heard, Heard-made, get_status-Keeps, Heard-HeardGood, new_http_source-empty,
  empty-CacheHeard,
}
use ocsp.Signer
use ocsp.Server.Metrics.{Metrics}
use ocsp.Server.Handler.{HttpReply}
use ocsp.Server.Handler.Replies.{Delivers}
use ocsp.Server.Routes.{Incoming, replies, dispatch}
use ocsp.Server.Routes.Soundness.{IsSound, dispatch-IsSound, Served, dispatch-Served}
use ocsp.Responder.Binding.{Externals}
use ocsp.Responder.Handle.{Responder, Call, new_responder}
use ocsp.Responder.Handle.Provenance.{Signed, Answered, handle-Answered, new_responder-Holds}
use ocsp.Service.{as_signer}
use ocsp.Service.Says.{ReadsStatus, Signed-good}

some_status-ok :
    (m : Result CertStatus) (cs : CertStatus) → some_status m ≡ ok (some cs) → m ≡ ok cs
some_status-ok (ok cs') cs h = cc
some_status-ok (err e) cs h = absurd (cc)

module _ (parse_status : Bytes → Option ℕ) (x : Externals) (keys : Signer.Crypto)
    (sgn : Signer.Signer) (cache_ttl : Duration) where
  -- Any HTTP requests.
  unfoldable pub steps :
      List (Call http_source × Incoming) → Responder http_source → Responder http_source
  steps [] r = r
  steps ((call, q) ∷ more) r =
      steps more (dispatch parse_status x http_source (as_signer keys sgn) cache_ttl call q r).1

  module _ (IsMet : (String → ℕ → Attempt) → Type 0) (made : HttpSource) where
    -- A lookup that met a server of the CA, from a source with what was heard.
    abbrev pub Asks : HttpEnv → HttpSource → Type 0
    Asks env s = IsMet env.server × Keeps IsMet made s

    abbrev IsSoundApi : Responder http_source → Type 0
    IsSoundApi = IsSound http_source (as_signer keys sgn) Asks (Keeps IsMet made)

    steps-IsSound :
        (events : List (Call http_source × Incoming)) (r : Responder http_source)
        → All (λ (e : Call http_source × Incoming). IsMet e.0.source_env.server) events
        → IsSoundApi r
        → IsSoundApi (steps events r)
    unfolding steps
    steps-IsSound [] r met h = h
    steps-IsSound ((call, q) ∷ more) r (met, later) h = steps-IsSound more _ later (
        dispatch-IsSound parse_status x http_source (as_signer keys sgn) Asks (Keeps IsMet made)
          cache_ttl call q r (met, h.source)
          (λ serial s k. get_status-Keeps IsMet made call.source_env serial s met k) h)

    -- Bytes that were signed as `good` were signed on the CA's word.
    Signed-HeardGood :
        (serial : ℤ) (out : Bytes) (next_update : Time)
        → Signed http_source (as_signer keys sgn) Asks serial out next_update
        → ReadsStatus keys sgn parse_status
        → parse_status out ≡ some 0
        → HeardGood IsMet made serial
    Signed-HeardGood serial out next_update p reads is_good =
        let (cs, answered, cleared) =
          Signed-good keys sgn parse_status http_source Asks serial out next_update p reads
            is_good in
        let (met, keeps) = p.sound in
        let said =
          (heard IsMet made p.env serial p.state met keeps).answer cs
            (some_status-ok _ cs answered) in
        Heard-HeardGood IsMet made serial cs (Heard-made IsMet made p.state serial cs keeps said)
          cleared

    -- The request that a reply answers, and why it may say `good`.
    pub record HeardReply (call : Call http_source) (q : Incoming) (r : Responder http_source)
        (out : Bytes) : Type 0 where
      pub served : Served parse_status x http_source (as_signer keys sgn) cache_ttl call q r out
      pub answered : Answered x http_source (as_signer keys sgn) Asks call served.der out r
      pub heard_good : HeardGood IsMet made answered.req.serial_number

    -- A service over the CA's API, started with a new source, answers any HTTP requests: a reply with
    -- status 200 whose bytes read as `good` answers a request that the HTTP request carried and the
    -- responder accepted, and to one of the attempts to look up its serial number the CA answered
    -- with status 200 and a value that stands for good. The servers that the lookups met are all
    -- among those of `IsMet`, and the reader of responses is to find the status, 0, 1 or 2, in what
    -- the library makes with the signer's own certificate and key.
    pub good_reply-HeardGood :
        (root_cert_file base_url : String) (file : Result Bytes) (append_certs : Bytes → Bool)
        (mapping : ResponseMapping) (max_retries : ℤ) (retry_backoff source_ttl : Duration)
        (observer metrics : Option Metrics) (max_entries : ℤ) (cache_enabled : Bool)
        (gauge : Option ℕ) (events : List (Call http_source × Incoming)) (call : Call http_source)
        (q : Incoming) (reply : HttpReply) (out : Bytes)
        → ReadsStatus keys sgn parse_status
        → new_http_source base_url root_cert_file file append_certs mapping max_retries
            retry_backoff source_ttl
          ≡ ok made
        → All (λ (e : Call http_source × Incoming). IsMet e.0.source_env.server) events
        → IsMet call.source_env.server
        → let r = steps events (
            new_responder http_source
              (set_observer observer made)
              cache_ttl
              max_entries
              cache_enabled
              metrics
              gauge) in
          (dispatch parse_status x http_source (as_signer keys sgn) cache_ttl call q r).0
            ≡ replies reply
          → Delivers reply out
          → parse_status out ≡ some 0
          → HeardReply call q r out
    unfolding set_observer
    good_reply-HeardGood root_cert_file base_url file append_certs mapping max_retries retry_backoff
          source_ttl observer metrics max_entries cache_enabled gauge events call q reply out reads
          started all_met met replied delivers is_good =
        let empty =
          new_http_source-empty base_url root_cert_file file append_certs mapping max_retries
            retry_backoff source_ttl made started in
        let sound = steps-IsSound events _ all_met (record {
          source = record {
            mapping = refl;
            base_url = refl;
            max_attempts = refl;
            cached = empty-CacheHeard IsMet made made.cache empty;
          };
          cache =
              new_responder-Holds x http_source (as_signer keys sgn) Asks
                (set_observer observer made) cache_ttl max_entries cache_enabled metrics gauge;
        }) in
        let served =
          dispatch-Served parse_status x http_source (as_signer keys sgn) cache_ttl call q _ reply
            out replied delivers in
        let a =
          handle-Answered x http_source (as_signer keys sgn) Asks call served.der out _
            (met, sound.source) sound.cache served.handled in
        record {
          served = served;
          answered = a;
          heard_good =
              Signed-HeardGood a.req.serial_number out a.next_update a.signed reads is_good;
        }
