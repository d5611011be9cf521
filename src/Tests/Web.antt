-- ===== src/Tests/Web.antt =====
-- The HTTP server over the two backends.
use ocsp.Base.{
  ℕ, String, Bool, true, false, Option, none, some, List, [], ◌∷◌, ◌≡◌, ◌⊎◌, inl, inr, refl, arith,
  All,
}
use ocsp.Base.Int.{ℤ, pos}
use ocsp.Go.Errors.{Result, ok, err, end_of_file, ok-injective}
use ocsp.Go.X509.{Bytes}
use ocsp.Go.Base64.{encode, raw_url_encoding}
use ocsp.Go.Base64.Alphabets.{raw_url}
use ocsp.Source.File.{FileEnv, FileSource, file_source}
use ocsp.Source.Http.{HttpSource, new_http_source, set_observer}
use ocsp.Source.Http.Fetch.{HttpEnv, Attempt, http_source}
use ocsp.Server.Metrics.{new_metrics}
use ocsp.Server.Handler.{HttpReply, der}
use ocsp.Server.Routes.{Incoming, replies, dispatch}
use ocsp.Server.Routes.Reach.{SameAnswer, dispatch-SameAnswer}
use ocsp.Responder.Handle.{Responder, Call, new_responder}
use ocsp.Service.{as_signer}
use ocsp.Service.Says.{ReadsStatus}
use ocsp.Service.Web
use ocsp.Service.Web.{Event, asked, reloaded, VouchedReply}
use ocsp.Service.Program.{program_reply-Vouched}
use ocsp.Signer.Trust.{IsTrusted}
use ocsp.Tests.Starting.{world, half, world-starts}
use ocsp.Service.Api
use ocsp.Service.Api.{HeardReply, good_reply-HeardGood}
use ocsp.Tests.Bench.{
  keys, sgn, alive_at, parse_status, files, externals, finds, at, call_at, source,
}
use ocsp.Tests.Answers.{mapping, IsMet, env}

abbrev fresh : Responder file_source
fresh = new_responder file_source source (at 60) (pos 2) true (some new_metrics) (some 0)

abbrev post : Bytes → Incoming
post content = record {
  method = "POST";
  path = [];
  body = record { content = content; broken = none };
}

-- The request for serial number 48, in the two ways.
dispatch-SameAnswer_example :
    SameAnswer
      (dispatch parse_status externals file_source
        (as_signer keys sgn)
        (at 60)
        (call_at 300)
        (post (48 ∷ 8 ∷ []))
        fresh)
      (dispatch parse_status externals file_source
        (as_signer keys sgn)
        (at 60)
        (call_at 300)
        (record {
          method = "GET";
          path = encode raw_url_encoding (48 ∷ 8 ∷ []) ∷ [];
          body = record { content = []; broken = none };
        })
        fresh)
dispatch-SameAnswer_example =
    dispatch-SameAnswer parse_status externals file_source (as_signer keys sgn) (at 60)
      (call_at 300) fresh (8 ∷ []) [] (record { content = []; broken = none }) raw_url
      (omega arith, tt) (omega arith)

-- The responder with which the program of the tests starts.
abbrev started : Responder file_source
started = new_responder file_source source (at 3600) (pos 2) true (some new_metrics) (some 0)

abbrev events : List Event
events =
    asked (call_at 300) (post (9 ∷ []))
    ∷ reloaded (finds (8 ∷ 9 ∷ []) 400)
    ∷ reloaded (finds (7 ∷ []) 450)
    ∷ []

abbrev after_events : Responder file_source
after_events = Web.steps parse_status externals files keys sgn (at 60) events started

abbrev good_reply : HttpReply
good_reply = record {
  status_code = 200;
  cache_control = none;
  content_type = some "application/ocsp-response";
  content = der (0 ∷ []);
}

reads : ReadsStatus keys sgn parse_status
reads template out bounded by h = rw (← ok-injective h) refl

replied_good :
    (dispatch parse_status externals file_source
      (as_signer keys sgn)
      (at 60)
      (call_at 500)
      (post (8 ∷ []))
      after_events).0
    ≡ replies good_reply
unfolding dispatch Web.steps ocsp.Responder.Binding.validate_issuer_binding
    ocsp.Responder.Binding.equal_bytes ocsp.Responder.Cache.get_at ocsp.Base.Dict.lookup
    ocsp.Signer.create_response ocsp.Source.File.get_status ocsp.Base.Int.◌+ℤ◌ ocsp.Base.Int.◌-ℤ◌
    ocsp.Go.Numerals.to_decimal ocsp.Responder.Cache.set_at ocsp.Base.Dict.insert
    ocsp.Source.File.Reload.tick
replied_good = refl

-- The lookups of the two requests.
abbrev Looked : FileEnv → FileSource → Type 0
Looked env s = (env ≡ alive_at 300) ⊎ (env ≡ alive_at 500)

program_reply-Vouched_example :
    IsTrusted keys sgn
    × VouchedReply parse_status externals files keys sgn
        (at 60)
        Looked
        (call_at 500)
        (post (8 ∷ []))
        after_events
        (0 ∷ [])
program_reply-Vouched_example =
    program_reply-Vouched world parse_status externals (at 60) Looked sgn started events
      (call_at 500) (post (8 ∷ [])) good_reply (0 ∷ []) half world-starts reads (inl refl, tt)
      (inr refl) replied_good (refl, refl) refl

-- A source that was made for the CA of the tests.
abbrev no_file : Result Bytes
no_file = err end_of_file

abbrev made : HttpSource
made = record {
  base_url = "https://ca.example";
  mapping = mapping;
  max_attempts = pos 3;
  backoff = at 1;
  cache = [];
  cache_ttl = at 60;
  healthy = true;
  observer = none;
}

is_made :
    new_http_source "https://ca.example/" "" no_file (λ b. false) mapping (pos 3) (at 1) (at 60)
    ≡ ok made
unfolding new_http_source
is_made = refl

abbrev api_call : Call http_source
api_call = record {
  ctx_err = none;
  looked_up = at 100;
  source_env = env;
  signed_at = at 103;
  stored_at = at 103;
  victim = 0;
}

abbrev api_events : List (Call http_source × Incoming)
api_events = (api_call, post (9 ∷ [])) ∷ []

abbrev over_api : Responder http_source
over_api = Api.steps parse_status externals keys sgn (at 60) api_events (
    new_responder http_source (set_observer (some new_metrics) made) (at 60) (pos 2) true
      (some new_metrics) (some 0))

api_replied_good :
    (dispatch parse_status externals http_source
      (as_signer keys sgn)
      (at 60)
      api_call
      (post (8 ∷ []))
      over_api).0
    ≡ replies good_reply
unfolding dispatch Api.steps ocsp.Responder.Binding.validate_issuer_binding
    ocsp.Responder.Binding.equal_bytes ocsp.Responder.Cache.get_at ocsp.Base.Dict.lookup
    ocsp.Signer.create_response ocsp.Source.Http.Fetch.get_status set_observer
    ocsp.Responder.Cache.set_at ocsp.Base.Int.◌+ℤ◌ ocsp.Base.Dict.insert ocsp.Go.Numerals.to_decimal
api_replied_good = refl

good_reply-HeardGood_example :
    HeardReply parse_status externals keys sgn
      (at 60)
      IsMet
      made
      api_call
      (post (8 ∷ []))
      over_api
      (0 ∷ [])
good_reply-HeardGood_example =
    good_reply-HeardGood parse_status externals keys sgn (at 60) IsMet made "" "https://ca.example/"
      no_file (λ b. false) mapping (pos 3) (at 1) (at 60) (some new_metrics) (some new_metrics)
      (pos 2) true (some 0) api_events api_call (post (8 ∷ [])) good_reply (0 ∷ []) reads is_made
      (refl, tt) refl api_replied_good (refl, refl) refl
