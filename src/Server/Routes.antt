-- ===== src/Server/Routes.antt =====
-- The routes that `Start` of internal/server/server.go registers, and how `http.ServeMux` chooses among
-- them: of the patterns that match a request's method and path, the most specific. A path is the list of
-- its segments, percent-decoded; a pattern for GET takes HEAD as well.
pub mod Reach
pub mod Soundness
use ocsp.Base.{
  ℕ, String, Bool, true, false, Option, none, some, List, [], ◌∷◌, ◌==◌, ◌&&◌, ◌||◌, ltb,
  if◌then◌else◌,
}
use ocsp.Go.Time.{Duration}
use ocsp.Go.X509.{Bytes, bytes_equal}
use ocsp.Source.{Source}
use ocsp.Responder.Binding.{Externals}
use ocsp.Responder.Handle
use ocsp.Responder.Handle.{Responder, Call}
use ocsp.Server.Handler.{Body, HttpRequest, HttpReply, message, serve_ocsp}

-- A pattern's path: a literal segment, one segment that is any text, or any path at all.
pub data Pattern : Type 0 where
  literal : Bytes → Pattern
  wildcard any_path : Pattern

pub data Target : Type 0 where
  ocsp_handler health_handler metrics_handler : Target

pub record Registration : Type 0 where
  pub method : String
  pub pattern : Pattern
  pub target : Target

abbrev pub health_path : Bytes
health_path = b'h' ∷ b'e' ∷ b'a' ∷ b'l' ∷ b't' ∷ b'h' ∷ []

abbrev pub metrics_path : Bytes
metrics_path = b'm' ∷ b'e' ∷ b't' ∷ b'r' ∷ b'i' ∷ b'c' ∷ b's' ∷ []

-- The calls of `mux.HandleFunc` and `mux.Handle`
abbrev pub registrations : List Registration
registrations =
    record { method = "POST"; pattern = any_path; target = ocsp_handler }
    ∷ record { method = "GET"; pattern = wildcard; target = ocsp_handler }
    ∷ record { method = "GET"; pattern = literal health_path; target = health_handler }
    ∷ record { method = "GET"; pattern = literal metrics_path; target = metrics_handler }
    ∷ []

abbrev takes_method : String → String → Bool
takes_method pattern method = pattern == method || (pattern == "GET" && method == "HEAD")

-- The text that a pattern's wildcard takes of a path, if the pattern matches it.
unfoldable pub match_path : Pattern → List Bytes → Option Bytes
unfolding bytes_equal
match_path any_path path = some []
match_path wildcard (segment ∷ []) = some segment
match_path (literal text) (segment ∷ []) = if bytes_equal text segment then some [] else none
match_path _ _ = none

abbrev pub rank : Pattern → ℕ
rank (literal text) = 0
rank wildcard = 1
rank any_path = 2

pub record Match : Type 0 where
  pub registration : Registration
  pub path_value : Bytes

abbrev match_registration : String → List Bytes → Registration → Option Match
match_registration method path r =
    if takes_method r.method method
    then elim (match_path r.pattern path) [
      | some path_value ↦ some (record { registration = r; path_value = path_value })
      | none ↦ none
    ]
    else none

-- The more specific of two matches.
abbrev better : Option Match → Option Match → Option Match
better none n = n
better (some m) none = some m
better (some m) (some n) =
    if ltb (rank n.registration.pattern) (rank m.registration.pattern) then some n else some m

unfoldable pub best : String → List Bytes → List Registration → Option Match
unfolding match_path
best method path [] = none
best method path (r ∷ more) =
    let rest = best method path more in better (match_registration method path r) rest

-- Where a request goes.
pub data Route : Type 0 where
  routed : Target → Bytes → Route
  not_routed : Route

abbrev route_of : Option Match → Route
route_of (some m) = routed m.registration.target m.path_value
route_of none = not_routed

unfoldable pub route : String → List Bytes → Route
unfolding best
route method path = route_of (best method path registrations)

-- A request as the server reads it.
pub record Incoming : Type 0 where
  pub method : String
  pub path : List Bytes
  pub body : Body

-- What the server does with a request: the handlers of health and metrics only read. Every path is one
-- that a POST may have, so the mux answers the others with 405.
pub data Dispatched : Type 0 where
  replies : HttpReply → Dispatched
  asked_health asked_metrics : Dispatched

abbrev mux_refusal : HttpReply
mux_refusal = record {
  status_code = 405;
  cache_control = none;
  content_type = some "text/plain; charset=utf-8";
  content = message "Method Not Allowed";
}

module _ (parse_status : Bytes → Option ℕ) (x : Externals) (S : Source) (sgn : Handle.Signer) where
  dispatched : Duration → Call S → Incoming → Route → Responder S → Dispatched × Responder S
  unfolding serve_ocsp
  dispatched cache_ttl call q not_routed r = (replies mux_refusal, r)
  dispatched cache_ttl call q (routed health_handler path_value) r = (asked_health, r)
  dispatched cache_ttl call q (routed metrics_handler path_value) r = (asked_metrics, r)
  dispatched cache_ttl call q (routed ocsp_handler path_value) r =
      let served =
        serve_ocsp parse_status x S sgn cache_ttl call
          (record { method = q.method; body = q.body; path_value = path_value }) r in
      (replies served.0, served.1)

  unfoldable pub dispatch : Duration → Call S → Incoming → Responder S → Dispatched × Responder S
  unfolding dispatched route
  dispatch cache_ttl call q r = dispatched cache_ttl call q (route q.method q.path) r
