-- ===== src/Tests/Requests.antt =====
-- Requests to the responder, and the whole service.
use ocsp.Base.{
  ℕ, ◌+◌, String, Bool, true, false, Option, none, some, List, [], ◌∷◌, ◌≡◌, ◌≢◌, ◌↔◌, ◌⊎◌, inl,
  inr, refl, arith,
}
use ocsp.Base.Int.{ℤ, pos, ◌<ℤ◌}
use ocsp.Go.Time.{zero_time}
use ocsp.Go.Numerals.{to_decimal}
use ocsp.Go.Errors.{ok, err, wrap, is_ok, ok-injective, source_unhealthy}
use ocsp.Go.X509.{Bytes}
use ocsp.Source.{Source, CertStatus, unknown}
use ocsp.Source.File.{FileSource, FileEnv, file_source, get_status}
use ocsp.Source.File.Reload.{new_file_source, ticks}
use ocsp.Source.File.Backed.{IsBacked}
use ocsp.Server.Metrics.{Metrics, new_metrics}
use ocsp.Responder.Binding.{Request, Names, validate_issuer_binding, validate_issuer_binding_iff}
use ocsp.Responder.Cache.{Cache, stores, expiry}
use ocsp.Responder.Cache.Lookup.{view}
use ocsp.Responder.Cache.Bounds.{IsBounded}
use ocsp.Responder.Handle
use ocsp.Responder.Handle.{Responder, Call, new_responder, handle, admit, verdict}
use ocsp.Responder.Handle.Admission.{IsAdmitted, admit_iff}
use ocsp.Responder.Handle.Provenance.{Holds, Signed, Answered, handle-Answered, new_responder-Holds}
use ocsp.Responder.Handle.Answers.{
  answer, handle-eq-answer, handle-IsBounded, handle_fails_closed, handle_again,
}
use ocsp.Responder.Handle.Repeats.{Later, IsRepeat, AllAnswered}
use ocsp.Responder.Handle.Counts.{Counted, handle-Counted}
use ocsp.Service.{as_signer, Event, request, reload, steps}
use ocsp.Service.Says.{ReadsStatus}
use ocsp.Service.Good.{Asks, Vouched, good_answer-Vouched}
use ocsp.Tests.Bench.{
  issuer, keys, sgn, parse_status, files, externals, finds, alive_at, at, call_at, source,
  source-started, source-IsBacked,
}

abbrev signs : Handle.Signer
signs = as_signer keys sgn

abbrev fresh : Responder file_source
fresh = new_responder file_source source (at 60) (pos 2) true (some new_metrics) (some 0)

fresh-Holds : Holds (Signed file_source signs (λ env. IsBacked files)) fresh.cache
fresh-Holds =
    new_responder-Holds externals file_source signs (λ env. IsBacked files) source (at 60) (pos 2)
      true (some new_metrics) (some 0)

fresh-IsBounded : IsBounded fresh.cache
fresh-IsBounded = record { size = omega arith; gauge = inr refl }

abbrev asked_8 : Request
asked_8 = record {
  hash_algorithm = 5;
  issuer_name_hash = 1 ∷ [];
  issuer_key_hash = 2 ∷ [];
  serial_number = pos 8;
}

admitted : admit externals file_source signs none (8 ∷ []) ≡ ok asked_8
unfolding admit validate_issuer_binding ocsp.Responder.Binding.equal_bytes ocsp.Go.X509.bytes_equal
admitted = refl

admit_iff_example :
    (admit externals file_source signs none (8 ∷ []) ≡ ok asked_8)
    ↔ IsAdmitted externals signs none (8 ∷ []) asked_8
admit_iff_example = admit_iff externals file_source signs none (8 ∷ []) asked_8

answered : (handle externals file_source signs (call_at 300) (8 ∷ []) fresh).0 ≡ ok (0 ∷ [])
unfolding handle validate_issuer_binding ocsp.Responder.Binding.equal_bytes ocsp.Go.X509.bytes_equal
    ocsp.Responder.Cache.get_at ocsp.Base.Dict.lookup ocsp.Signer.create_response get_status
    ocsp.Base.Int.◌+ℤ◌ ocsp.Base.Int.◌-ℤ◌ to_decimal
answered = refl

handle-Answered_example :
    Answered externals file_source signs
      (λ env. IsBacked files)
      (call_at 300)
      (8 ∷ [])
      (0 ∷ [])
      fresh
handle-Answered_example =
    handle-Answered externals file_source signs (λ env. IsBacked files) (call_at 300) (8 ∷ [])
      (0 ∷ []) fresh source-IsBacked fresh-Holds answered

handle-eq-answer_example :
    (handle externals file_source signs (call_at 300) (8 ∷ []) fresh).0
    ≡ answer externals file_source signs (call_at 300) (8 ∷ []) fresh
handle-eq-answer_example = handle-eq-answer externals file_source signs (call_at 300) (8 ∷ []) fresh

handle-IsBounded_example :
    IsBounded (handle externals file_source signs (call_at 300) (8 ∷ []) fresh).1.cache
handle-IsBounded_example =
    handle-IsBounded externals file_source signs (call_at 300) (8 ∷ []) fresh fresh-IsBounded

nothing_seen : (seconds : ℕ) → view (at seconds) (to_decimal (pos 8)) fresh.cache ≡ none
unfolding view ocsp.Base.Dict.lookup
nothing_seen seconds = refl

-- At 2000 the list has run out.
out_of_window : get_status (alive_at 2000) (pos 8) (some issuer) source ≡ err source_unhealthy
unfolding get_status ocsp.Base.Int.◌+ℤ◌
out_of_window = refl

no_status : (s : CertStatus) → get_status (alive_at 2000) (pos 8) (some issuer) source ≢ ok (some s)
no_status s h = absurd (cc (h, out_of_window))

handle_fails_closed_example :
    (handle externals file_source signs (call_at 2000) (8 ∷ []) fresh).0
    ≡ (elim (signs.create_response (pos 8) unknown none (at 2000) zero_time) [
      | ok (der, next_update) ↦ ok der
      | err e ↦ err (wrap "ocsp-responder/responder" e)
    ])
handle_fails_closed_example =
    handle_fails_closed externals file_source signs (call_at 2000) (8 ∷ []) fresh asked_8 admitted
      (nothing_seen 2000) no_status

signed_8 :
    (let v = verdict (get_status (alive_at 300) (pos 8) (some issuer) source) in
      signs.create_response (pos 8) v.status v.revocation_info (at 300) v.source_next_update)
    ≡ ok (0 ∷ [], at 1000)
unfolding verdict get_status ocsp.Signer.create_response ocsp.Base.Int.◌+ℤ◌ ocsp.Base.Int.◌-ℤ◌
    ocsp.Base.Dict.lookup to_decimal
signed_8 = refl

stores_8 : stores fresh.cache (at 300) (at 1000) ≡ true
unfolding stores ocsp.Base.Int.◌+ℤ◌
stores_8 = refl

soon : at 350 <ℤ expiry fresh.cache (at 300) (at 1000)
unfolding expiry ocsp.Base.Int.◌+ℤ◌
soon = omega arith

is_repeat :
    (l : Later file_source)
    → admit externals file_source signs l.call.ctx_err l.request_der ≡ ok asked_8
    → l.call.looked_up ≡ at 350
    → IsRepeat externals file_source signs (pos 8) (expiry fresh.cache (at 300) (at 1000)) l
unfolding IsRepeat
is_repeat l h same = (asked_8, h, refl, rw same soon)

-- The same request again, and once more when the source has no list in service.
abbrev again : Later file_source
again = record { source = source; call = call_at 350; request_der = 8 ∷ [] }

abbrev when_down : Later file_source
when_down = record again { source = record source { loaded = false } }

handle_again_example :
    AllAnswered externals file_source signs
      (0 ∷ [])
      (again ∷ when_down ∷ [])
      (handle externals file_source signs (call_at 300) (8 ∷ []) fresh).1
handle_again_example =
    handle_again externals file_source signs (call_at 300) (8 ∷ []) fresh asked_8 (0 ∷ []) (at 1000)
      (again ∷ when_down ∷ []) admitted (nothing_seen 300) signed_8 stores_8
      (is_repeat again admitted refl, (is_repeat when_down admitted refl, tt))

handle-Counted_example :
    (m' : Metrics) × ((handle externals file_source signs (call_at 300) (8 ∷ []) fresh).1.metrics
      ≡ some m')
    × Counted "file" (is_ok (admit externals file_source signs none (8 ∷ []))) new_metrics m'
handle-Counted_example =
    handle-Counted externals file_source signs (call_at 300) (8 ∷ []) fresh new_metrics refl

-- A request, a list that is replaced by one that revokes 8 and 9, one that comes back, and a request.
abbrev events : List Event
events =
    request (call_at 300) (9 ∷ [])
    ∷ reload (finds (8 ∷ 9 ∷ []) 400)
    ∷ reload (finds (7 ∷ []) 450)
    ∷ []

abbrev after_events : Responder file_source
after_events =
    steps externals files keys sgn events
      (new_responder file_source source (at 60) (pos 2) true (some new_metrics) (some 0))

good_answer :
    (handle externals file_source (as_signer keys sgn) (call_at 500) (8 ∷ []) after_events).0
    ≡ ok (0 ∷ [])
unfolding handle steps validate_issuer_binding ocsp.Responder.Binding.equal_bytes
    ocsp.Go.X509.bytes_equal ocsp.Responder.Cache.get_at ocsp.Base.Dict.lookup
    ocsp.Signer.create_response get_status ocsp.Base.Int.◌+ℤ◌ ocsp.Base.Int.◌-ℤ◌ to_decimal
    ocsp.Responder.Cache.set_at ocsp.Base.Dict.insert ocsp.Source.File.Reload.tick
good_answer = refl

reads : ReadsStatus keys sgn parse_status
reads template der bounded by h = rw (← ok-injective h) refl

-- The lookups of the two requests.
abbrev IsMet : FileEnv → FileSource → Type 0
IsMet env s = (env ≡ alive_at 300) ⊎ (env ≡ alive_at 500)

good_answer-Vouched_example :
    (a : Answered externals file_source
      (as_signer keys sgn)
      (Asks externals files keys sgn IsMet)
      (call_at 500)
      (8 ∷ [])
      (0 ∷ [])
      after_events)
    × Vouched IsMet files issuer a.req.serial_number a.next_update
good_answer-Vouched_example =
    good_answer-Vouched externals files keys sgn IsMet parse_status false (pos 0)
      (finds (7 ∷ []) 200) source (at 60) (pos 2) true (some new_metrics) (some 0) events
      (call_at 500) (8 ∷ []) (0 ∷ []) reads source-started (inl refl, tt) (inr refl) good_answer
      refl
