-- ===== src/Service/Good.antt =====
-- What it takes for the service to answer `good`.
use ocsp.Base.{ℕ, Bool, false, Option, some, List, [], ◌∷◌, ◌≡◌, ◌≢◌, All, ◌∙◌, refl}
use ocsp.Base.Int.{ℤ, ◌≤ℤ◌}
use ocsp.Go.Time.{Time, Duration, is_zero}
use ocsp.Go.Errors.{ok}
use ocsp.Go.X509.{Bytes, Certificate}
use ocsp.Source.File
use ocsp.Source.File.{FileSource, FileEnv, file_source}
use ocsp.Source.File.Load
use ocsp.Source.File.Load.{RevocationList}
use ocsp.Source.File.Reload.{Tick, tick, new_file_source}
use ocsp.Source.File.Status.{Serves, get_status-good_iff, get_status_iff, get_status-next_update}
use ocsp.Source.File.Backed
use ocsp.Source.File.Verified.{IsVerified}
use ocsp.Source.File.Issuer.{issuer_cert-tick, issuer_cert-new_file_source}
use ocsp.Source.File.Backed.{IsBacked, tick-IsBacked, new_file_source-IsBacked}
use ocsp.Signer
use ocsp.Signer.{Template, create_response}
use ocsp.Signer.Validity.{IsSignedAs, create_response-IsSignedAs}
use ocsp.Server.Metrics.{Metrics}
use ocsp.Responder.Binding.{Externals}
use ocsp.Responder.Handle.{Responder, Call, verdict, handle, new_responder}
use ocsp.Responder.Handle.Backend.{handle-source}
use ocsp.Responder.Handle.Provenance.{
  Holds, Signed, Answered, handle-Holds, handle-Answered, empty-Holds,
}
use ocsp.Service.Says.{Encodes-good, good_verdict, ReadsStatus, IsSignedAs-good}
use ocsp.Service.{as_signer, Event, request, reload, step, steps}

-- When a service vouches for a serial number: in one of the lookups of `IsMet`, which are each a time and
-- the source in the state that it then had, the source was in service with a list that the issuer's own
-- key signed, the list was in its window and had no entry of the number, and the answer ends with the
-- list at the latest, if the list has an end.
pub record Vouched (IsMet : FileEnv → FileSource → Type 0) (files : Load.Crypto)
    (issuer : Certificate) (serial : ℤ) (next_update : Time) : Type 0 where
  pub source : FileSource
  pub env : FileEnv
  pub met : IsMet env source
  pub held : Backed.Holds files source
  pub verified : IsVerified files held.raw issuer held.list
  pub serves : Serves env issuer source
  pub unlisted : All (λ rc. rc.serial_number ≢ serial) held.list.revoked_certificate_entries
  pub capped : is_zero held.list.next_update ≡ false → next_update ≤ℤ held.list.next_update

module _ (x : Externals) (files : Load.Crypto) (keys : Signer.Crypto) (sgn : Signer.Signer)
    (IsMet : FileEnv → FileSource → Type 0) where
  -- The lookups that the events may make, each from the source as it is then.
  abbrev pub AllMet : List Event → Responder file_source → Type 0
  AllMet [] r = Unit
  AllMet (request call request_der ∷ more) r =
      IsMet call.source_env r.source
      × AllMet more (step x files keys sgn (request call request_der) r)
  AllMet (reload t ∷ more) r = AllMet more (step x files keys sgn (reload t) r)

  -- A source of the signer's issuer that holds, in service, a list of that issuer.
  abbrev pub IsKept : FileSource → Type 0
  IsKept s = IsBacked files s × (s.issuer_cert ≡ sgn.issuer_cert)

  -- A lookup of those, from such a source.
  abbrev pub Asks : FileEnv → FileSource → Type 0
  Asks env s = IsMet env s × IsKept s

  abbrev pub IsSound : Responder file_source → Type 0
  IsSound r = IsKept r.source × Holds (Signed file_source (as_signer keys sgn) Asks) r.cache

  pub tick-IsKept : (t : Tick) (s : FileSource) → IsKept s → IsKept (tick files t s)
  tick-IsKept t s (backed, issued) =
      (tick-IsBacked files t s backed, issuer_cert-tick files t s ∙ issued)

  steps-IsSound :
      (events : List Event) (r : Responder file_source)
      → AllMet events r
      → IsSound r
      → IsSound (steps x files keys sgn events r)
  unfolding steps step
  steps-IsSound [] r met h = h
  steps-IsSound (request call request_der ∷ more) r (met, later) (kept, held) =
      steps-IsSound more _ later (
        handle-source x file_source (as_signer keys sgn) IsKept call (λ serial s b. b) request_der r
            kept,
        handle-Holds x file_source (as_signer keys sgn) Asks call request_der r (met, kept) held,
      )
  steps-IsSound (reload t ∷ more) r met (kept, held) =
      steps-IsSound more _ met (tick-IsKept t r.source kept, held)

  -- Bytes that were signed as `good` from a source that is kept are vouched for.
  Signed-Vouched :
      (serial : ℤ) (out : Bytes) (next_update : Time)
      (p : Signed file_source (as_signer keys sgn) Asks serial out next_update)
      (made : let v = verdict (File.get_status p.env serial (some sgn.issuer_cert) p.state) in
        IsSignedAs keys sgn serial v.status v.revocation_info p.signed_at v.source_next_update out
          next_update)
      → made.mapped.0 ≡ 0
      → Vouched IsMet files sgn.issuer_cert serial next_update
  Signed-Vouched serial out next_update p made is_good =
      let (cs, answered, cleared, until) =
        good_verdict (File.get_status p.env serial (some sgn.issuer_cert) p.state)
          (Encodes-good made.encodes is_good) in
      let (serves, _) = (get_status_iff p.env serial sgn.issuer_cert p.state cs).0 answered in
      let (met, (backed, issued)) = p.sound in
      let held = backed serves.loaded in
      let ends =
        until
        ∙ get_status-next_update p.env serial sgn.issuer_cert p.state cs answered
        ∙ held.reflects.next_update in
      record {
        source = p.state;
        env = p.env;
        met = met;
        held = held;
        verified = rw issued at held.verified;
        serves = serves;
        unlisted =
            ((get_status-good_iff p.env serial sgn.issuer_cert p.state held.list held.reflects).0
              (cs, answered, cleared)).1;
        capped = λ dated. rw (← ends) (made.capped.in_source (rw ends dated));
      }

  -- A response of a responder that is sound, if it reads as `good`, is vouched for.
  pub handle-Vouched :
      (parse_status : Bytes → Option ℕ) (call : Call file_source) (request_der out : Bytes)
      (r : Responder file_source)
      → ReadsStatus keys sgn parse_status
      → IsMet call.source_env r.source
      → IsSound r
      → (handle x file_source (as_signer keys sgn) call request_der r).0 ≡ ok out
      → parse_status out ≡ some 0
      → (a : Answered x file_source (as_signer keys sgn) Asks call request_der out r) × Vouched
          IsMet files sgn.issuer_cert a.req.serial_number a.next_update
  handle-Vouched parse_status call request_der out r reads met (kept, held) answered is_good =
      let a =
        handle-Answered x file_source (as_signer keys sgn) Asks call request_der out r (met, kept)
          held answered in
      let made =
        create_response-IsSignedAs keys sgn a.req.serial_number _ _ a.signed.signed_at _ out
          a.next_update a.signed.created in
      let status =
        IsSignedAs-good keys sgn parse_status a.req.serial_number _ _ a.signed.signed_at _ out
          a.next_update made reads is_good in
      (a, Signed-Vouched a.req.serial_number out a.next_update a.signed made status)

  -- A responder over a source that was just made for the signer's issuer, with an empty cache, is sound.
  pub new_file_source-IsSound :
      (is_url : Bool) (grace : Duration) (start : Tick) (r : Responder file_source)
      → new_file_source files is_url (some sgn.issuer_cert) grace start ≡ ok r.source
      → r.cache.entries ≡ []
      → IsSound r
  new_file_source-IsSound is_url grace start r started empty = (
    (
      new_file_source-IsBacked files is_url (some sgn.issuer_cert) grace start r.source started,
      issuer_cert-new_file_source files is_url sgn.issuer_cert grace start r.source started,
    ),
    empty-Holds (Signed file_source (as_signer keys sgn) Asks) r.cache empty,
  )

  -- A service over a CRL, started with an empty cache, after any requests and any reloads: a request
  -- that is answered with a response that reads as `good` was accepted, and its serial number was
  -- vouched for by a list whose signature verified against the signer's own issuer certificate and
  -- that, in one of the lookups, was the source's list, in its window and without an entry of that
  -- number. `IsMet` has all the lookups, each with the source in the state that it had. The response
  -- ends with that list at the latest, if the list has an end; if it was not signed in this call, its
  -- end, if it has one, is still ahead when the cache is read. The reader of responses is to find the
  -- status, 0, 1 or 2, in what the library makes with the signer's own certificate and key.
  pub good_answer-Vouched :
      (parse_status : Bytes → Option ℕ) (is_url : Bool) (grace : Duration) (start : Tick)
      (source : FileSource) (cache_ttl : Duration) (max_entries : ℤ) (cache_enabled : Bool)
      (metrics : Option Metrics) (gauge : Option ℕ) (events : List Event) (call : Call file_source)
      (request_der out : Bytes)
      → ReadsStatus keys sgn parse_status
      → new_file_source files is_url (some sgn.issuer_cert) grace start ≡ ok source
      → let first =
          new_responder file_source source cache_ttl max_entries cache_enabled metrics gauge in
        let r = steps x files keys sgn events first in
        AllMet events first
        → IsMet call.source_env r.source
        → (handle x file_source (as_signer keys sgn) call request_der r).0 ≡ ok out
        → parse_status out ≡ some 0
        → (a : Answered x file_source (as_signer keys sgn) Asks call request_der out r) × Vouched
            IsMet files sgn.issuer_cert a.req.serial_number a.next_update
  good_answer-Vouched parse_status is_url grace start source cache_ttl max_entries cache_enabled
        metrics gauge events call request_der out reads started all_met met answered is_good =
      let first =
        new_responder file_source source cache_ttl max_entries cache_enabled metrics gauge in
      handle-Vouched parse_status call request_der out (steps x files keys sgn events first) reads
        met
        (steps-IsSound events first all_met
          (new_file_source-IsSound is_url grace start first started refl))
        answered is_good
