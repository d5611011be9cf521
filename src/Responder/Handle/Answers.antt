-- ===== src/Responder/Handle/Answers.antt =====
-- What `Handle` answers, and what a request leaves for the next.
use ocsp.Base.{All, List, String, true, Option, none, some, ◌≡◌, ◌≢◌, refl, ap, ◌∙◌, arith}
use ocsp.Base.Int.{ℤ, ◌<ℤ◌}
use ocsp.Go.Time.{Time, zero_time}
use ocsp.Go.Numerals.{to_decimal}
use ocsp.Go.Errors.{Result, ok, err, wrap}
use ocsp.Go.X509.{Bytes}
use ocsp.Source.{Source, CertStatus, Status, unknown}
use ocsp.Responder.Binding.{Externals, Request}
use ocsp.Responder.Cache.{Cache, get_at, set_at, stores, expiry}
use ocsp.Responder.Cache.Bounds.{IsBounded, set_at-IsBounded, get_at-IsBounded}
use ocsp.Responder.Cache.Lookup.{view, get_at-eq-view, view-set_at_self, stores-get_at}
use ocsp.Responder.Handle.Repeats.{Later, IsRepeat, AllAnswered, repeats-AllAnswered}
use ocsp.Responder.Handle.{
  Signer, Responder, Call, Verdict, verdict, admit, handle, serve, look_up, store_signed,
}

module _ (x : Externals) (S : Source) (sgn : Signer) where
  -- The signer's answer to a verdict, as the client gets it.
  abbrev signed_answer : Call S → ℤ → Verdict → Result Bytes
  signed_answer call serial v =
      elim (sgn.create_response serial v.status v.revocation_info call.signed_at
        v.source_next_update) [
          | ok (der, next_update) ↦ ok der
          | err e ↦ err (wrap "ocsp-responder/responder" e)
        ]

  abbrev fresh_answer : Call S → ℤ → S.State → Result Bytes
  fresh_answer call serial source =
      signed_answer call serial
        (verdict (S.get_status call.source_env serial sgn.issuer_cert source).0)

  abbrev or_fresh : Call S → ℤ → S.State → Option Bytes → Result Bytes
  or_fresh call serial source (some cached) = ok cached
  or_fresh call serial source none = fresh_answer call serial source

  abbrev answer_admitted : Call S → Responder S → Result Request → Result Bytes
  answer_admitted call r (err e) = err e
  answer_admitted call r (ok req) =
      or_fresh call req.serial_number r.source
        (view call.looked_up (to_decimal req.serial_number) r.cache)

  -- The answer to a request in terms of what is seen in the cache, with no account of how.
  unfoldable pub answer : Call S → Bytes → Responder S → Result Bytes
  answer call request_der r = answer_admitted call r (admit x S sgn call.ctx_err request_der)

  look_up-answer :
      (call : Call S) (serial : ℤ) (found : Option Bytes × Cache) (r : Responder S)
      → (look_up x S sgn call serial found r).0 ≡ or_fresh call serial r.source found.0
  unfolding look_up
  look_up-answer call serial (some cached, cache) r = refl
  look_up-answer call serial (none, cache) r = ground arith

  serve-answer :
      (call : Call S) (admitted : Result Request) (r : Responder S)
      → (serve x S sgn call admitted r).0 ≡ answer_admitted call r admitted
  unfolding serve
  serve-answer call (err e) r = refl
  serve-answer call (ok req) r =
      look_up-answer call req.serial_number _ r
      ∙ ap (or_fresh call req.serial_number r.source)
          (get_at-eq-view (to_decimal req.serial_number) call.looked_up r.cache)

  -- The answer to every request: a refusal if it is not admitted, what is seen in the cache under its
  -- serial number, and otherwise the signer's answer to the verdict of the backend.
  pub handle-eq-answer :
      (call : Call S) (request_der : Bytes) (r : Responder S)
      → (handle x S sgn call request_der r).0 ≡ answer call request_der r
  unfolding handle answer
  handle-eq-answer call request_der r = serve-answer call (admit x S sgn call.ctx_err request_der) r

  store_signed-IsBounded :
      (call : Call S) (serial : ℤ) (status : Status) (res : Result (Bytes × Time)) (r : Responder S)
      → IsBounded r.cache
      → IsBounded (store_signed x S sgn call serial status res r).1.cache
  unfolding store_signed
  store_signed-IsBounded call serial status (err e) r h = h
  store_signed-IsBounded call serial status (ok (der, nu)) r h =
      set_at-IsBounded call.victim (to_decimal serial) der call.stored_at nu r.cache h

  look_up-IsBounded :
      (call : Call S) (serial : ℤ) (found : Option Bytes × Cache) (r : Responder S)
      → IsBounded found.1
      → IsBounded (look_up x S sgn call serial found r).1.cache
  unfolding look_up
  look_up-IsBounded call serial (some cached, cache) r h = h
  look_up-IsBounded call serial (none, cache) r h = store_signed-IsBounded call serial _ _ _ h

  serve-IsBounded :
      (call : Call S) (admitted : Result Request) (r : Responder S)
      → IsBounded r.cache
      → IsBounded (serve x S sgn call admitted r).1.cache
  unfolding serve
  serve-IsBounded call (err e) r h = h
  serve-IsBounded call (ok req) r h =
      look_up-IsBounded call req.serial_number _ r
        (get_at-IsBounded (to_decimal req.serial_number) call.looked_up r.cache h)

  -- A request keeps the cache within its bound and the gauge right.
  pub handle-IsBounded :
      (call : Call S) (request_der : Bytes) (r : Responder S)
      → IsBounded r.cache
      → IsBounded (handle x S sgn call request_der r).1.cache
  unfolding handle
  handle-IsBounded call request_der r h =
      serve-IsBounded call (admit x S sgn call.ctx_err request_der) r h

  verdict_of_failure :
      (a : Result (Option CertStatus))
      → ((s : CertStatus) → a ≢ ok (some s))
      → verdict a
        ≡ record { status = unknown; revocation_info = none; source_next_update = zero_time }
  unfolding verdict
  verdict_of_failure (ok (some s)) h = absurd (h s refl)
  verdict_of_failure (ok none) h = refl
  verdict_of_failure (err e) h = refl

  -- If the backend fails, or has no status, an admitted request that the cache does not answer is
  -- signed as `unknown`, with no revocation and no cap from the backend: never as `good`.
  pub handle_fails_closed :
      (call : Call S) (request_der : Bytes) (r : Responder S) (req : Request)
      → admit x S sgn call.ctx_err request_der ≡ ok req
      → view call.looked_up (to_decimal req.serial_number) r.cache ≡ none
      → ((s : CertStatus)
          → (S.get_status call.source_env req.serial_number sgn.issuer_cert r.source).0
            ≢ ok (some s))
      → (handle x S sgn call request_der r).0
        ≡ (elim (sgn.create_response req.serial_number unknown none call.signed_at zero_time) [
          | ok (der, next_update) ↦ ok der
          | err e ↦ err (wrap "ocsp-responder/responder" e)
        ])
  handle_fails_closed call request_der r req admitted unseen failed =
      handle-eq-answer call request_der r
      ∙ unfold answer in
        rw (admitted, unseen)
          (ap (signed_answer call req.serial_number) (verdict_of_failure _ failed))

  look_up-kept :
      (call : Call S) (serial : ℤ) (found : Option Bytes × Cache) (r : Responder S) (out : Bytes)
      (next_update : Time)
      → found.0 ≡ none
      → (let v = verdict (S.get_status call.source_env serial sgn.issuer_cert r.source).0 in
          sgn.create_response serial v.status v.revocation_info call.signed_at v.source_next_update)
        ≡ ok (out, next_update)
      → (look_up x S sgn call serial found r).1.cache
        ≡ set_at call.victim (to_decimal serial) out call.stored_at next_update found.1
  unfolding look_up
  look_up-kept call serial (some data_bytes, cache) r out next_update h created = absurd (cc)
  look_up-kept call serial (none, cache) r out next_update h created =
      rw (created, store_signed) refl

  handle-kept :
      (call : Call S) (request_der : Bytes) (r : Responder S) (req : Request) (out : Bytes)
      (next_update : Time)
      → admit x S sgn call.ctx_err request_der ≡ ok req
      → view call.looked_up (to_decimal req.serial_number) r.cache ≡ none
      → (let v =
            verdict (S.get_status call.source_env req.serial_number sgn.issuer_cert r.source).0 in
          sgn.create_response req.serial_number v.status v.revocation_info call.signed_at
            v.source_next_update)
        ≡ ok (out, next_update)
      → (handle x S sgn call request_der r).1.cache
        ≡ set_at call.victim
            (to_decimal req.serial_number)
            out
            call.stored_at
            next_update
            (get_at (to_decimal req.serial_number) call.looked_up r.cache).1
  unfolding handle serve
  handle-kept call request_der r req out next_update admitted unseen created =
      rw (admitted, serve)
        (look_up-kept call req.serial_number _ r out next_update
          (get_at-eq-view (to_decimal req.serial_number) call.looked_up r.cache ∙ unseen) created)

  -- A request that is answered afresh, and whose answer is kept: the requests that come next, if they
  -- are all admitted, are for its serial number and read the cache before the expiry, are all answered
  -- with the same bytes. None asks the backend, whatever it has become between them. A request for
  -- another serial number, which could evict the answer, is not among them.
  pub handle_again :
      (call : Call S) (request_der : Bytes) (r : Responder S) (req : Request) (out : Bytes)
      (next_update : Time) (later : List (Later S))
      → admit x S sgn call.ctx_err request_der ≡ ok req
      → view call.looked_up (to_decimal req.serial_number) r.cache ≡ none
      → (let v =
            verdict (S.get_status call.source_env req.serial_number sgn.issuer_cert r.source).0 in
          sgn.create_response req.serial_number v.status v.revocation_info call.signed_at
            v.source_next_update)
        ≡ ok (out, next_update)
      → stores r.cache call.stored_at next_update ≡ true
      → All (IsRepeat x S sgn req.serial_number (expiry r.cache call.stored_at next_update)) later
      → AllAnswered x S sgn out later (handle x S sgn call request_der r).1
  handle_again call request_der r req out next_update later admitted unseen created kept repeats =
      repeats-AllAnswered x S sgn req.serial_number (expiry r.cache call.stored_at next_update) out
        later _
        (λ now early.
          rw (handle-kept call request_der r req out next_update admitted unseen created)
            (seen now early))
        repeats
    where
      key : String
      key = to_decimal req.serial_number

      after : Cache
      after = (get_at key call.looked_up r.cache).1

      seen :
          (now : Time)
          → now <ℤ expiry r.cache call.stored_at next_update
          → view now key (set_at call.victim key out call.stored_at next_update after) ≡ some out
      seen now early =
          let (kept', expiry') =
            stores-get_at key call.looked_up r.cache call.stored_at next_update in
          view-set_at_self call.victim key out call.stored_at next_update after now (kept' ∙ kept)
          ∙ rw expiry' (ground arith)
