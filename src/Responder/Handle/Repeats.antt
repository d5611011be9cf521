-- ===== src/Responder/Handle/Repeats.antt =====
-- Requests that `Handle` answers from the cache, one after the other.
use ocsp.Base.{All, Option, none, some, List, [], ◌∷◌, ◌≡◌, refl, ◌∙◌}
use ocsp.Base.Int.{ℤ, ◌<ℤ◌}
use ocsp.Go.Time.{Time}
use ocsp.Go.Numerals.{to_decimal}
use ocsp.Go.Errors.{ok}
use ocsp.Go.X509.{Bytes}
use ocsp.Source.{Source}
use ocsp.Responder.Binding.{Externals, Request}
use ocsp.Responder.Cache.{Cache}
use ocsp.Responder.Cache.Lookup.{view, get_at-eq-view, get_at-hit}
use ocsp.Responder.Handle.{Signer, Responder, Call, admit, handle, serve, look_up}

-- A later request: the state in which it meets the backend, its call and its bytes.
pub record Later (S : Source) : Type 0 where
  pub source : S.State
  pub call : Call S
  pub request_der : Bytes

module _ (x : Externals) (S : Source) (sgn : Signer) where
  look_up-hit :
      (call : Call S) (serial : ℤ) (found : Option Bytes × Cache) (r : Responder S) (cached : Bytes)
      → found.0 ≡ some cached
      → ((look_up x S sgn call serial found r).0 ≡ ok cached)
        × ((look_up x S sgn call serial found r).1.source ≡ r.source)
        × ((look_up x S sgn call serial found r).1.cache ≡ found.1)
  unfolding look_up
  look_up-hit call serial (some data_bytes, cache) r cached h = (cc, refl, refl)
  look_up-hit call serial (none, cache) r cached h = absurd (cc)

  -- A request for a serial number that the cache shows is answered from it. The backend is not asked, and
  -- the cache stays as it was.
  handle-hit :
      (call : Call S) (request_der : Bytes) (r : Responder S) (req : Request) (cached : Bytes)
      → admit x S sgn call.ctx_err request_der ≡ ok req
      → view call.looked_up (to_decimal req.serial_number) r.cache ≡ some cached
      → ((handle x S sgn call request_der r).0 ≡ ok cached)
        × ((handle x S sgn call request_der r).1.source ≡ r.source)
        × ((handle x S sgn call request_der r).1.cache ≡ r.cache)
  unfolding handle serve
  handle-hit call request_der r req cached admitted seen =
      let (answered, same_source, same_cache) =
        look_up-hit call req.serial_number _ r cached
          (get_at-eq-view (to_decimal req.serial_number) call.looked_up r.cache ∙ seen) in
      rw (admitted, serve)
        (
          answered,
          same_source,
          same_cache ∙ get_at-hit (to_decimal req.serial_number) call.looked_up r.cache cached seen,
        )

  -- The responder when the later request comes.
  pub met_by : Later S → Responder S → Responder S
  met_by l r = record r { source = l.source }

  -- The later request is admitted, for the serial number, and reads the cache before `until`.
  unfoldable pub IsRepeat : ℤ → Time → Later S → Type 0
  IsRepeat serial until l =
      (req : Request) × (admit x S sgn l.call.ctx_err l.request_der ≡ ok req)
      × (req.serial_number ≡ serial)
      × (l.call.looked_up <ℤ until)

  -- All of the later requests, handled one after the other, are answered with `out` and leave the backend
  -- as they met it.
  pub AllAnswered : Bytes → List (Later S) → Responder S → Type 0
  unfolding met_by
  AllAnswered out [] r = Unit
  AllAnswered out (l ∷ rest) r =
      ((handle x S sgn l.call l.request_der (met_by l r)).0 ≡ ok out)
      × ((handle x S sgn l.call l.request_der (met_by l r)).1.source ≡ l.source)
      × AllAnswered out rest (handle x S sgn l.call l.request_der (met_by l r)).1

  -- While the cache shows `out` under a serial number at every time before `until`, so it does after any
  -- requests for that number that read it before `until`, and each is answered with `out`.
  pub repeats-AllAnswered :
      (serial : ℤ) (until : Time) (out : Bytes) (later : List (Later S)) (r : Responder S)
      → ((now : Time) → now <ℤ until → view now (to_decimal serial) r.cache ≡ some out)
      → All (IsRepeat serial until) later
      → AllAnswered out later r
  unfolding AllAnswered met_by IsRepeat
  repeats-AllAnswered serial until out [] r shown h = tt
  repeats-AllAnswered serial until out (l ∷ rest) r shown ((req, admitted, same, early), h) =
      let (answered, same_source, same_cache) =
        handle-hit l.call l.request_der (met_by l r) req out admitted
          (rw same (shown l.call.looked_up early)) in
      (
        answered,
        same_source,
        repeats-AllAnswered serial until out rest _ (λ now soon. rw same_cache (shown now soon)) h,
      )
