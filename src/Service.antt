-- ===== src/Service.antt =====
-- The responder as cmd/ocsp-responder/main.go puts it together over a CRL: `signer.Signer` as the
-- interface that `responder.go` asks for, `FileSource` as the backend, and requests that are handled
-- while the reload loop runs.
pub mod Says
pub mod Good
pub mod Web
pub mod Api
pub mod Program
use ocsp.Base.{ℕ, Bool, Option, some, List, [], ◌∷◌}
use ocsp.Go.X509.{Bytes}
use ocsp.Signer
use ocsp.Signer.{create_response}
use ocsp.Source.File.{FileSource, file_source}
use ocsp.Source.File.Load
use ocsp.Source.File.Reload.{Tick, tick}
use ocsp.Responder.Binding.{Externals}
use ocsp.Responder.Handle
use ocsp.Responder.Handle.{Responder, Call, handle}

-- `*signer.Signer` has the two methods of the responder's interface.
abbrev pub as_signer : Signer.Crypto → Signer.Signer → Handle.Signer
as_signer x s = record { issuer_cert = some s.issuer_cert; create_response = create_response x s }

-- What happens to the service: a request, or a tick of the reload loop.
pub data Event : Type 0 where
  request : Call file_source → Bytes → Event
  reload : Tick → Event

module _ (x : Externals) (files : Load.Crypto) (keys : Signer.Crypto) (sgn : Signer.Signer) where
  unfoldable pub step : Event → Responder file_source → Responder file_source
  step (request call request_der) r =
      (handle x file_source (as_signer keys sgn) call request_der r).1
  step (reload t) r = record r { source = tick files t r.source }

  -- Any sequence of events.
  unfoldable pub steps : List Event → Responder file_source → Responder file_source
  unfolding step
  steps [] r = r
  steps (event ∷ more) r = steps more (step event r)
