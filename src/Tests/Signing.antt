-- ===== src/Tests/Signing.antt =====
-- The signer.
use ocsp.Base.{ℕ, Bool, true, false, Option, none, some, List, [], ◌∷◌, ◌≡◌, refl, arith}
use ocsp.Base.Int.{ℤ, pos, ◌-ℤ◌}
use ocsp.Go.Errors.{ok}
use ocsp.Source.{good}
use ocsp.Signer.{create_response, new_signer, get_expiry_status, days_until_expiry}
use ocsp.Signer.Trust.{IsTrusted, new_signer-IsTrusted}
use ocsp.Signer.Validity.{IsSignedAs, create_response-IsSignedAs}
use ocsp.Signer.Expiry.{Fits, Left, get_expiry_status-Left}
use ocsp.Signer.Monitor.{ticked, ctx_done, Monitor, set_gauge, step, start_expiry_monitor}
use ocsp.Signer.Monitor.Reports.{Reports, step-Reports, start_expiry_monitor-ctx_done}
use ocsp.Tests.Bench.{keys, sgn, at}

new_signer-sgn :
    new_signer keys "cert.pem" "key.pem" "issuer.pem" (at 3600) (at 10) ≡ ok (sgn, false)
unfolding new_signer ◌-ℤ◌
new_signer-sgn = refl

new_signer-IsTrusted_example : IsTrusted keys sgn × (sgn.validity ≡ at 3600)
new_signer-IsTrusted_example =
    new_signer-IsTrusted keys "cert.pem" "key.pem" "issuer.pem" (at 3600) (at 10) sgn false
      new_signer-sgn

create_response-sgn :
    create_response keys sgn (pos 8) good none (at 600) (at 1000) ≡ ok (0 ∷ [], at 1000)
unfolding create_response ocsp.Base.Int.◌+ℤ◌
create_response-sgn = refl

create_response-IsSignedAs_example :
    IsSignedAs keys sgn (pos 8) good none (at 600) (at 1000) (0 ∷ []) (at 1000)
create_response-IsSignedAs_example =
    create_response-IsSignedAs keys sgn (pos 8) good none (at 600) (at 1000) (0 ∷ []) (at 1000)
      create_response-sgn

fits : Fits (sgn.cert.not_after -ℤ at 10)
unfolding ocsp.Base.Int.◌-ℤ◌ ocsp.Base.Int.◌+ℤ◌
fits = (omega arith, omega arith)

get_expiry_status-Left_example : Left (get_expiry_status (at 10) sgn) (sgn.cert.not_after -ℤ at 10)
get_expiry_status-Left_example = get_expiry_status-Left (at 10) sgn fits

start_expiry_monitor-ctx_done_example :
    start_expiry_monitor sgn
      (at 10)
      (some (pos 0))
      (ticked (at 86_410) (at 86_410) ∷ ctx_done ∷ ticked (at 172_810) (at 172_810) ∷ [])
    ≡ record (start_expiry_monitor sgn
        (at 10)
        (some (pos 0))
        (ticked (at 86_410) (at 86_410) ∷ [])) { running = false }
start_expiry_monitor-ctx_done_example =
    start_expiry_monitor-ctx_done sgn (at 10) (some (pos 0)) (ticked (at 86_410) (at 86_410) ∷ [])
      (ticked (at 172_810) (at 172_810) ∷ [])

abbrev watching : Monitor
watching = record { days_gauge = some (pos 104); log = []; running = true }

step-Reports_example :
    Reports
      (days_until_expiry (at 10) sgn)
      (sgn.cert.not_after -ℤ at 10)
      []
      (step sgn (ticked (at 10) (at 10)) watching).log
    × ((step sgn (ticked (at 10) (at 10)) watching).days_gauge
        ≡ set_gauge (days_until_expiry (at 10) sgn) (some (pos 104)))
    × ((step sgn (ticked (at 10) (at 10)) watching).running ≡ true)
step-Reports_example = step-Reports sgn (at 10) (at 10) watching refl fits
