-- ===== src/Signer/Monitor.antt =====
-- internal/signer/signer.go: `StartExpiryMonitor`. Its goroutine is a run over what its select meets: a
-- tick of the 24 hours, with the two readings of the clock that it makes, or the end of the context.
pub mod Reports
use ocsp.Base.{Bool, true, false, Option, none, some, List, [], ◌∷◌, if◌then◌else◌}
use ocsp.Base.Int.{ℤ}
use ocsp.Go.Time.{Time}
use ocsp.Signer.{
  Signer, ExpiryStatus, expiry_ok, expiry_warning, expiry_critical, expiry_expired,
  get_expiry_status, days_until_expiry,
}

pub data Event : Type 0 where
  ticked : Time → Time → Event
  ctx_done : Event

-- What is logged, with the level and the days.
pub data Line : Type 0 where
  warn_soon error_very_soon : ℤ → Line
  error_expired : Line

-- The gauge, if there is one, the lines that were logged, the last one first, and whether the goroutine
-- has not returned.
pub record Monitor : Type 0 where
  pub days_gauge : Option ℤ
  pub log : List Line
  pub running : Bool

-- `daysGauge.Set`, if the gauge is not nil
abbrev pub set_gauge : ℤ → Option ℤ → Option ℤ
set_gauge days none = none
set_gauge days (some _) = some days

-- The switch on the status.
abbrev pub line : ExpiryStatus → ℤ → Option Line
line expiry_warning days = some (warn_soon days)
line expiry_critical days = some (error_very_soon days)
line expiry_expired days = some error_expired
line expiry_ok days = none

abbrev pub logged : Option Line → List Line → List Line
logged none log = log
logged (some l) log = l ∷ log

-- One turn of the loop.
unfoldable pub step : Signer → Event → Monitor → Monitor
unfolding get_expiry_status
step sgn ctx_done m = record m { running = false }
step sgn (ticked counted judged) m =
    if m.running
    then (record m {
      days_gauge = set_gauge (days_until_expiry counted sgn) m.days_gauge;
      log = logged (line (get_expiry_status judged sgn) (days_until_expiry counted sgn)) m.log;
    })
    else m

unfoldable pub run : Signer → List Event → Monitor → Monitor
unfolding step
run sgn [] m = m
run sgn (e ∷ more) m = run sgn more (step sgn e m)

-- `StartExpiryMonitor`
unfoldable pub start_expiry_monitor : Signer → Time → Option ℤ → List Event → Monitor
unfolding run days_until_expiry
start_expiry_monitor sgn now days_gauge events = run sgn events (record {
  days_gauge = set_gauge (days_until_expiry now sgn) days_gauge;
  log = [];
  running = true;
})
