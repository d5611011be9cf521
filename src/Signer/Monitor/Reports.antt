-- ===== src/Signer/Monitor/Reports.antt =====
-- What the monitor of the certificate's expiry reports, and that it ends with its context.
use ocsp.Base.{
  ◌*◌, Bool, true, false, Option, List, [], ◌∷◌, ◌++◌, ◌≡◌, refl, ◌∙◌, sym, ap, if◌then◌else◌,
}
use ocsp.Base.Int.{ℤ, pos, ◌-ℤ◌, ◌≤ℤ◌, ◌<ℤ◌}
use ocsp.Go.Time.{Time, day}
use ocsp.Signer.{
  Signer, ExpiryStatus, expiry_ok, expiry_warning, expiry_critical, expiry_expired,
  get_expiry_status, days_until_expiry,
}
use ocsp.Signer.Expiry.{Fits, Left, get_expiry_status-Left}
use ocsp.Signer.Monitor.{
  Event, ticked, ctx_done, Line, warn_soon, error_very_soon, error_expired, Monitor, set_gauge,
  line, logged, step, run, start_expiry_monitor,
}

unless_running : {A : Type 0} (b : Bool) (x y : A) → b ≡ false → (if b then x else y) ≡ y
unless_running b x y h = simp h

-- Once it has stopped it does nothing more.
run-stopped :
    (sgn : Signer) (events : List Event) (m : Monitor) → m.running ≡ false → run sgn events m ≡ m
unfolding run step
run-stopped sgn [] m h = refl
run-stopped sgn (ctx_done ∷ more) m h =
    run-stopped sgn more (record m { running = false }) refl
    ∙ ap (λ b. record m { running = b }) (sym h)
run-stopped sgn (ticked c j ∷ more) m h =
    ap (run sgn more) (unless_running m.running _ m h) ∙ run-stopped sgn more m h

run-append :
    (sgn : Signer) (before after : List Event) (m : Monitor)
    → run sgn (before ++ after) m ≡ run sgn after (run sgn before m)
unfolding run
run-append sgn [] after m = refl
run-append sgn (e ∷ before) after m = run-append sgn before after (step sgn e m)

-- The monitor ends with its context: whatever comes after that, its gauge and its log stay as they are.
pub start_expiry_monitor-ctx_done :
    (sgn : Signer) (now : Time) (days_gauge : Option ℤ) (before after : List Event)
    → start_expiry_monitor sgn now days_gauge (before ++ ctx_done ∷ after)
      ≡ record (start_expiry_monitor sgn now days_gauge before) { running = false }
unfolding start_expiry_monitor run step
start_expiry_monitor-ctx_done sgn now days_gauge before after =
    run-append sgn before (ctx_done ∷ after) _ ∙ run-stopped sgn after _ refl

-- What a tick adds to the log, by the time that is left: nothing from 30 days on, a warning from 8 days on,
-- and an error below.
pub data Reports (days left : ℤ) (log : List Line) : List Line → Type 0 where
  quiet : pos (30 * day) ≤ℤ left → Reports days left log log
  soon :
      pos (8 * day) ≤ℤ left → left <ℤ pos (30 * day) → Reports days left log (warn_soon days ∷ log)
  very_soon :
      pos 0 ≤ℤ left → left <ℤ pos (8 * day) → Reports days left log (error_very_soon days ∷ log)
  expired : left <ℤ pos 0 → Reports days left log (error_expired ∷ log)

Left-Reports :
    (status : ExpiryStatus) (days left : ℤ) (log : List Line)
    → Left status left
    → Reports days left log (logged (line status days) log)
Left-Reports expiry_ok days left log h = quiet h
Left-Reports expiry_warning days left log (low, high) = soon low high
Left-Reports expiry_critical days left log (low, high) = very_soon low high
Left-Reports expiry_expired days left log h = expired h

-- A tick of a running monitor sets the gauge, if there is one, to the whole days until the certificate's
-- end, and logs by the time that is left: nothing, a warning, or an error. The end is to be at most some
-- 292 years away.
pub step-Reports :
    (sgn : Signer) (counted judged : Time) (m : Monitor)
    → m.running ≡ true
    → Fits (sgn.cert.not_after -ℤ judged)
    → Reports
        (days_until_expiry counted sgn)
        (sgn.cert.not_after -ℤ judged)
        m.log
        (step sgn (ticked counted judged) m).log
      × ((step sgn (ticked counted judged) m).days_gauge
          ≡ set_gauge (days_until_expiry counted sgn) m.days_gauge)
      × ((step sgn (ticked counted judged) m).running ≡ true)
unfolding step
step-Reports sgn counted judged m is_running fits = rw is_running (
  Left-Reports (get_expiry_status judged sgn) (days_until_expiry counted sgn) _ m.log
      (get_expiry_status-Left judged sgn fits),
  refl,
  refl,
)
