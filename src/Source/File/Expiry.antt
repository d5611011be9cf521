-- ===== src/Source/File/Expiry.antt =====
-- The lines that `checkExpiry` logs tell each transition into and out of the window once.
use ocsp.Base.{
  Bool, true, false, not, Option, none, some, List, [], ◌∷◌, ◌≡◌, refl, arith, ◌∙◌, sym, ap,
  if◌then◌else◌,
}
use ocsp.Go.Time.{Time, Duration}
use ocsp.Go.Errors.{Error, Result, ok, err}
use ocsp.Go.X509.{Bytes, Certificate}
use ocsp.Source.File.{
  FileSource, LogLine, crl_expired, crl_not_yet_valid, crl_valid_again, unhealthy, still_unhealthy,
  crl_usable,
}
use ocsp.Source.File.Load.{
  Crypto, parse_crl_bytes, parse_downloaded, downloaded, load_from_disk,
  reload_from_disk_if_changed,
}
use ocsp.Source.File.Reload.{
  Tick, tick, ticks, check_expiry, mark_unhealthy, settled, started, initial, new_file_source,
  load_crl,
}

-- Whether the newest line about the window, if there is one, says that the list is out of it.
unfoldable pub out_of_window : List LogLine → Bool
out_of_window [] = false
out_of_window (crl_expired ∷ _) = true
out_of_window (crl_not_yet_valid ∷ _) = true
out_of_window (crl_valid_again ∷ _) = false
out_of_window (unhealthy _ ∷ log) = out_of_window log
out_of_window (still_unhealthy _ ∷ log) = out_of_window log

-- Every line about the window tells a change: a line that the list is out of it follows none that says
-- so already, and a line that it is back follows one that it was out.
abbrev pub Alternates : List LogLine → Type 0
Alternates [] = Unit
Alternates (crl_expired ∷ log) = (out_of_window log ≡ false) × Alternates log
Alternates (crl_not_yet_valid ∷ log) = (out_of_window log ≡ false) × Alternates log
Alternates (crl_valid_again ∷ log) = (out_of_window log ≡ true) × Alternates log
Alternates (unhealthy _ ∷ log) = Alternates log
Alternates (still_unhealthy _ ∷ log) = Alternates log

-- The flag remembers what the log says, and the log alternates.
pub record IsTold (s : FileSource) : Type 0 where
  pub flag : s.expired_logged ≡ out_of_window s.logged
  pub alternates : Alternates s.logged

check_expiry-IsTold : (now : Time) (s : FileSource) → IsTold s → IsTold (check_expiry now s)
unfolding check_expiry out_of_window
check_expiry-IsTold now s h = ground arith

-- After a check the flag says whether the list is in its window.
pub expired_logged-check_expiry :
    (now : Time) (s : FileSource) → (check_expiry now s).expired_logged ≡ not (crl_usable now s)
unfolding check_expiry
expired_logged-check_expiry now s = ground arith

mark_unhealthy-IsTold : (e : Error) (s : FileSource) → IsTold s → IsTold (mark_unhealthy e s)
unfolding mark_unhealthy out_of_window
mark_unhealthy-IsTold e s h = ground arith

-- Loading writes no line and leaves the flag.
record Unlogged (s s' : FileSource) : Type 0 where
  flag : s'.expired_logged ≡ s.expired_logged
  logged : s'.logged ≡ s.logged

Unlogged-IsTold : {s s' : FileSource} → Unlogged s s' → IsTold s → IsTold s'
Unlogged-IsTold {s} {s'} u h = record {
  flag = u.flag ∙ h.flag ∙ ap out_of_window (sym u.logged);
  alternates = rw u.logged h.alternates;
}

module _ (x : Crypto) where
  parse_crl_bytes-Unlogged : (b : Bytes) (s : FileSource) → Unlogged s (parse_crl_bytes x b s).1
  unfolding parse_crl_bytes
  parse_crl_bytes-Unlogged b s = ground arith

  load_from_url-Unlogged :
      (d : Result Bytes) (s : FileSource) → Unlogged s (parse_downloaded x d s).1
  unfolding parse_downloaded
  load_from_url-Unlogged (err e) s = record { flag = refl; logged = refl }
  load_from_url-Unlogged (ok b) s = parse_crl_bytes-Unlogged b s

  load_from_disk-Unlogged :
      (d : Result Bytes) (s : FileSource) → Unlogged s (load_from_disk x d s).1
  unfolding load_from_disk
  load_from_disk-Unlogged d s = ground arith

  reload-Unlogged :
      (d : Result Bytes) (s : FileSource) → Unlogged s (reload_from_disk_if_changed x d s).1
  unfolding reload_from_disk_if_changed
  reload-Unlogged d s = ground arith

  settled-IsTold :
      (now : Time) (p : Result (Unit {0}) × FileSource) → IsTold p.1 → IsTold (settled now p)
  settled-IsTold now (ok _, s) h = check_expiry-IsTold now s h
  settled-IsTold now (err e, s) h = mark_unhealthy-IsTold e s h

  either-IsTold :
      (url : Bool) (p q : Result (Unit {0}) × FileSource)
      → IsTold p.1
      → IsTold q.1
      → IsTold (if url then p else q).1
  either-IsTold true p q hp hq = hp
  either-IsTold false p q hp hq = hq

  stopped-IsTold :
      (stopped : Bool) (s s' : FileSource)
      → IsTold s
      → IsTold s'
      → IsTold (if stopped then s else s')
  stopped-IsTold true s s' h h' = h
  stopped-IsTold false s s' h h' = h'

  tick-IsTold : (t : Tick) (s : FileSource) → IsTold s → IsTold (tick x t s)
  unfolding tick
  tick-IsTold t s h = stopped-IsTold s.done_closed s _ h (
      settled-IsTold t.now _ (
        either-IsTold s.is_url _ _
          (Unlogged-IsTold (load_from_url-Unlogged (downloaded t.download) s) h)
          (Unlogged-IsTold (reload-Unlogged t.disk s) h)))

  ticks-IsTold : (ts : List Tick) (s : FileSource) → IsTold s → IsTold (ticks x ts s)
  unfolding ticks
  ticks-IsTold [] s h = h
  ticks-IsTold (t ∷ ts) s h = ticks-IsTold ts _ (tick-IsTold t s h)

  started-IsTold :
      (now : Time) (p : Result (Unit {0}) × FileSource) (s : FileSource)
      → IsTold p.1
      → started now p ≡ ok s
      → IsTold s
  started-IsTold now (ok _, s') s h e =
      let same : check_expiry now s' ≡ s = cc in rw (← same) (check_expiry-IsTold now s' h)
  started-IsTold now (err reason, s') s h e = absurd (cc)

  new_file_source-IsTold :
      (is_url : Bool) (issuer : Option Certificate) (grace : Duration) (t : Tick) (s : FileSource)
      → new_file_source x is_url issuer grace t ≡ ok s
      → IsTold s
  unfolding new_file_source load_crl
  new_file_source-IsTold is_url none grace t s e = absurd (cc)
  new_file_source-IsTold is_url (some issuer) grace t s e =
      started-IsTold t.now _ s
        (either-IsTold is_url _ _
          (Unlogged-IsTold (load_from_url-Unlogged (downloaded t.download) _) empty)
          (Unlogged-IsTold (load_from_disk-Unlogged t.disk _) empty))
        e
    where
      empty : IsTold (initial is_url issuer grace)
      empty = record { flag = unfold out_of_window in refl; alternates = tt }

  -- Whatever a source meets at its start and at any ticks, its log alternates between lines that the
  -- list is out of its window and lines that it is back, and its flag says which came last.
  pub ticks-IsTold_from_start :
      (is_url : Bool) (issuer : Option Certificate) (grace : Duration) (start : Tick)
      (s : FileSource) (ts : List Tick)
      → new_file_source x is_url issuer grace start ≡ ok s
      → IsTold (ticks x ts s)
  ticks-IsTold_from_start is_url issuer grace start s ts made =
      ticks-IsTold ts s (new_file_source-IsTold is_url issuer grace start s made)
