-- ===== src/Source/File/Reload.antt =====
-- The reload loop of internal/source/file.go: `checkExpiry`, `markUnhealthy`, the body of
-- `reloadLoop`, and `NewFileSource` and `Stop`.
use ocsp.Base.{Bool, true, false, not, Option, none, some, List, [], ◌∷◌, if◌then◌else◌}
use ocsp.Go.Time.{Time, Duration, zero_time}
use ocsp.Go.Errors.{Error, text, Result, ok, err}
use ocsp.Go.X509.{Bytes, Certificate}
use ocsp.Source.File.{
  FileSource, LogLine, crl_expired, crl_not_yet_valid, crl_valid_again, unhealthy, still_unhealthy,
  crl_usable, crl_not_yet_valid_at,
}
use ocsp.Source.File.Load.{
  Crypto, Response, load_from_disk, load_from_url, reload_from_disk_if_changed,
}

abbrev pub log_line : LogLine → FileSource → FileSource
log_line line s = record s { logged = line ∷ s.logged }

-- `checkExpiry`: `Swap` sets the flag and tells what it was.
unfoldable pub check_expiry : Time → FileSource → FileSource
unfolding crl_usable crl_not_yet_valid_at
check_expiry now s =
    if not (crl_usable now s)
    then (if not s.expired_logged
        then log_line
            (if crl_not_yet_valid_at s.this_update now then crl_not_yet_valid else crl_expired)
            (record s { expired_logged = true })
        else s)
    else if s.expired_logged
    then log_line crl_valid_again (record s { expired_logged = false })
    else s

-- `markUnhealthy`
unfoldable pub mark_unhealthy : Error → FileSource → FileSource
mark_unhealthy e s =
    if s.loaded
    then log_line (unhealthy e) (record s { loaded = false })
    else log_line (still_unhealthy e) s

-- What a tick of the reload loop finds: the server's answer or the file, and the clock.
pub record Tick : Type 0 where
  pub download : Result Response
  pub disk : Result Bytes
  pub now : Time

abbrev pub settled : Time → Result (Unit {0}) × FileSource → FileSource
settled now (ok _, s) = check_expiry now s
settled now (err e, s) = mark_unhealthy e s

-- A `[sha256.Size]byte` before it is set
abbrev pub zero_hash : Bytes
zero_hash =
    0 ∷ 0 ∷ 0 ∷ 0 ∷ 0 ∷ 0 ∷ 0 ∷ 0 ∷ 0 ∷ 0 ∷ 0 ∷ 0 ∷ 0 ∷ 0 ∷ 0 ∷ 0 ∷ 0 ∷ 0 ∷ 0 ∷ 0 ∷ 0 ∷ 0 ∷ 0 ∷ 0
    ∷ 0 ∷ 0 ∷ 0 ∷ 0 ∷ 0 ∷ 0 ∷ 0 ∷ 0 ∷ []

-- The source before its first load
abbrev pub initial : Bool → Certificate → Duration → FileSource
initial is_url issuer_cert expiry_grace = record {
  issuer_cert = issuer_cert;
  is_url = is_url;
  expiry_grace = expiry_grace;
  revoked = [];
  this_update = zero_time;
  next_update = zero_time;
  loaded = false;
  expired_logged = false;
  last_hash = zero_hash;
  logged = [];
  done_closed = false;
}

abbrev pub started : Time → Result (Unit {0}) × FileSource → Result FileSource
started now (ok _, s) = ok (check_expiry now s)
started now (err e, s) = err e

module _ (x : Crypto) where
  -- One round of `reloadLoop`. After `Stop` there is none: a last tick that was ready at the same time, which
  -- the select may still take, is left out.
  unfoldable pub tick : Tick → FileSource → FileSource
  unfolding load_from_url reload_from_disk_if_changed check_expiry mark_unhealthy
  tick t s =
      if s.done_closed
      then s
      else settled t.now (
          if s.is_url then load_from_url x t.download s else reload_from_disk_if_changed x t.disk s)

  unfoldable pub ticks : List Tick → FileSource → FileSource
  ticks [] s = s
  ticks (t ∷ more) s = ticks more (tick t s)

  -- `loadCRL`
  unfoldable pub load_crl : Tick → FileSource → Result (Unit {0}) × FileSource
  unfolding load_from_url load_from_disk
  load_crl t s = if s.is_url then load_from_url x t.download s else load_from_disk x t.disk s

  -- `NewFileSource` up to the start of the loop. Whether the path is a URL is its prefix; a grace is
  -- what the option `WithCRLExpiryGrace` sets, 0 without it.
  unfoldable pub new_file_source : Bool → Option Certificate → Duration → Tick → Result FileSource
  unfolding load_crl check_expiry
  new_file_source is_url none expiry_grace t =
      err (text "ocsp-responder/source: issuer certificate is required")
  new_file_source is_url (some issuer) expiry_grace t =
      started t.now (load_crl t (initial is_url issuer expiry_grace))

-- `Stop` closes the channel; the loop ends at its next round.
unfoldable pub stop : FileSource → FileSource
stop s = record s { done_closed = true }
