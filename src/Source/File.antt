-- ===== src/Source/File.antt =====
-- internal/source/file.go: a backend that answers from a certificate revocation list. The fields of
-- `FileSource`, the validity window, and lookups; loading and the reload loop are the children `Load`
-- and `Reload`.
pub mod Load
pub mod Reload
pub mod Verified
pub mod Window
pub mod Status
pub mod Index
pub mod Backed
pub mod Issuer
pub mod Refresh
pub mod Expiry
use ocsp.Base.{
  ℕ, zero, suc, ◌+◌, ◌*◌, String, Bool, true, false, not, Option, none, some, List, [], ◌∷◌, ◌&&◌,
  if◌then◌else◌,
}
use ocsp.Base.Int.{ℤ, pos, ◌+ℤ◌}
use ocsp.Base.Dict.{Dict, lookup}
use ocsp.Go.Time.{Time, Duration, is_zero, before, after, minute, negated}
use ocsp.Go.Numerals.{to_decimal}
use ocsp.Go.Errors.{Error, text, source_unhealthy, Result, ok, err, check, guard, ◌>>=◌, ◌>>◌}
use ocsp.Go.X509.{Bytes, Certificate, bytes_equal}
use ocsp.Source.{Source, CertStatus, RevocationInfo, good, revoked}

-- `pkix.Extension` and `pkix.RevokedCertificate`
pub record Extension : Type 0 where
  pub id : List ℕ
  pub value : Bytes

pub record RevokedCertificate : Type 0 where
  pub serial_number : ℤ
  pub revocation_time : Time
  pub extensions : List Extension

-- The lines that the source logs.
pub data LogLine : Type 0 where
  crl_expired crl_not_yet_valid crl_valid_again : LogLine
  unhealthy still_unhealthy : Error → LogLine

-- `done_closed` stands for the channel `done`; `logged` has the newest line first.
pub record FileSource : Type 0 where
  pub issuer_cert : Certificate
  pub is_url : Bool
  pub expiry_grace : Duration
  pub revoked : Dict RevokedCertificate
  pub this_update : Time
  pub next_update : Time
  pub loaded : Bool
  pub expired_logged : Bool
  pub last_hash : Bytes
  pub logged : List LogLine
  pub done_closed : Bool

abbrev pub crl_clock_skew_allowance : ℕ
crl_clock_skew_allowance = 300_000_000_000

unfoldable pub crl_not_yet_valid_at : Time → Time → Bool
crl_not_yet_valid_at this_update now =
    not (is_zero this_update) && before now (this_update +ℤ negated crl_clock_skew_allowance)

unfoldable pub crl_expired_at : Time → Duration → Time → Bool
crl_expired_at next_update expiry_grace now =
    not (is_zero next_update) && after now (next_update +ℤ expiry_grace)

unfoldable pub crl_usable_at : Time → Time → Duration → Time → Bool
unfolding crl_not_yet_valid_at crl_expired_at
crl_usable_at this_update next_update expiry_grace now =
    not (crl_expired_at next_update expiry_grace now) && not (crl_not_yet_valid_at this_update now)

-- `crlUsable`, at a reading of the clock
unfoldable pub crl_usable : Time → FileSource → Bool
unfolding crl_usable_at
crl_usable now s = crl_usable_at s.this_update s.next_update s.expiry_grace now

-- `Healthy`
unfoldable pub healthy : Time → FileSource → Bool
unfolding crl_usable
healthy now s = s.loaded && crl_usable now s

-- `ext.Id.Equal([]int{2, 5, 29, 21})`
abbrev pub reason_code : List ℕ
reason_code = 2 ∷ 5 ∷ 29 ∷ 21 ∷ []

last_byte : Bytes → ℕ
last_byte [] = 0
last_byte (b ∷ []) = b
last_byte (_ ∷ b ∷ bs) = last_byte (b ∷ bs)

-- The loop over the entry's extensions: the last byte of the first reason code, or 0.
unfoldable pub reason : List Extension → ℕ
unfolding last_byte bytes_equal
reason [] = 0
reason (ext ∷ more) =
    let rest = reason more in if bytes_equal ext.id reason_code then last_byte ext.value else rest

-- The context's error, and the clock under the read lock.
pub record FileEnv : Type 0 where
  pub ctx_err : Option Error
  pub now : Time

unfoldable pub found_status : Time → Option RevokedCertificate → CertStatus
unfolding reason
found_status next_update none = record {
  status = good;
  revocation_info = none;
  source_next_update = next_update;
}
found_status next_update (some rev) = record {
  status = revoked;
  revocation_info =
      some (record { revoked_at = rev.revocation_time; reason = reason rev.extensions });
  source_next_update = next_update;
}

unfoldable pub check_issuer : Option Certificate → FileSource → Result (Unit {0})
check_issuer none s = err (text "ocsp-responder/source: issuer certificate required")
check_issuer (some issuer) s =
    guard (bytes_equal issuer.raw_subject s.issuer_cert.raw_subject)
      (text "ocsp-responder/source: issuer certificate mismatch")

-- `GetStatus`. The list, its window and the clock are read under one lock.
unfoldable pub get_status :
    FileEnv → ℤ → Option Certificate → FileSource → Result (Option CertStatus)
unfolding crl_usable check_issuer found_status
get_status env serial issuer s = do
  check env.ctx_err
  guard s.loaded source_unhealthy
  let rev = lookup (to_decimal serial) s.revoked
  guard (crl_usable env.now s) source_unhealthy
  check_issuer issuer s
  ok (some (found_status s.next_update rev))

-- `FileSource` as a backend. A lookup changes nothing.
abbrev pub file_source : Source
file_source = record {
  State = FileSource;
  Env = FileEnv;
  get_status = λ env serial issuer s. (get_status env serial issuer s, s);
  name = "file";
  healthy = healthy;
}
