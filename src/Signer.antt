-- ===== src/Signer.antt =====
-- internal/signer/signer.go: the delegated signing certificate, its checks at startup, and the signed
-- responses.
pub mod Monitor
pub mod Trust
pub mod Validity
pub mod Expiry
use ocsp.Base.{
  ℕ, ◌+◌, ◌*◌, ◌/◌, ◌%◌, String, Bool, true, false, not, Option, none, some, List, [], ◌∷◌, ◌&&◌,
  ◌||◌, eqb, if◌then◌else◌,
}
use ocsp.Base.Int.{ℤ, pos, ◌+ℤ◌, ltb_ℤ, floor_div}
use ocsp.Go.Time.{Time, Duration, zero_time, is_zero, before, after, truncate_second, sub, day}
use ocsp.Go.Errors.{Error, text, Result, ok, err, check, guard, wrap_error, ◌>>=◌, ◌>>◌}
use ocsp.Go.X509.{Bytes, Certificate, PublicKey, rsa, ecdsa, other}
use ocsp.Source
use ocsp.Source.{Status, good, revoked, unknown, RevocationInfo}

-- A private key as the parsers give it: `other_signer` is one that implements `crypto.Signer` but is
-- neither RSA nor ECDSA, `no_signer` one that does not implement it.
pub data PrivateKey : Type 0 where
  rsa_private ecdsa_private : ℕ → ℕ → PrivateKey
  other_signer no_signer : PrivateKey

-- The fields of the `ocsp.Response` template. `Good`, `Revoked` and `Unknown` of the library are 0, 1
-- and 2; the issuer hash, always SHA-1, is left out.
pub record Template : Type 0 where
  pub status : ℕ
  pub serial_number : ℤ
  pub this_update : Time
  pub next_update : Time
  pub certificate : Certificate
  pub revoked_at : Time
  pub revocation_reason : ℕ

-- What the signer calls and does not implement: the files, `pem.Decode`, the parsers of `crypto/x509`,
-- `CheckSignatureFrom`, and `ocsp.CreateResponse` of golang.org/x/crypto.
pub record Crypto : Type 0 where
  pub read_file : String → Result Bytes
  pub pem_decode : Bytes → Option Bytes
  pub parse_certificate : Bytes → Result Certificate
  pub parse_pkcs8_private_key : Bytes → Result PrivateKey
  pub parse_pkcs1_private_key : Bytes → Result PrivateKey
  pub check_signature_from : Certificate → Certificate → Option Error
  pub create : Certificate → Certificate → Template → PrivateKey → Result Bytes

pub record Signer : Type 0 where
  pub cert : Certificate
  pub key : PrivateKey
  pub issuer_cert : Certificate
  pub validity : Duration

abbrev der_of : Option Bytes → Bytes → Bytes
der_of none b = b
der_of (some block) b = block

-- The switch on the source's status: the library's status, and when and why it was revoked.
abbrev pub Mapped : Type 0
Mapped = ℕ × Time × ℕ

unfoldable pub map_status : Status → Option RevocationInfo → Result Mapped
map_status good rev_info = ok (0, zero_time, 0)
map_status revoked none = ok (1, zero_time, 0)
map_status revoked (some info) = ok (1, info.revoked_at, info.reason)
map_status unknown rev_info = ok (2, zero_time, 0)
map_status (Status.other n) rev_info = err (text "ocsp-responder/signer: unsupported status")

-- `nextUpdate`: the validity's end, or the source's next update if that is earlier, in whole seconds.
unfoldable pub next_update_of : Duration → Time → Time → Time
unfolding truncate_second
next_update_of validity this_update source_next_update =
    let next_update = this_update +ℤ validity in
    truncate_second (
      if not (is_zero source_next_update) && before source_next_update next_update
      then source_next_update
      else next_update)

unfoldable pub template_of : Signer → ℤ → Mapped → Time → Time → Template
unfolding next_update_of
template_of s serial (status, revoked_at, reason) this_update source_next_update = record {
  status = status;
  serial_number = serial;
  this_update = this_update;
  next_update = next_update_of s.validity this_update source_next_update;
  certificate = s.cert;
  revoked_at = revoked_at;
  revocation_reason = reason;
}

-- The type assertion to `crypto.Signer`
as_signer_key : PrivateKey → Result PrivateKey
as_signer_key no_signer = err (text "ocsp-responder/signer: key does not implement crypto.Signer")
as_signer_key key = ok key

-- PKCS#8, and PKCS#1 where that fails; of two failures the first is reported.
parsed_key : Result PrivateKey → Result PrivateKey → Result PrivateKey
unfolding as_signer_key
parsed_key (ok key) pkcs1 = as_signer_key key
parsed_key (err e) (ok key) = ok key
parsed_key (err e) (err _) = wrap_error "ocsp-responder/signer" (err e)

-- `issuer.KeyUsage & x509.KeyUsageCertSign == 0`, whose bit is 32
unfoldable pub can_sign_certificates : Certificate → Bool
can_sign_certificates issuer = eqb (issuer.key_usage / 32 % 2) 1

abbrev key_mismatch : Error
key_mismatch = text "ocsp-responder/signer: key does not match certificate"

abbrev key_type_mismatch : Error
key_type_mismatch = text "ocsp-responder/signer: key type mismatch"

unfoldable pub verify_key_matches : PublicKey → PrivateKey → Result (Unit {0})
verify_key_matches (rsa n e) (rsa_private n' e') = guard (eqb n n' && eqb e e') key_mismatch
verify_key_matches (rsa n e) _ = err key_type_mismatch
verify_key_matches (ecdsa px py) (ecdsa_private px' py') =
    guard (eqb px px' && eqb py py') key_mismatch
verify_key_matches (ecdsa px py) _ = err key_type_mismatch
verify_key_matches other _ = err (text "ocsp-responder/signer: unsupported public key type")

-- `x509.ExtKeyUsageOCSPSigning` is 9.
unfoldable pub has_ocsp_eku : List ℕ → Bool
has_ocsp_eku [] = false
has_ocsp_eku (eku ∷ more) = eqb eku 9 || has_ocsp_eku more

module _ (x : Crypto) where
  -- `CreateResponse`
  unfoldable pub create_response :
      Signer → ℤ → Status → Option RevocationInfo → Time → Time → Result (Bytes × Time)
  unfolding map_status template_of
  create_response s serial status rev_info this_update source_next_update = do
    mapped ← map_status status rev_info
    let template = template_of s serial mapped this_update source_next_update
    der ← wrap_error "ocsp-responder/signer" (x.create s.issuer_cert s.cert template s.key)
    ok (der, template.next_update)

  unfoldable pub load_cert : String → Result Certificate
  load_cert path = do
    b ← wrap_error "ocsp-responder/signer" (x.read_file path)
    wrap_error "ocsp-responder/signer" (x.parse_certificate (der_of (x.pem_decode b) b))

  unfoldable pub load_key : String → Result PrivateKey
  unfolding parsed_key
  load_key path = do
    b ← wrap_error "ocsp-responder/signer" (x.read_file path)
    let der = der_of (x.pem_decode b) b
    parsed_key (x.parse_pkcs8_private_key der) (x.parse_pkcs1_private_key der)

  unfoldable pub verify_signer_trust : Option Certificate → Option Certificate → Result (Unit {0})
  unfolding can_sign_certificates
  verify_signer_trust (some cert) (some issuer) = do
    guard issuer.is_ca (text "ocsp-responder/signer: issuer certificate is not a CA")
    guard (can_sign_certificates issuer)
        (text "ocsp-responder/signer: issuer certificate cannot sign certificates")
    guard (elim (x.check_signature_from cert issuer) [ none ↦ true | some _ ↦ false ])
        (text "ocsp-responder/signer: signer certificate is not signed by issuer")
  verify_signer_trust _ _ =
      err (text "ocsp-responder/signer: signer and issuer certificates are required")

  -- `NewSigner` behind the three files, with whether it warns that the certificate expires in less
  -- than 30 days.
  unfoldable pub checked_signer :
      Certificate → PrivateKey → Certificate → Duration → Time → Result (Signer × Bool)
  unfolding has_ocsp_eku verify_key_matches verify_signer_trust
  checked_signer cert key issuer validity now = do
    guard (has_ocsp_eku cert.ext_key_usage)
        (text "ocsp-responder/signer: missing extKeyUsage OCSPSigning")
    verify_key_matches cert.public_key key
    verify_signer_trust (some cert) (some issuer)
    ok (
      record { cert = cert; key = key; issuer_cert = issuer; validity = validity },
      ltb_ℤ (sub cert.not_after now) (pos (30 * day)),
    )

  unfoldable pub new_signer : String → String → String → Duration → Time → Result (Signer × Bool)
  unfolding load_cert load_key checked_signer
  new_signer cert_file key_file issuer_cert_file validity now = do
    cert ← load_cert cert_file
    key ← load_key key_file
    issuer ← load_cert issuer_cert_file
    checked_signer cert key issuer validity now

-- `Valid`
unfoldable pub valid : Time → Signer → Bool
valid now s = after now s.cert.not_before && before now s.cert.not_after

-- `DaysUntilExpiry`: the hours are a float64 in the source, and exact here.
unfoldable pub days_until_expiry : Time → Signer → ℤ
unfolding floor_div
days_until_expiry now s = floor_div (sub s.cert.not_after now) day

pub data ExpiryStatus : Type 0 where
  expiry_ok expiry_warning expiry_critical expiry_expired : ExpiryStatus

unfoldable pub expiry_status : ℤ → ExpiryStatus
expiry_status days =
    if ltb_ℤ days (pos 0)
    then expiry_expired
    else if ltb_ℤ days (pos 8)
    then expiry_critical
    else if ltb_ℤ days (pos 30)
    then expiry_warning
    else expiry_ok

-- `GetExpiryStatus`
unfoldable pub get_expiry_status : Time → Signer → ExpiryStatus
unfolding days_until_expiry expiry_status
get_expiry_status now s = expiry_status (days_until_expiry now s)

unfoldable pub expiry_status_string : ExpiryStatus → String
expiry_status_string expiry_ok = "ok"
expiry_status_string expiry_warning = "warning"
expiry_status_string expiry_critical = "critical"
expiry_status_string expiry_expired = "expired"
