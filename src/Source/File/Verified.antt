-- ===== src/Source/File/Verified.antt =====
-- What `parseCRLBytes` and `verifyCRLForIssuer` have checked of a list.
use ocsp.Base.{true, none, ◌≡◌, ◌↔◌, refl}
use ocsp.Go.Errors.{
  Result, ok, err, guard, bind-ok, guard-ok, wrap_error-ok, check-ok, ok-injective,
}
use ocsp.Go.X509.{Bytes, Certificate, bytes_equal, bytes_equal→eq, bytes_equal_self}
use ocsp.Source.File.Load.{
  Crypto, RevocationList, der_of, as_invalid_crl, verify_crl_for_issuer, verified_crl,
}

-- The bytes, or the first PEM block in them, parse to this list; the list names the issuer, and the
-- issuer has signed it.
pub record IsVerified (x : Crypto) (b : Bytes) (issuer : Certificate) (rl : RevocationList)
    : Type 0 where
  pub parsed : x.parse_revocation_list (der_of (x.pem_decode b) b) ≡ ok rl
  pub issuer_named : rl.raw_issuer ≡ issuer.raw_subject
  pub signed : x.check_signature_from rl issuer ≡ none

as_invalid_crl-ok :
    (m : Result RevocationList) (rl : RevocationList) → as_invalid_crl m ≡ ok rl → m ≡ ok rl
as_invalid_crl-ok (ok a) rl h = h
as_invalid_crl-ok (err e) rl h = absurd (cc)

module _ (x : Crypto) where
  -- The code's checks are these.
  pub verified_crl_iff :
      (b : Bytes) (issuer : Certificate) (rl : RevocationList)
      → (verified_crl x b issuer ≡ ok rl) ↔ IsVerified x b issuer rl
  unfolding verified_crl verify_crl_for_issuer
  verified_crl_iff b issuer rl = (forward, backward)
    where
      forward : verified_crl x b issuer ≡ ok rl → IsVerified x b issuer rl
      forward h =
          let (a, parsed, h1) =
            bind-ok (as_invalid_crl (x.parse_revocation_list (der_of (x.pem_decode b) b))) _ h in
          let (_, checked, same) = bind-ok (verify_crl_for_issuer x a issuer) _ h1 in
          let (_, named, h2) =
            bind-ok (guard (bytes_equal a.raw_issuer issuer.raw_subject) _) _ checked in
          rw (← ok-injective same) (record {
            parsed = as_invalid_crl-ok _ a parsed;
            issuer_named = bytes_equal→eq a.raw_issuer issuer.raw_subject (guard-ok _ _ named);
            signed = check-ok (x.check_signature_from a issuer) (wrap_error-ok _ _ h2);
          })

      backward : IsVerified x b issuer rl → verified_crl x b issuer ≡ ok rl
      backward v =
          let same : bytes_equal rl.raw_issuer issuer.raw_subject ≡ true =
            rw v.issuer_named (bytes_equal_self issuer.raw_subject) in
          rw (v.parsed) (rw (same, v.signed) refl)
