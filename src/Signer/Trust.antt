-- ===== src/Signer/Trust.antt =====
-- What `NewSigner` has checked of a signer that it returns.
use ocsp.Base.{
  ℕ, ◌/◌, ◌%◌, String, Bool, true, false, none, some, List, [], ◌∷◌, ◌≡◌, ◌⊎◌, refl, ap, arith,
}
use ocsp.Go.Time.{Time, Duration}
use ocsp.Go.Errors.{Error, Result, ok, err, guard, ◌>>=◌, ◌>>◌}
use ocsp.Go.X509.{Certificate, PublicKey, rsa, ecdsa, other}
use ocsp.Signer.{
  Crypto, Signer, PrivateKey, rsa_private, ecdsa_private, other_signer, no_signer, new_signer,
  checked_signer, load_cert, load_key, has_ocsp_eku, verify_key_matches, verify_signer_trust,
}

-- The private key of a public key, as the numbers that they share.
pub data KeyOf : PublicKey → PrivateKey → Type 0 where
  rsa_key : (n e : ℕ) → KeyOf (rsa n e) (rsa_private n e)
  ecdsa_key : (px py : ℕ) → KeyOf (ecdsa px py) (ecdsa_private px py)

-- One of the numbers is the key usage `OCSPSigning`.
abbrev pub HasOcspSigning : List ℕ → Type 0
HasOcspSigning [] = ⊥
HasOcspSigning (eku ∷ more) = (eku ≡ 9) ⊎ HasOcspSigning more

-- The certificate is for signing OCSP responses, the key is its key, and a CA that may sign certificates
-- has signed it.
pub record IsTrusted (x : Crypto) (s : Signer) : Type 0 where
  pub for_ocsp : HasOcspSigning s.cert.ext_key_usage
  pub key_of : KeyOf s.cert.public_key s.key
  pub issuer_is_ca : s.issuer_cert.is_ca ≡ true
  pub issuer_signs : s.issuer_cert.key_usage / 32 % 2 ≡ 1
  pub signed : x.check_signature_from s.cert s.issuer_cert ≡ none

has_ocsp_eku-HasOcspSigning : (ekus : List ℕ) → has_ocsp_eku ekus ≡ true → HasOcspSigning ekus
unfolding has_ocsp_eku
has_ocsp_eku-HasOcspSigning [] h = cc
has_ocsp_eku-HasOcspSigning (eku ∷ more) h = ground (arith, has_ocsp_eku-HasOcspSigning more)

verify_key_matches-KeyOf :
    (pub_key : PublicKey) (key : PrivateKey)
    → verify_key_matches pub_key key ≡ ok tt
    → KeyOf pub_key key
unfolding verify_key_matches
verify_key_matches-KeyOf (rsa n e) (rsa_private n' e') h =
    let same : (n ≡ n') × (e ≡ e') = ground arith in rw (same.0, same.1) (rsa_key n' e')
verify_key_matches-KeyOf (ecdsa n e) (ecdsa_private n' e') h =
    let same : (n ≡ n') × (e ≡ e') = ground arith in rw (same.0, same.1) (ecdsa_key n' e')
verify_key_matches-KeyOf (rsa n e) (ecdsa_private _ _) h = absurd (cc)
verify_key_matches-KeyOf (rsa n e) other_signer h = absurd (cc)
verify_key_matches-KeyOf (rsa n e) no_signer h = absurd (cc)
verify_key_matches-KeyOf (ecdsa n e) (rsa_private _ _) h = absurd (cc)
verify_key_matches-KeyOf (ecdsa n e) other_signer h = absurd (cc)
verify_key_matches-KeyOf (ecdsa n e) no_signer h = absurd (cc)
verify_key_matches-KeyOf other key h = absurd (cc)

three_checks {ℓ} :
    {A : Type ℓ} (a : Bool) (e : Error) (m t : Result (Unit {0})) (made b : A)
    → (guard a e >> (m >> (t >> ok made))) ≡ ok b
    → (a ≡ true) × (m ≡ ok tt) × (t ≡ ok tt) × (made ≡ b)
three_checks true e (ok _) (ok _) made b h = (refl, refl, refl, cc)
three_checks true e (ok _) (err _) made b h = absurd (cc)
three_checks true e (err _) t made b h = absurd (cc)
three_checks false e m t made b h = absurd (cc)

module _ (x : Crypto) where
  trust_checks :
      (cert issuer : Certificate)
      → verify_signer_trust x (some cert) (some issuer) ≡ ok tt
      → (issuer.is_ca ≡ true)
        × (issuer.key_usage / 32 % 2 ≡ 1)
        × (x.check_signature_from cert issuer ≡ none)
  unfolding verify_signer_trust
  trust_checks cert issuer h = ground arith

  checked_signer-IsTrusted :
      (cert : Certificate) (key : PrivateKey) (issuer : Certificate) (validity : Duration)
      (now : Time) (s : Signer) (warned : Bool)
      → checked_signer x cert key issuer validity now ≡ ok (s, warned)
      → IsTrusted x s × (s.validity ≡ validity)
  unfolding checked_signer
  checked_signer-IsTrusted cert key issuer validity now s warned h =
      let (eku, matches, trusted, made) =
        three_checks (has_ocsp_eku cert.ext_key_usage) _ (verify_key_matches cert.public_key key)
          (verify_signer_trust x (some cert) (some issuer)) _ (s, warned) h in
      let (is_ca, signs, signed) = trust_checks cert issuer trusted in
      rw (← ap (λ (p : Signer × Bool). p.0) made) (
        record {
          for_ocsp = has_ocsp_eku-HasOcspSigning cert.ext_key_usage eku;
          key_of = verify_key_matches-KeyOf cert.public_key key matches;
          issuer_is_ca = is_ca;
          issuer_signs = signs;
          signed = signed;
        },
        refl,
      )

  loaded-IsTrusted :
      (c : Result Certificate) (k : Result PrivateKey) (i : Result Certificate)
      (validity : Duration) (now : Time) (s : Signer) (warned : Bool)
      → (c >>= λ cert. k >>= λ key. i >>= λ issuer. checked_signer x cert key issuer validity now)
        ≡ ok (s, warned)
      → IsTrusted x s × (s.validity ≡ validity)
  loaded-IsTrusted (ok cert) (ok key) (ok issuer) validity now s warned h =
      checked_signer-IsTrusted cert key issuer validity now s warned h
  loaded-IsTrusted (ok cert) (ok key) (err e) validity now s warned h = absurd (cc)
  loaded-IsTrusted (ok cert) (err e) i validity now s warned h = absurd (cc)
  loaded-IsTrusted (err e) k i validity now s warned h = absurd (cc)

  -- A signer that is made at startup is trusted: its certificate is for signing OCSP responses, its key
  -- is the certificate's, and its issuer is a CA that may sign certificates and has signed it. Its
  -- validity is the one that was asked for.
  pub new_signer-IsTrusted :
      (cert_file key_file issuer_cert_file : String) (validity : Duration) (now : Time) (s : Signer)
      (warned : Bool)
      → new_signer x cert_file key_file issuer_cert_file validity now ≡ ok (s, warned)
      → IsTrusted x s × (s.validity ≡ validity)
  unfolding new_signer
  new_signer-IsTrusted cert_file key_file issuer_cert_file validity now s warned h =
      loaded-IsTrusted (load_cert x cert_file) (load_key x key_file) (load_cert x issuer_cert_file)
        validity now s warned h
