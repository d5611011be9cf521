-- ===== src/Source/File/Load.antt =====
-- Loading a revocation list: `parseCRLBytes`, `verifyCRLForIssuer`, `loadFromURL`, `loadFromDisk` and
-- `reloadFromDiskIfChanged` of internal/source/file.go.
use ocsp.Base.{ℕ, true, Option, none, some, List, [], ◌∷◌, ◌&&◌, eqb, if◌then◌else◌}
use ocsp.Base.Dict.{Dict, insert}
use ocsp.Go.Time.{Time}
use ocsp.Go.Numerals.{to_decimal}
use ocsp.Go.Errors.{
  Error, text, wrap, invalid_crl, Result, ok, err, check, guard, wrap_error, ◌>>=◌, ◌>>◌,
}
use ocsp.Go.X509.{Bytes, Certificate, bytes_equal}
use ocsp.Source.File.{FileSource, RevokedCertificate}

-- `x509.RevocationList`; `raw` stands for what its signature is checked over.
pub record RevocationList : Type 0 where
  pub raw : Bytes
  pub raw_issuer : Bytes
  pub this_update : Time
  pub next_update : Time
  pub revoked_certificate_entries : List RevokedCertificate

-- What loading calls and does not implement: `pem.Decode` (the bytes of the first block),
-- `x509.ParseRevocationList`, `CheckSignatureFrom` and `sha256.Sum256`.
pub record Crypto : Type 0 where
  pub pem_decode : Bytes → Option Bytes
  pub parse_revocation_list : Bytes → Result RevocationList
  pub check_signature_from : RevocationList → Certificate → Option Error
  pub sum256 : Bytes → Bytes

-- The answer to an HTTP GET, or why there is none; reading the body may fail too.
pub record Response : Type 0 where
  pub status_code : ℕ
  pub body : Result Bytes

-- The loop that builds the map of revoked certificates. A later entry of a serial number replaces an
-- earlier one.
unfoldable pub index_from :
    Dict RevokedCertificate → List RevokedCertificate → Dict RevokedCertificate
index_from d [] = d
index_from d (rc ∷ more) = index_from (insert (to_decimal rc.serial_number) rc d) more

unfoldable pub index : List RevokedCertificate → Dict RevokedCertificate
unfolding index_from
index = index_from []

abbrev pub der_of : Option Bytes → Bytes → Bytes
der_of none b = b
der_of (some block) b = block

-- `if err != nil { return ErrInvalidCRL }`, whatever the error
abbrev pub as_invalid_crl {ℓ} : {A : Type ℓ} → Result A → Result A
as_invalid_crl (ok a) = ok a
as_invalid_crl (err _) = err (wrap "ocsp-responder/source" invalid_crl)

-- The writes under the lock, and `s.loaded.Store(true)`.
unfoldable pub swap_in : RevocationList → FileSource → FileSource
unfolding index
swap_in rl s = record s {
  revoked = index rl.revoked_certificate_entries;
  this_update = rl.this_update;
  next_update = rl.next_update;
  loaded = true;
}

swap_in_result : Result RevocationList → FileSource → Result (Unit {0}) × FileSource
unfolding swap_in
swap_in_result (ok rl) s = (ok tt, swap_in rl s)
swap_in_result (err e) s = (err e, s)

-- `s.storeHash(sum)`, if the bytes were parsed
store_hash : Bytes → Result (Unit {0}) × FileSource → Result (Unit {0}) × FileSource
store_hash sum (ok _, s) = (ok tt, record s { last_hash = sum })
store_hash sum (err e, s) = (err e, s)

-- What `loadFromURL` has downloaded before it parses.
unfoldable pub downloaded : Result Response → Result Bytes
downloaded answer = do
  resp ← wrap_error "ocsp-responder/source: downloading CRL" answer
  guard (eqb resp.status_code 200) (text "ocsp-responder/source: downloading CRL: HTTP status")
  wrap_error "ocsp-responder/source: reading CRL body" resp.body

module _ (x : Crypto) where
  unfoldable pub verify_crl_for_issuer : RevocationList → Certificate → Result (Unit {0})
  verify_crl_for_issuer rl issuer = do
    guard (bytes_equal rl.raw_issuer issuer.raw_subject)
        (text "ocsp-responder/source: CRL issuer mismatch")
    wrap_error "ocsp-responder/source: CRL signature verification failed"
        (check (x.check_signature_from rl issuer))

  -- The list in the bytes, parsed and verified.
  unfoldable pub verified_crl : Bytes → Certificate → Result RevocationList
  unfolding verify_crl_for_issuer
  verified_crl b issuer = do
    rl ← as_invalid_crl (x.parse_revocation_list (der_of (x.pem_decode b) b))
    verify_crl_for_issuer rl issuer
    ok rl

  -- `parseCRLBytes`
  unfoldable pub parse_crl_bytes : Bytes → FileSource → Result (Unit {0}) × FileSource
  unfolding verified_crl swap_in_result
  parse_crl_bytes b s = swap_in_result (verified_crl b s.issuer_cert) s

  -- `loadFromDisk`, from what `os.ReadFile` answers
  unfoldable pub load_from_disk : Result Bytes → FileSource → Result (Unit {0}) × FileSource
  unfolding parse_crl_bytes store_hash
  load_from_disk (err e) s = (err (wrap "ocsp-responder/source" e), s)
  load_from_disk (ok b) s = store_hash (x.sum256 b) (parse_crl_bytes b s)

  -- `reloadFromDiskIfChanged`
  unfoldable pub reload_from_disk_if_changed :
      Result Bytes → FileSource → Result (Unit {0}) × FileSource
  unfolding load_from_disk
  reload_from_disk_if_changed (err e) s = (err (wrap "ocsp-responder/source" e), s)
  reload_from_disk_if_changed (ok b) s =
      if bytes_equal (x.sum256 b) s.last_hash && s.loaded
      then (ok tt, s)
      else store_hash (x.sum256 b) (parse_crl_bytes b s)

  unfoldable pub parse_downloaded : Result Bytes → FileSource → Result (Unit {0}) × FileSource
  unfolding parse_crl_bytes
  parse_downloaded (err e) s = (err e, s)
  parse_downloaded (ok b) s = parse_crl_bytes b s

  unfoldable pub load_from_url : Result Response → FileSource → Result (Unit {0}) × FileSource
  unfolding downloaded parse_downloaded
  load_from_url answer s = parse_downloaded (downloaded answer) s
