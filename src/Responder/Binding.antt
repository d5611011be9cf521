-- ===== src/Responder/Binding.antt =====
-- `validateIssuerBinding` of internal/responder/responder.go: a request names its issuer by the hashes
-- of the issuer's name and key.
use ocsp.Base.{
  ℕ, Bool, true, false, not, Option, none, some, ◌≡◌, ◌↔◌, arith, length, eqb, if◌then◌else◌,
  Option-cases, inl, inr,
}
use ocsp.Base.Int.{ℤ}
use ocsp.Go.Errors.{text, Result, ok, err, guard, ◌>>◌}
use ocsp.Go.X509.{Bytes, Certificate, bytes_equal, bytes_equal→eq, bytes_equal_self}

-- `ocsp.Request` of golang.org/x/crypto/ocsp; a `crypto.Hash` is an unsigned number.
pub record Request : Type 0 where
  pub hash_algorithm : ℕ
  pub issuer_name_hash : Bytes
  pub issuer_key_hash : Bytes
  pub serial_number : ℤ

-- What the responder calls and does not implement: `crypto.Hash.Available`, the digest of a byte
-- sequence, `asn1.Unmarshal` into `subjectPublicKeyInfo` (the bytes of its bit string), and
-- `ocsp.ParseRequest`.
pub record Externals : Type 0 where
  pub available : ℕ → Bool
  pub digest : ℕ → Bytes → Bytes
  pub subject_public_key : Bytes → Option Bytes
  pub parse_request : Bytes → Result Request

-- `equalBytes`: `subtle.ConstantTimeCompare` is 1 for equal contents.
unfoldable pub equal_bytes : Bytes → Bytes → Bool
equal_bytes a b = if not (eqb (length a) (length b)) then false else bytes_equal a b

pub equal_bytes_iff : (a b : Bytes) → (equal_bytes a b ≡ true) ↔ (a ≡ b)
unfolding equal_bytes
equal_bytes_iff a b =
    (λ h. bytes_equal→eq a b (ground arith), λ e. rw e (ground (arith, bytes_equal_self b)))

module _ (x : Externals) where
  validate_key : Request → Option Bytes → Result (Unit {0})
  validate_key req none = err (text "unable to parse issuer subject public key info")
  validate_key req (some key) =
      guard (equal_bytes req.issuer_key_hash (x.digest req.hash_algorithm key))
        (text "issuer key hash mismatch")

  unfoldable pub validate_issuer_binding : Option Request → Option Certificate → Result (Unit {0})
  unfolding validate_key
  validate_issuer_binding (some req) (some issuer) = do
    guard (x.available req.hash_algorithm) (text "unsupported issuer hash algorithm")
    guard (equal_bytes req.issuer_name_hash (x.digest req.hash_algorithm issuer.raw_subject))
        (text "issuer name hash mismatch")
    validate_key req (x.subject_public_key issuer.raw_subject_public_key_info)
  validate_issuer_binding _ _ = err (text "invalid issuer binding context")

  -- The request names this certificate: both hashes, under a hash that is available, are those of its
  -- name and of its key.
  pub record Names (req : Request) (issuer : Certificate) : Type 0 where
    pub key : Bytes
    pub hash_available : x.available req.hash_algorithm ≡ true
    pub name_hash : req.issuer_name_hash ≡ x.digest req.hash_algorithm issuer.raw_subject
    pub key_parsed : x.subject_public_key issuer.raw_subject_public_key_info ≡ some key
    pub key_hash : req.issuer_key_hash ≡ x.digest req.hash_algorithm key

  -- The binding is accepted exactly when the request names the issuer.
  pub validate_issuer_binding_iff :
      (req : Request) (issuer : Certificate)
      → (validate_issuer_binding (some req) (some issuer) ≡ ok tt) ↔ Names req issuer
  unfolding validate_issuer_binding
  validate_issuer_binding_iff req issuer = (accepted, rejected)
    where
      accepted : validate_issuer_binding (some req) (some issuer) ≡ ok tt → Names req issuer
      accepted h = elim (Option-cases (x.subject_public_key issuer.raw_subject_public_key_info)) [
        | inl e ↦ absurd (ground arith)
        | inr (key, e) ↦ record {
          key = key;
          hash_available = ground arith;
          name_hash = (equal_bytes_iff _ _).0 (ground arith);
          key_parsed = e;
          key_hash = (equal_bytes_iff _ _).0 (ground arith);
        }
      ]

      rejected : Names req issuer → validate_issuer_binding (some req) (some issuer) ≡ ok tt
      rejected n =
          let a = (equal_bytes_iff _ _).1 n.name_hash in
          let b = (equal_bytes_iff _ _).1 n.key_hash in
          ground (arith, n.hash_available, n.key_parsed, a, b)
