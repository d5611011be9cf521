-- ===== src/Tests/Bench.antt =====
-- An issuer, a signer and a revocation list, with functions in place of the libraries that parse, hash
-- and sign.
use ocsp.Base.{
  ℕ, ◌+◌, ◌*◌, String, Bool, true, false, Option, none, some, List, [], ◌∷◌, ◌==◌, ◌≡◌, refl, eqb,
  if◌then◌else◌,
}
use ocsp.Base.Int.{ℤ, pos}
use ocsp.Go.Time.{Time, second}
use ocsp.Go.Numerals.{to_decimal}
use ocsp.Go.Errors.{Result, ok, err, text, end_of_file}
use ocsp.Go.X509.{Bytes, Certificate, rsa, other}
use ocsp.Source.File.{RevokedCertificate, FileSource, FileEnv, file_source}
use ocsp.Source.File.Load
use ocsp.Source.File.Load.{RevocationList}
use ocsp.Source.File.Reload.{Tick, new_file_source}
use ocsp.Source.File.Backed.{IsBacked, new_file_source-IsBacked}
use ocsp.Signer
use ocsp.Signer.{PrivateKey, rsa_private, Template}
use ocsp.Responder.Binding.{Externals, Request}
use ocsp.Responder.Cache.{Cache}
use ocsp.Responder.Handle.{Call}

abbrev pub at : ℕ → Time
at seconds = pos (seconds * second)

abbrev pub issuer : Certificate
issuer = record {
  raw_subject = 1 ∷ [];
  raw_subject_public_key_info = 2 ∷ [];
  not_before = at 1;
  not_after = at 9_000_000;
  is_ca = true;
  key_usage = 32;
  ext_key_usage = [];
  public_key = other;
}

abbrev pub responder_cert : Certificate
responder_cert = record {
  raw_subject = 3 ∷ [];
  raw_subject_public_key_info = 4 ∷ [];
  not_before = at 1;
  not_after = at 9_000_000;
  is_ca = false;
  key_usage = 1;
  ext_key_usage = 2 ∷ 9 ∷ [];
  public_key = rsa 77 3;
}

-- The file that holds byte 7 is the key, byte 8 the responder's certificate, any other the issuer.
abbrev contents : String → Bytes
contents path = if path == "key.pem" then 7 ∷ [] else if path == "cert.pem" then 8 ∷ [] else 9 ∷ []

abbrev certificate_of : Bytes → Certificate
certificate_of (n ∷ _) = if eqb n 8 then responder_cert else issuer
certificate_of [] = issuer

-- A signed response is the status and the serial number's text is left out.
abbrev pub keys : Signer.Crypto
keys = record {
  read_file = λ path. ok (contents path);
  pem_decode = λ b. none;
  parse_certificate = λ b. ok (certificate_of b);
  parse_pkcs8_private_key = λ b. err end_of_file;
  parse_pkcs1_private_key = λ b. ok (rsa_private 77 3);
  check_signature_from = λ cert by. none;
  create = λ by cert template key. ok (template.status ∷ []);
}

abbrev pub parse_status : Bytes → Option ℕ
parse_status [] = none
parse_status (n ∷ _) = some n

abbrev pub sgn : Signer.Signer
sgn = record {
  cert = responder_cert;
  key = rsa_private 77 3;
  issuer_cert = issuer;
  validity = at 3600;
}

abbrev pub entry : ℕ → RevokedCertificate
entry n = record { serial_number = pos n; revocation_time = at 50; extensions = [] }

-- The bytes of a list are the serial numbers that it revokes.
abbrev entries : Bytes → List RevokedCertificate
entries [] = []
entries (n ∷ more) = entry n ∷ entries more

abbrev pub list_of : Bytes → RevocationList
list_of b = record {
  raw = b;
  raw_issuer = 1 ∷ [];
  this_update = at 100;
  next_update = at 1000;
  revoked_certificate_entries = entries b;
}

abbrev pub files : Load.Crypto
files = record {
  pem_decode = λ b. none;
  parse_revocation_list = λ b. ok (list_of b);
  check_signature_from = λ rl by. none;
  sum256 = λ b. b;
}

-- A request's bytes are the serial number; hash 5 is available and leaves bytes as they are.
abbrev request_of : Bytes → Result Request
request_of [] = err (text "asn1: syntax error")
request_of (n ∷ _) = ok (record {
  hash_algorithm = 5;
  issuer_name_hash = 1 ∷ [];
  issuer_key_hash = 2 ∷ [];
  serial_number = pos n;
})

abbrev pub externals : Externals
externals = record {
  available = λ h. eqb h 5;
  digest = λ h b. b;
  subject_public_key = λ b. some b;
  parse_request = request_of;
}

-- A tick that finds a file.
abbrev pub finds : Bytes → ℕ → Tick
finds b seconds = record { download = err end_of_file; disk = ok b; now = at seconds }

abbrev pub finds_nothing : ℕ → Tick
finds_nothing seconds = record {
  download = err end_of_file;
  disk = err end_of_file;
  now = at seconds;
}

abbrev pub alive_at : ℕ → FileEnv
alive_at seconds = record { ctx_err = none; now = at seconds }

abbrev pub call_at : ℕ → Call file_source
call_at seconds = record {
  ctx_err = none;
  looked_up = at seconds;
  source_env = alive_at seconds;
  signed_at = at seconds;
  stored_at = at seconds;
  victim = 0;
}

abbrev pub empty_cache : Cache
empty_cache = record {
  entries = [];
  ttl = at 60;
  max_entries = pos 2;
  enabled = true;
  entries_gauge = some 0;
}

abbrev pub source : FileSource
source = record {
  issuer_cert = issuer;
  is_url = false;
  expiry_grace = pos 0;
  revoked = ("7", entry 7) ∷ [];
  this_update = at 100;
  next_update = at 1000;
  loaded = true;
  expired_logged = false;
  last_hash = 7 ∷ [];
  logged = [];
  done_closed = false;
}

pub source-started :
    new_file_source files false (some issuer) (pos 0) (finds (7 ∷ []) 200) ≡ ok source
unfolding new_file_source ocsp.Go.X509.bytes_equal ocsp.Base.Int.◌+ℤ◌ ocsp.Base.Int.◌-ℤ◌
    ocsp.Base.Dict.insert to_decimal
source-started = refl

pub source-IsBacked : IsBacked files source
source-IsBacked =
    new_file_source-IsBacked files false (some issuer) (pos 0) (finds (7 ∷ []) 200) source
      source-started
