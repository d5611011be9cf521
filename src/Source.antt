-- ===== src/Source.antt =====
-- internal/source/source.go: the status of a certificate, and the interface of the backends.
pub mod Static
pub mod File
pub mod Http
use ocsp.Base.{ℕ, String, Bool, Option}
use ocsp.Base.Int.{ℤ}
use ocsp.Go.Time.{Time}
use ocsp.Go.Errors.{Result}
use ocsp.Go.X509.{Certificate}

-- The Go type is an `int`, so it has other values than the three that are named.
pub data Status : Type 0 where
  good revoked unknown : Status
  other : ℕ → Status

pub record RevocationInfo : Type 0 where
  pub revoked_at : Time
  pub reason : ℕ

pub record CertStatus : Type 0 where
  pub status : Status
  pub revocation_info : Option RevocationInfo
  pub source_next_update : Time

-- A backend. `Env` is what one lookup takes from outside: its context, the clock's readings, the
-- answers of a server. A backend may answer with a nil status and no error.
pub record Source : Type 1 where
  pub State : Type 0
  pub Env : Type 0
  pub get_status : Env → ℤ → Option Certificate → State → Result (Option CertStatus) × State
  pub name : String
  pub healthy : Time → State → Bool
