-- ===== src/Source/Static.antt =====
-- internal/source/static.go
use ocsp.Base.{String, true, Option, none, some, ◌<>◌, ◌==◌, if◌then◌else◌}
use ocsp.Base.Int.{ℤ}
use ocsp.Go.Time.{Time, zero_time}
use ocsp.Go.Errors.{Error, text, Result, ok, err, check, ◌>>◌}
use ocsp.Go.X509.{Certificate}
use ocsp.Source.{Source, Status, good, revoked, unknown, RevocationInfo, CertStatus}

pub record StaticSource : Type 0 where
  pub status : Status

-- The context's error, and the time at which a revoked status is made.
pub record StaticEnv : Type 0 where
  pub ctx_err : Option Error
  pub now : Time

-- The text of the error quotes `status_str` by `%q`, which is given here as the text itself.
unfoldable pub new_static_source : String → Result StaticSource
new_static_source status_str =
    if status_str == "good"
    then ok (record { status = good })
    else if status_str == "revoked"
    then ok (record { status = revoked })
    else if status_str == "unknown"
    then ok (record { status = unknown })
    else err (text ("ocsp-responder/source: invalid static status " <> status_str))

abbrev revoked_now : Status → Time → Option RevocationInfo
revoked_now revoked now = some (record { revoked_at = now; reason = 0 })
revoked_now _ now = none

unfoldable pub get_status :
    StaticEnv → ℤ → Option Certificate → StaticSource → Result (Option CertStatus)
get_status env serial issuer s = do
  check env.ctx_err
  ok (
      some (record {
        status = s.status;
        revocation_info = revoked_now s.status env.now;
        source_next_update = zero_time;
      }))

-- `StaticSource` as a backend: no lookup changes it.
abbrev pub static_source : Source
static_source = record {
  State = StaticSource;
  Env = StaticEnv;
  get_status = λ env serial issuer s. (get_status env serial issuer s, s);
  name = "static";
  healthy = λ now s. true;
}
