-- ===== src/Service/Says.antt =====
-- A response that reads as `good` says what the backend said.
use ocsp.Base.{ℕ, Option, none, some, ◌≡◌, ◌≤◌, some-injective, refl, arith, ◌∙◌, sym, ap}
use ocsp.Base.Int.{ℤ}
use ocsp.Go.Time.{Time}
use ocsp.Go.Errors.{Result, ok, err}
use ocsp.Go.X509.{Bytes}
use ocsp.Source.{Source, CertStatus, Status, good, RevocationInfo}
use ocsp.Signer
use ocsp.Signer.{Template, create_response}
use ocsp.Signer.Validity.{
  Encodes, as_good, as_revoked, as_revoked_undated, as_unknown, IsSignedAs,
  create_response-IsSignedAs,
}
use ocsp.Responder.Handle.{verdict}
use ocsp.Responder.Handle.Provenance.{Signed}
use ocsp.Service.{as_signer}

pub Encodes-good :
    {status : Status} {info : Option RevocationInfo} {mapped : Signer.Mapped}
    → Encodes status info mapped
    → mapped.0 ≡ 0
    → status ≡ good
Encodes-good (as_good info) h = refl
Encodes-good (as_revoked info) h = absurd (omega arith)
Encodes-good as_revoked_undated h = absurd (omega arith)
Encodes-good (as_unknown info) h = absurd (omega arith)

-- A verdict of `good` is the source's own, with its next update.
pub good_verdict :
    (a : Result (Option CertStatus))
    → (verdict a).status ≡ good
    → (cs : CertStatus) × (a ≡ ok (some cs))
      × (cs.status ≡ good)
      × ((verdict a).source_next_update ≡ cs.source_next_update)
unfolding verdict
good_verdict (ok (some cs)) h = (cs, refl, h, refl)
good_verdict (ok none) h = absurd (cc)
good_verdict (err e) h = absurd (cc)

-- What a reader of responses (`ocsp.ParseResponse`) has to do: to find in the bytes that the library made
-- with this signer's own certificate and key, which it embeds and with which the reader checks the
-- signature, the status that they were made for, if it is one of the three that a response can have.
abbrev pub ReadsStatus : Signer.Crypto → Signer.Signer → (Bytes → Option ℕ) → Type 0
ReadsStatus keys sgn parse_status =
    (template : Template) (der : Bytes)
    → template.status ≤ 2
    → template.certificate ≡ sgn.cert
    → keys.create sgn.issuer_cert sgn.cert template sgn.key ≡ ok der
    → parse_status der ≡ some template.status

status_bounded :
    {status : Status} {info : Option RevocationInfo} {mapped : Signer.Mapped}
    → Encodes status info mapped
    → mapped.0 ≤ 2
status_bounded (as_good info) = omega arith
status_bounded (as_revoked info) = omega arith
status_bounded as_revoked_undated = omega arith
status_bounded (as_unknown info) = omega arith

-- A response of the signer that reads as `good` was made for the status 0.
pub IsSignedAs-good :
    (keys : Signer.Crypto) (sgn : Signer.Signer) (parse_status : Bytes → Option ℕ) (serial : ℤ)
    (status : Status) (info : Option RevocationInfo) (this_update until : Time) (out : Bytes)
    (next_update : Time)
    (made : IsSignedAs keys sgn serial status info this_update until out next_update)
    → ReadsStatus keys sgn parse_status
    → parse_status out ≡ some 0
    → made.mapped.0 ≡ 0
IsSignedAs-good keys sgn parse_status serial status info this_update until out next_update made
      reads is_good =
    let status : made.template.status ≡ made.mapped.0 =
      ap (λ (m : Signer.Mapped). m.0) made.content in
    let bounded = status_bounded made.encodes in
    let read : some made.template.status ≡ some 0 =
      sym (reads made.template out (omega arith) made.by made.created) ∙ is_good in
    sym status ∙ some-injective read

-- Bytes that were signed and read as `good` were signed on the backend's word.
pub Signed-good :
    (keys : Signer.Crypto) (sgn : Signer.Signer) (parse_status : Bytes → Option ℕ) (S : Source)
    (Q : S.Env → S.State → Type 0) (serial : ℤ) (out : Bytes) (next_update : Time)
    (p : Signed S (as_signer keys sgn) Q serial out next_update)
    → ReadsStatus keys sgn parse_status
    → parse_status out ≡ some 0
    → (cs : CertStatus) × ((S.get_status p.env serial (some sgn.issuer_cert) p.state).0
        ≡ ok (some cs))
      × (cs.status ≡ good)
Signed-good keys sgn parse_status S Q serial out next_update p reads is_good =
    let made =
      create_response-IsSignedAs keys sgn serial _ _ p.signed_at _ out next_update p.created in
    let status =
      IsSignedAs-good keys sgn parse_status serial _ _ p.signed_at _ out next_update made reads
        is_good in
    let (cs, answered, cleared, _) = good_verdict _ (Encodes-good made.encodes status) in
    (cs, answered, cleared)
