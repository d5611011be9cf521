-- ===== src/Signer/Validity.antt =====
-- What a signed response says, and until when.
use ocsp.Base.{
  both_true, String, Bool, false, Option, none, some, ◌≡◌, ◌⊎◌, inl, inr, refl, arith, Bool-cases,
  not, ◌&&◌,
}
use ocsp.Base.Int.{ℤ, pos, ◌+ℤ◌, ◌≤ℤ◌, ◌<ℤ◌, int_laws}
use ocsp.Go.Time.{
  Time, Duration, is_zero, zero_time, before, truncate_second-le, lt-truncate_second, second,
}
use ocsp.Go.Errors.{Result, ok, err, ◌>>=◌, wrap_error}
use ocsp.Go.X509.{Bytes}
use ocsp.Source.{Status, good, revoked, unknown, RevocationInfo}
use ocsp.Signer.{
  Crypto, Signer, Template, Mapped, map_status, next_update_of, template_of, create_response,
}

-- The next update lies within the validity and, where the source has one, at or before the source's
-- next update; it is less than a second before the earlier of the two.
pub record IsCapped (validity : Duration) (this_update source_next_update next_update : Time)
    : Type 0 where
  pub in_validity : next_update ≤ℤ this_update +ℤ validity
  pub in_source : is_zero source_next_update ≡ false → next_update ≤ℤ source_next_update
  pub tight :
      (this_update +ℤ validity <ℤ next_update +ℤ pos second)
      ⊎ ((is_zero source_next_update ≡ false) × (source_next_update <ℤ next_update +ℤ pos second))

uncapped : (a b : Bool) → (not a && b) ≡ false → a ≡ false → b ≡ false
uncapped a b h e = ground arith

pub next_update_of-IsCapped :
    (validity : Duration) (this_update source_next_update : Time)
    → IsCapped validity this_update source_next_update
        (next_update_of validity this_update source_next_update)
unfolding next_update_of
next_update_of-IsCapped validity this_update source_next_update =
    elim (Bool-cases
      (not (is_zero source_next_update) && before source_next_update (this_update +ℤ validity))) [
        | inl capped ↦ rw capped (record {
          in_validity = omega (
            int_laws,
            truncate_second-le source_next_update,
            (both_true (not (is_zero source_next_update))
                (before source_next_update (this_update +ℤ validity)) capped).1,
          );
          in_source = λ dated. truncate_second-le source_next_update;
          tight = inr (ground arith, lt-truncate_second source_next_update);
        })
        | inr free ↦ rw free (record {
          in_validity = truncate_second-le (this_update +ℤ validity);
          in_source = λ dated. omega (
            int_laws,
            truncate_second-le (this_update +ℤ validity),
            uncapped (is_zero source_next_update)
                (before source_next_update (this_update +ℤ validity)) free dated,
          );
          tight = inl (lt-truncate_second (this_update +ℤ validity));
        })
      ]

-- The library's number for each status, and what else a revoked one carries. There is none for a value
-- that is no status.
pub data Encodes : Status → Option RevocationInfo → Mapped → Type 0 where
  as_good : (info : Option RevocationInfo) → Encodes good info (0, zero_time, 0)
  as_revoked :
      (info : RevocationInfo) → Encodes revoked (some info) (1, info.revoked_at, info.reason)
  as_revoked_undated : Encodes revoked none (1, zero_time, 0)
  as_unknown : (info : Option RevocationInfo) → Encodes unknown info (2, zero_time, 0)

map_status-Encodes :
    (status : Status) (info : Option RevocationInfo) (mapped : Mapped)
    → map_status status info ≡ ok mapped
    → Encodes status info mapped
unfolding map_status
map_status-Encodes good info mapped h =
    let same : (0, zero_time, 0) ≡ mapped = cc in rw (← same) (as_good info)
map_status-Encodes revoked none mapped h =
    let same : (1, zero_time, 0) ≡ mapped = cc in rw (← same) as_revoked_undated
map_status-Encodes revoked (some info) mapped h =
    let same : (1, info.revoked_at, info.reason) ≡ mapped = cc in rw (← same) (as_revoked info)
map_status-Encodes unknown info mapped h =
    let same : (2, zero_time, 0) ≡ mapped = cc in rw (← same) (as_unknown info)
map_status-Encodes (Status.other n) info mapped h = absurd (cc)

-- What the library was asked to sign: a template for the serial number and the status, for the given
-- times, with the signer's own certificate, by its own key.
pub record IsSignedAs (x : Crypto) (s : Signer) (serial : ℤ) (status : Status)
    (info : Option RevocationInfo) (this_update source_next_update : Time) (der : Bytes)
    (next_update : Time) : Type 0 where
  pub template : Template
  pub mapped : Mapped
  pub created : x.create s.issuer_cert s.cert template s.key ≡ ok der
  pub encodes : Encodes status info mapped
  pub content : (template.status, template.revoked_at, template.revocation_reason) ≡ mapped
  pub serial_number : template.serial_number ≡ serial
  pub at : template.this_update ≡ this_update
  pub by : template.certificate ≡ s.cert
  pub until : template.next_update ≡ next_update
  pub capped : IsCapped s.validity this_update source_next_update next_update

abbrev with_update : Time → Bytes → Result (Bytes × Time)
with_update until made = ok (made, until)

signed_part :
    (prefix : String) (r : Result Bytes) (until : Time) (der : Bytes) (next_update : Time)
    → (wrap_error prefix r >>= with_update until) ≡ ok (der, next_update)
    → (r ≡ ok der) × (until ≡ next_update)
signed_part prefix (ok made) until der next_update h = (cc, cc)
signed_part prefix (err e) until der next_update h = absurd (cc)

signed_chain :
    (prefix : String) (m : Result Mapped) (sign : Mapped → Result Bytes) (until : Mapped → Time)
    (der : Bytes) (next_update : Time)
    → (m >>= λ mapped. wrap_error prefix (sign mapped) >>= with_update (until mapped))
      ≡ ok (der, next_update)
    → (mapped : Mapped) × (m ≡ ok mapped) × (sign mapped ≡ ok der) × (until mapped ≡ next_update)
signed_chain prefix (ok mapped) sign until der next_update h =
    let (made, same) = signed_part prefix (sign mapped) (until mapped) der next_update h in
    (mapped, refl, made, same)
signed_chain prefix (err e) sign until der next_update h = absurd (cc)

-- A response that is created is signed as the status it was created for, and the next update that comes
-- with it is the signed one, capped by the validity and by the source.
pub create_response-IsSignedAs :
    (x : Crypto) (s : Signer) (serial : ℤ) (status : Status) (info : Option RevocationInfo)
    (this_update source_next_update : Time) (der : Bytes) (next_update : Time)
    → create_response x s serial status info this_update source_next_update ≡ ok (der, next_update)
    → IsSignedAs x s serial status info this_update source_next_update der next_update
unfolding create_response
create_response-IsSignedAs x s serial status info this_update source_next_update der next_update h =
    let template : Mapped → Template =
      λ mapped. template_of s serial mapped this_update source_next_update in
    let (mapped, mapping, made, same) =
      signed_chain "ocsp-responder/signer" (map_status status info)
        (λ mapped. x.create s.issuer_cert s.cert (template mapped) s.key)
        (λ mapped. (template mapped).next_update) der next_update h in
    record {
      template = template mapped;
      mapped = mapped;
      created = made;
      encodes = map_status-Encodes status info mapped mapping;
      content = unfold template_of in refl;
      serial_number = unfold template_of in refl;
      at = unfold template_of in refl;
      by = unfold template_of in refl;
      until = same;
      capped =
          rw (← same) (
            unfold template_of in
            next_update_of-IsCapped s.validity this_update source_next_update);
    }
