-- ===== src/Tests/Lists.antt =====
-- Revocation lists and their reloads.
use ocsp.Base.{
  ℕ, Bool, true, false, Option, none, some, List, [], ◌∷◌, ◌≡◌, ◌≢◌, ◌↔◌, refl, All, arith,
}
use ocsp.Base.Int.{ℤ, pos}
use ocsp.Base.Dict.{lookup}
use ocsp.Go.Numerals.{to_decimal}
use ocsp.Go.Errors
use ocsp.Go.Errors.{Result, ok}
use ocsp.Go.X509.{Bytes}
use ocsp.Source.{CertStatus, good}
use ocsp.Source.File.{FileSource, get_status, healthy}
use ocsp.Source.File.Load.{index}
use ocsp.Source.File.Verified.{IsVerified}
use ocsp.Source.File.Reload.{ticks, tick}
use ocsp.Source.File.Status.{Serves, Reflects, get_status-good_iff, healthy_iff}
use ocsp.Source.File.Backed.{Holds, ticks-good}
use ocsp.Source.File.Refresh.{InService, tick-refreshes, tick-fails}
use ocsp.Source.File.Expiry.{IsTold, ticks-IsTold_from_start}
use ocsp.Tests.Bench.{
  issuer, files, finds, finds_nothing, alive_at, at, list_of, source, source-started,
  source-IsBacked,
}

-- A list that was replaced, a file that went missing, and a file that came back.
abbrev later : FileSource
later = ticks files (finds (8 ∷ []) 300 ∷ finds_nothing 400 ∷ finds (8 ∷ []) 500 ∷ []) source

abbrev good_until_1000 : CertStatus
good_until_1000 = record { status = good; revocation_info = none; source_next_update = at 1000 }

later-good : get_status (alive_at 600) (pos 7) (some issuer) later ≡ ok (some good_until_1000)
unfolding get_status ticks tick ocsp.Base.Int.◌+ℤ◌ ocsp.Base.Int.◌-ℤ◌ lookup ocsp.Base.Dict.insert
    to_decimal
later-good = refl

ticks-good_example :
    (h : Holds files later) × Serves (alive_at 600) issuer later
    × All (λ rc. rc.serial_number ≢ pos 7) h.list.revoked_certificate_entries
ticks-good_example =
    ticks-good files false (some issuer) (pos 0) (finds (7 ∷ []) 200) source
      (finds (8 ∷ []) 300 ∷ finds_nothing 400 ∷ finds (8 ∷ []) 500 ∷ []) (alive_at 600) (pos 7)
      issuer good_until_1000 source-started later-good refl

verified : (b : Bytes) → IsVerified files b issuer (list_of b)
verified b = record { parsed = refl; issuer_named = refl; signed = refl }

tick-refreshes_example : InService (list_of (8 ∷ [])) (tick files (finds (8 ∷ []) 300) source)
tick-refreshes_example =
    tick-refreshes files (finds (8 ∷ []) 300) (8 ∷ []) (list_of (8 ∷ [])) source refl refl
      source-IsBacked (λ held same. same) refl (verified (8 ∷ []))

err_is_not_ok : {A B : Type 0} (b : A) → Path (Result A) (Errors.err Errors.end_of_file) (ok b) → B
err_is_not_ok b h = absurd (cc)

tick-fails_example : (tick files (finds_nothing 300) source).loaded ≡ false
tick-fails_example =
    tick-fails files (finds_nothing 300) source refl refl source-IsBacked
      (λ b rl missing _. err_is_not_ok b missing) (λ b missing. err_is_not_ok b missing)

source-Reflects : Reflects source (list_of (7 ∷ []))
unfolding index ocsp.Base.Dict.insert to_decimal
source-Reflects = record { revoked = refl; this_update = refl; next_update = refl }

get_status-good_iff_example :
    ((cs : CertStatus) × (get_status (alive_at 600) (pos 8) (some issuer) source ≡ ok (some cs))
      × (cs.status ≡ good))
    ↔ (Serves (alive_at 600) issuer source
        × All (λ rc. rc.serial_number ≢ pos 8) (list_of (7 ∷ [])).revoked_certificate_entries)
get_status-good_iff_example =
    get_status-good_iff (alive_at 600) (pos 8) issuer source (list_of (7 ∷ [])) source-Reflects

healthy_iff_example : (healthy (at 600) source ≡ true) ↔ (
    (cs : CertStatus) × (get_status
        (record { ctx_err = none; now = at 600 })
        (pos 8)
        (some issuer)
        source
      ≡ ok (some cs)))
healthy_iff_example = healthy_iff (at 600) (pos 8) source

ticks-IsTold_from_start_example :
    IsTold (ticks files (finds (7 ∷ []) 2000 ∷ finds (8 ∷ []) 3000 ∷ []) source)
ticks-IsTold_from_start_example =
    ticks-IsTold_from_start files false (some issuer) (pos 0) (finds (7 ∷ []) 200) source
      (finds (7 ∷ []) 2000 ∷ finds (8 ∷ []) 3000 ∷ []) source-started
