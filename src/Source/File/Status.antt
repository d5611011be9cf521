-- ===== src/Source/File/Status.antt =====
-- What the source answers, in terms of the list that it holds.
use ocsp.Base.{true, Option, none, some, ◌≡◌, ◌≢◌, ◌↔◌, refl, arith, All, ◌∙◌, sym, ap}
use ocsp.Base.Int.{ℤ}
use ocsp.Base.Dict.{lookup}
use ocsp.Go.Time.{Time}
use ocsp.Go.Numerals.{to_decimal}
use ocsp.Go.Errors.{ok}
use ocsp.Go.X509.{Certificate, bytes_equal, bytes_equal→eq, bytes_equal_self}
use ocsp.Source.{CertStatus, good}
use ocsp.Source.File.{
  FileSource, FileEnv, RevokedCertificate, get_status, healthy, found_status, crl_usable,
  crl_usable_at, check_issuer,
}
use ocsp.Source.File.Load.{RevocationList, index}
use ocsp.Source.File.Index.{last_of, last_of-none, lookup-index}
use ocsp.Source.File.Window.{InWindow, crl_usable_at_iff}

-- The source is in service for this issuer: the context is alive, a list is loaded and in its window,
-- and the issuer is the one that the source was made for.
pub record Serves (env : FileEnv) (asked : Certificate) (s : FileSource) : Type 0 where
  pub alive : env.ctx_err ≡ none
  pub loaded : s.loaded ≡ true
  pub window : InWindow s.this_update s.next_update s.expiry_grace env.now
  pub issuer : asked.raw_subject ≡ s.issuer_cert.raw_subject

-- The source holds this list.
pub record Reflects (s : FileSource) (rl : RevocationList) : Type 0 where
  pub revoked : s.revoked ≡ index rl.revoked_certificate_entries
  pub this_update : s.this_update ≡ rl.this_update
  pub next_update : s.next_update ≡ rl.next_update

-- The guards of `get_status`, and the answer behind them.
get_status_guards :
    (env : FileEnv) (serial : ℤ) (issuer : Certificate) (s : FileSource) (cs : CertStatus)
    → (get_status env serial (some issuer) s ≡ ok (some cs)) ↔ (
        (env.ctx_err ≡ none)
        × (s.loaded ≡ true)
        × (crl_usable_at s.this_update s.next_update s.expiry_grace env.now ≡ true)
        × (bytes_equal issuer.raw_subject s.issuer_cert.raw_subject ≡ true)
        × (found_status s.next_update (lookup (to_decimal serial) s.revoked) ≡ cs))
unfolding get_status check_issuer crl_usable
get_status_guards env serial issuer s cs = ground arith

-- The source answers exactly if it is in service, and then with the entry that its map shows.
pub get_status_iff :
    (env : FileEnv) (serial : ℤ) (issuer : Certificate) (s : FileSource) (cs : CertStatus)
    → (get_status env serial (some issuer) s ≡ ok (some cs)) ↔ (
        Serves env issuer s
        × (found_status s.next_update (lookup (to_decimal serial) s.revoked) ≡ cs))
get_status_iff env serial issuer s cs = (answers, serves)
  where
    answers :
        get_status env serial (some issuer) s ≡ ok (some cs)
        → Serves env issuer s
          × (found_status s.next_update (lookup (to_decimal serial) s.revoked) ≡ cs)
    answers h =
        let (alive, loaded, window, same, found) = (get_status_guards env serial issuer s cs).0 h in
        (
          record {
            alive = alive;
            loaded = loaded;
            window = (crl_usable_at_iff _ _ _ _).0 window;
            issuer = bytes_equal→eq _ _ same;
          },
          found,
        )

    serves :
        Serves env issuer s
          × (found_status s.next_update (lookup (to_decimal serial) s.revoked) ≡ cs)
        → get_status env serial (some issuer) s ≡ ok (some cs)
    serves (v, found) = (get_status_guards env serial issuer s cs).1 (
      v.alive,
      v.loaded,
      (crl_usable_at_iff _ _ _ _).1 v.window,
      rw v.issuer (bytes_equal_self _),
      found,
    )

found_status-good :
    (next_update : Time) (found : Option RevokedCertificate)
    → ((found_status next_update found).status ≡ good) ↔ (found ≡ none)
unfolding found_status
found_status-good next_update found = ground arith

-- A source that holds a list answers `good` for a serial number exactly if it is in service and no
-- entry of the list has that number.
pub get_status-good_iff :
    (env : FileEnv) (serial : ℤ) (issuer : Certificate) (s : FileSource) (rl : RevocationList)
    → Reflects s rl
    → ((cs : CertStatus) × (get_status env serial (some issuer) s ≡ ok (some cs))
        × (cs.status ≡ good))
      ↔ (Serves env issuer s × All (λ rc. rc.serial_number ≢ serial) rl.revoked_certificate_entries)
get_status-good_iff env serial issuer s rl r = (unlisted, cleared)
  where
    shown : lookup (to_decimal serial) s.revoked ≡ last_of serial rl.revoked_certificate_entries
    shown =
        ap (λ d. lookup (to_decimal serial) d) r.revoked
        ∙ lookup-index serial rl.revoked_certificate_entries

    unlisted :
        ((cs : CertStatus) × (get_status env serial (some issuer) s ≡ ok (some cs))
          × (cs.status ≡ good))
        → Serves env issuer s × All (λ rc. rc.serial_number ≢ serial) rl.revoked_certificate_entries
    unlisted (cs, answered, is_good) =
        let (v, found) = (get_status_iff env serial issuer s cs).0 answered in
        (
          v,
          (last_of-none serial rl.revoked_certificate_entries).0
              (sym shown ∙ (found_status-good _ _).0 (rw (← found) at is_good)),
        )

    cleared :
        Serves env issuer s × All (λ rc. rc.serial_number ≢ serial) rl.revoked_certificate_entries
        → (cs : CertStatus) × (get_status env serial (some issuer) s ≡ ok (some cs))
          × (cs.status ≡ good)
    cleared (v, absent) = (
      found_status s.next_update (lookup (to_decimal serial) s.revoked),
      (get_status_iff env serial issuer s _).1 (v, refl),
      (found_status-good _ _).1
          (shown ∙ (last_of-none serial rl.revoked_certificate_entries).1 absent),
    )

-- Health and answers agree: a source is healthy exactly if it answers every lookup of its own issuer's
-- certificates made at that time.
pub healthy_iff :
    (now : Time) (serial : ℤ) (s : FileSource)
    → (healthy now s ≡ true) ↔ (
        (cs : CertStatus) × (get_status
            (record { ctx_err = none; now = now })
            serial
            (some s.issuer_cert)
            s
          ≡ ok (some cs)))
healthy_iff now serial s = (answers, healthy_again)
  where
    answers :
        healthy now s ≡ true
        → (cs : CertStatus) × (get_status
              (record { ctx_err = none; now = now })
              serial
              (some s.issuer_cert)
              s
            ≡ ok (some cs))
    answers h = (
      found_status s.next_update (lookup (to_decimal serial) s.revoked),
      (get_status_guards _ serial s.issuer_cert s _).1 (
        refl,
        unfold healthy in ground arith,
        unfold healthy in ground arith,
        bytes_equal_self _,
        refl,
      ),
    )

    healthy_again :
        ((cs : CertStatus) × (get_status
              (record { ctx_err = none; now = now })
              serial
              (some s.issuer_cert)
              s
            ≡ ok (some cs)))
        → healthy now s ≡ true
    healthy_again (cs, h) =
        let (_, loaded, window, _, _) = (get_status_guards _ serial s.issuer_cert s cs).0 h in
        unfold healthy in ground arith

-- Every answer of the source comes with the list's next update.
pub get_status-next_update :
    (env : FileEnv) (serial : ℤ) (issuer : Certificate) (s : FileSource) (cs : CertStatus)
    → get_status env serial (some issuer) s ≡ ok (some cs)
    → cs.source_next_update ≡ s.next_update
unfolding found_status
get_status-next_update env serial issuer s cs h =
    let (_, found) = (get_status_iff env serial issuer s cs).0 h in ground arith
