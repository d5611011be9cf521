-- ===== src/Source/File/Issuer.antt =====
-- The issuer of a source is the one that it was made for, whatever the reload loop does.
use ocsp.Base.{
  Bool, true, false, some, ◌≡◌, refl, arith, ◌∙◌, inl, inr, Bool-cases, if◌then◌else◌, ◌&&◌,
}
use ocsp.Go.Time.{Time, Duration}
use ocsp.Go.Errors.{Error, Result, ok, err, Result-cases}
use ocsp.Go.X509.{Bytes, Certificate, bytes_equal}
use ocsp.Source.File.{FileSource}
use ocsp.Source.File.Load.{
  Crypto, verified_crl, parse_crl_bytes, load_from_disk, load_from_url, reload_from_disk_if_changed,
  downloaded, swap_in, parse_downloaded,
}
use ocsp.Source.File.Reload.{
  Tick, tick, check_expiry, mark_unhealthy, settled, started, new_file_source, load_crl, initial,
}
use ocsp.Source.File.Backed.{parse_crl_bytes-ok, parse_crl_bytes-err}

issuer_cert-check_expiry :
    (now : Time) (s : FileSource) → (check_expiry now s).issuer_cert ≡ s.issuer_cert
unfolding check_expiry
issuer_cert-check_expiry now s = ground arith

issuer_cert-mark_unhealthy :
    (e : Error) (s : FileSource) → (mark_unhealthy e s).issuer_cert ≡ s.issuer_cert
unfolding mark_unhealthy
issuer_cert-mark_unhealthy e s = ground arith

issuer_cert-settled :
    (now : Time) (p : Result (Unit {0}) × FileSource)
    → (settled now p).issuer_cert ≡ p.1.issuer_cert
issuer_cert-settled now (ok _, s) = issuer_cert-check_expiry now s
issuer_cert-settled now (err e, s) = issuer_cert-mark_unhealthy e s

either_source :
    {A : Type 0} (b : Bool) (p q : A × FileSource) {c : Certificate}
    → p.1.issuer_cert ≡ c
    → q.1.issuer_cert ≡ c
    → (if b then p else q).1.issuer_cert ≡ c
either_source true p q h k = h
either_source false p q h k = k

either_done :
    (b : Bool) (s s' : FileSource) {c : Certificate}
    → s.issuer_cert ≡ c
    → s'.issuer_cert ≡ c
    → (if b then s else s').issuer_cert ≡ c
either_done true s s' h k = h
either_done false s s' h k = k

module _ (x : Crypto) where
  issuer_cert-parse_crl_bytes :
      (b : Bytes) (s : FileSource) → (parse_crl_bytes x b s).1.issuer_cert ≡ s.issuer_cert
  unfolding swap_in
  issuer_cert-parse_crl_bytes b s = elim (Result-cases (verified_crl x b s.issuer_cert)) [
    | inl (e, v) ↦ rw (parse_crl_bytes-err x b e s v) refl
    | inr (rl, v) ↦ rw (parse_crl_bytes-ok x b rl s v) refl
  ]

  issuer_cert-load_from_disk :
      (disk : Result Bytes) (s : FileSource)
      → (load_from_disk x disk s).1.issuer_cert ≡ s.issuer_cert
  unfolding load_from_disk swap_in
  issuer_cert-load_from_disk (err e) s = refl
  issuer_cert-load_from_disk (ok b) s = elim (Result-cases (verified_crl x b s.issuer_cert)) [
    | inl (e, v) ↦ rw (parse_crl_bytes-err x b e s v) refl
    | inr (rl, v) ↦ rw (parse_crl_bytes-ok x b rl s v) refl
  ]

  issuer_cert-reload :
      (disk : Result Bytes) (s : FileSource)
      → (reload_from_disk_if_changed x disk s).1.issuer_cert ≡ s.issuer_cert
  unfolding reload_from_disk_if_changed
  issuer_cert-reload (err e) s = refl
  issuer_cert-reload (ok b) s =
      elim (Bool-cases (bytes_equal (x.sum256 b) s.last_hash && s.loaded)) [
        | inl unchanged ↦ rw unchanged refl
        | inr changed ↦ rw changed (issuer_cert-load_from_disk (ok b) s)
      ]

  issuer_cert-parse_downloaded :
      (d : Result Bytes) (s : FileSource) → (parse_downloaded x d s).1.issuer_cert ≡ s.issuer_cert
  unfolding parse_downloaded
  issuer_cert-parse_downloaded (err e) s = refl
  issuer_cert-parse_downloaded (ok b) s = issuer_cert-parse_crl_bytes b s

  -- A tick leaves the issuer as it is.
  pub issuer_cert-tick : (t : Tick) (s : FileSource) → (tick x t s).issuer_cert ≡ s.issuer_cert
  unfolding tick load_from_url
  issuer_cert-tick t s =
      let from_url = load_from_url x t.download s in
      let from_disk = reload_from_disk_if_changed x t.disk s in
      let loaded = if s.is_url then from_url else from_disk in
      either_done s.done_closed s (settled t.now loaded) refl (
        issuer_cert-settled t.now loaded
        ∙ either_source s.is_url from_url from_disk
            (issuer_cert-parse_downloaded (downloaded t.download) s) (issuer_cert-reload t.disk s))

  issuer_cert-started :
      (now : Time) (p : Result (Unit {0}) × FileSource) (s : FileSource)
      → started now p ≡ ok s
      → s.issuer_cert ≡ p.1.issuer_cert
  issuer_cert-started now (ok _, s') s e =
      let same : check_expiry now s' ≡ s = cc in rw (← same) (issuer_cert-check_expiry now s')
  issuer_cert-started now (err reason, s') s e = absurd (cc)

  -- A source that was made for an issuer has that issuer.
  pub issuer_cert-new_file_source :
      (is_url : Bool) (issuer : Certificate) (grace : Duration) (t : Tick) (s : FileSource)
      → new_file_source x is_url (some issuer) grace t ≡ ok s
      → s.issuer_cert ≡ issuer
  unfolding new_file_source load_crl load_from_url
  issuer_cert-new_file_source is_url issuer grace t s e =
      let before = initial is_url issuer grace in
      let from_url = load_from_url x t.download before in
      let from_disk = load_from_disk x t.disk before in
      issuer_cert-started t.now (if is_url then from_url else from_disk) s e
      ∙ either_source is_url from_url from_disk
          (issuer_cert-parse_downloaded (downloaded t.download) before)
          (issuer_cert-load_from_disk t.disk before)
