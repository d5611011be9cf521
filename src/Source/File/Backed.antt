-- ===== src/Source/File/Backed.antt =====
-- What the reload loop keeps: a source in service holds a list that its issuer signed, and after each
-- tick that of the file.
use ocsp.Base.{
  Bool, true, false, Option, none, some, List, [], ◌∷◌, ◌≡◌, ◌≢◌, refl, arith, All, ◌∙◌, sym, inl,
  inr, Bool-cases, if◌then◌else◌, ◌&&◌,
}
use ocsp.Base.Int.{ℤ}
use ocsp.Go.Time.{Time, Duration}
use ocsp.Go.Errors.{Error, Result, ok, err, Result-cases}
use ocsp.Go.X509.{Bytes, Certificate, bytes_equal}
use ocsp.Source.{CertStatus, good}
use ocsp.Source.File.{FileSource, FileEnv, get_status}
use ocsp.Source.File.Verified.{IsVerified, verified_crl_iff}
use ocsp.Source.File.Load.{
  Crypto, RevocationList, verified_crl, parse_crl_bytes, load_from_disk,
  reload_from_disk_if_changed, downloaded, swap_in, parse_downloaded,
}
use ocsp.Source.File.Reload.{
  Tick, tick, ticks, check_expiry, mark_unhealthy, settled, started, new_file_source, load_crl,
}
use ocsp.Source.File.Status.{Reflects, Serves, get_status_iff, get_status-good_iff}

module _ (x : Crypto) where
  -- The source holds the list that these bytes verify to, and for a file it has their digest.
  pub record Holds (s : FileSource) : Type 0 where
    pub raw : Bytes
    pub list : RevocationList
    pub verified : IsVerified x raw s.issuer_cert list
    pub reflects : Reflects s list
    pub hashed : s.is_url ≡ false → s.last_hash ≡ x.sum256 raw

  -- A source in service holds a list that was verified against its issuer.
  abbrev pub IsBacked : FileSource → Type 0
  IsBacked s = s.loaded ≡ true → Holds s

  -- `s'` has the list of `s`, and what is fixed at construction.
  record SameList (s s' : FileSource) : Type 0 where
    issuer_cert : s'.issuer_cert ≡ s.issuer_cert
    is_url : s'.is_url ≡ s.is_url
    revoked : s'.revoked ≡ s.revoked
    this_update : s'.this_update ≡ s.this_update
    next_update : s'.next_update ≡ s.next_update
    last_hash : s'.last_hash ≡ s.last_hash

  Holds-SameList : {s s' : FileSource} → SameList s s' → Holds s → Holds s'
  Holds-SameList k h = record {
    raw = h.raw;
    list = h.list;
    verified = rw k.issuer_cert h.verified;
    reflects = record {
      revoked = k.revoked ∙ h.reflects.revoked;
      this_update = k.this_update ∙ h.reflects.this_update;
      next_update = k.next_update ∙ h.reflects.next_update;
    };
    hashed = λ on_disk. k.last_hash ∙ h.hashed (sym k.is_url ∙ on_disk);
  }

  check_expiry-SameList : (now : Time) (s : FileSource) → SameList s (check_expiry now s)
  unfolding check_expiry
  check_expiry-SameList now s = ground arith

  pub loaded-check_expiry : (now : Time) (s : FileSource) → (check_expiry now s).loaded ≡ s.loaded
  unfolding check_expiry
  loaded-check_expiry now s = ground arith

  pub loaded-mark_unhealthy : (e : Error) (s : FileSource) → (mark_unhealthy e s).loaded ≡ false
  unfolding mark_unhealthy
  loaded-mark_unhealthy e s = ground arith

  -- What a load leaves if it succeeds.
  abbrev LoadIsBacked : Result (Unit {0}) × FileSource → Type 0
  LoadIsBacked (ok _, s) = IsBacked s
  LoadIsBacked (err e, s) = Unit

  settled-IsBacked :
      (now : Time) (p : Result (Unit {0}) × FileSource) → LoadIsBacked p → IsBacked (settled now p)
  settled-IsBacked now (ok _, s) h l =
      Holds-SameList (check_expiry-SameList now s) (h (sym (loaded-check_expiry now s) ∙ l))
  settled-IsBacked now (err e, s) h l = absurd (cc (loaded-mark_unhealthy e s))

  pub parse_crl_bytes-ok :
      (b : Bytes) (rl : RevocationList) (s : FileSource)
      → verified_crl x b s.issuer_cert ≡ ok rl
      → parse_crl_bytes x b s ≡ (ok tt, swap_in rl s)
  unfolding parse_crl_bytes
  parse_crl_bytes-ok b rl s v = rw v refl

  pub parse_crl_bytes-err :
      (b : Bytes) (e : Error) (s : FileSource)
      → verified_crl x b s.issuer_cert ≡ err e
      → parse_crl_bytes x b s ≡ (err e, s)
  unfolding parse_crl_bytes
  parse_crl_bytes-err b e s v = rw v refl

  -- Bytes that verify, loaded from the file, are held with their digest.
  swapped_hashed :
      (b : Bytes) (rl : RevocationList) (s : FileSource)
      → verified_crl x b s.issuer_cert ≡ ok rl
      → Holds (record (swap_in rl s) { last_hash = x.sum256 b })
  unfolding swap_in
  swapped_hashed b rl s v = record {
    raw = b;
    list = rl;
    verified = (verified_crl_iff x b s.issuer_cert rl).0 v;
    reflects = record { revoked = refl; this_update = refl; next_update = refl };
    hashed = λ _. refl;
  }

  -- Bytes that verify, loaded from a URL.
  swapped :
      (b : Bytes) (rl : RevocationList) (s : FileSource)
      → s.is_url ≡ true
      → verified_crl x b s.issuer_cert ≡ ok rl
      → Holds (swap_in rl s)
  unfolding swap_in
  swapped b rl s url v = record {
    raw = b;
    list = rl;
    verified = (verified_crl_iff x b s.issuer_cert rl).0 v;
    reflects = record { revoked = refl; this_update = refl; next_update = refl };
    hashed = λ on_disk. absurd (cc);
  }

  load_from_disk-IsBacked :
      (disk : Result Bytes) (s : FileSource) → LoadIsBacked (load_from_disk x disk s)
  unfolding load_from_disk
  load_from_disk-IsBacked (err e) s = tt
  load_from_disk-IsBacked (ok b) s = elim (Result-cases (verified_crl x b s.issuer_cert)) [
    | inl (e, v) ↦ rw (parse_crl_bytes-err b e s v) tt
    | inr (rl, v) ↦ rw (parse_crl_bytes-ok b rl s v) (λ _. swapped_hashed b rl s v)
  ]

  reload-IsBacked :
      (disk : Result Bytes) (s : FileSource)
      → IsBacked s
      → LoadIsBacked (reload_from_disk_if_changed x disk s)
  unfolding reload_from_disk_if_changed
  reload-IsBacked (err e) s h = tt
  reload-IsBacked (ok b) s h =
      elim (Bool-cases (bytes_equal (x.sum256 b) s.last_hash && s.loaded)) [
        | inl unchanged ↦ rw unchanged h
        | inr changed ↦ rw changed (load_from_disk-IsBacked (ok b) s)
      ]

  parse_downloaded-IsBacked :
      (d : Result Bytes) (s : FileSource) → s.is_url ≡ true → LoadIsBacked (parse_downloaded x d s)
  unfolding parse_downloaded
  parse_downloaded-IsBacked (err e) s url = tt
  parse_downloaded-IsBacked (ok b) s url = elim (Result-cases (verified_crl x b s.issuer_cert)) [
    | inl (e, v) ↦ rw (parse_crl_bytes-err b e s v) tt
    | inr (rl, v) ↦ rw (parse_crl_bytes-ok b rl s v) (λ _. swapped b rl s url v)
  ]

  either_load :
      (url : Bool) (p q : Result (Unit {0}) × FileSource)
      → (url ≡ true → LoadIsBacked p)
      → LoadIsBacked q
      → LoadIsBacked (if url then p else q)
  either_load true p q hp hq = hp refl
  either_load false p q hp hq = hq

  stopped_or :
      (stopped : Bool) (s s' : FileSource)
      → IsBacked s
      → IsBacked s'
      → IsBacked (if stopped then s else s')
  stopped_or true s s' h h' = h
  stopped_or false s s' h h' = h'

  -- A tick keeps a source backed, whatever it finds on disk or at the URL.
  pub tick-IsBacked : (t : Tick) (s : FileSource) → IsBacked s → IsBacked (tick x t s)
  unfolding tick
  tick-IsBacked t s h = stopped_or s.done_closed s _ h (
      settled-IsBacked t.now _ (
        either_load s.is_url _ _ (parse_downloaded-IsBacked (downloaded t.download) s)
          (reload-IsBacked t.disk s h)))

  ticks-IsBacked : (ts : List Tick) (s : FileSource) → IsBacked s → IsBacked (ticks x ts s)
  unfolding ticks
  ticks-IsBacked [] s h = h
  ticks-IsBacked (t ∷ ts) s h = ticks-IsBacked ts _ (tick-IsBacked t s h)

  started-IsBacked :
      (now : Time) (p : Result (Unit {0}) × FileSource) (s : FileSource)
      → LoadIsBacked p
      → started now p ≡ ok s
      → IsBacked s
  started-IsBacked now (ok _, s') s h e =
      let same : check_expiry now s' ≡ s = cc in rw (← same) (settled-IsBacked now (ok tt, s') h)
  started-IsBacked now (err reason, s') s h e = absurd (cc)

  pub new_file_source-IsBacked :
      (is_url : Bool) (issuer : Option Certificate) (grace : Duration) (t : Tick) (s : FileSource)
      → new_file_source x is_url issuer grace t ≡ ok s
      → IsBacked s
  unfolding new_file_source
  new_file_source-IsBacked is_url none grace t s e = absurd (cc)
  new_file_source-IsBacked is_url (some issuer) grace t s e =
      started-IsBacked t.now _ s
        (unfold load_crl in
          either_load is_url _ _ (parse_downloaded-IsBacked (downloaded t.download) _)
            (load_from_disk-IsBacked t.disk _))
        e

  -- A source that was started, after any ticks whatever, answers `good` for a serial number only from
  -- a list that verified against its issuer, that has no entry of that number, and that is in its
  -- window at the time of the lookup.
  pub ticks-good :
      (is_url : Bool) (issuer : Option Certificate) (grace : Duration) (start : Tick)
      (s : FileSource) (ts : List Tick) (env : FileEnv) (serial : ℤ) (asked : Certificate)
      (cs : CertStatus)
      → new_file_source x is_url issuer grace start ≡ ok s
      → get_status env serial (some asked) (ticks x ts s) ≡ ok (some cs)
      → cs.status ≡ good
      → (h : Holds (ticks x ts s)) × Serves env asked (ticks x ts s)
        × All (λ rc. rc.serial_number ≢ serial) h.list.revoked_certificate_entries
  ticks-good is_url issuer grace start s ts env serial asked cs made answered is_good =
      let backed =
        ticks-IsBacked ts s (new_file_source-IsBacked is_url issuer grace start s made) in
      let (v, _) = (get_status_iff env serial asked (ticks x ts s) cs).0 answered in
      let h = backed v.loaded in
      (
        h,
        v,
        ((get_status-good_iff env serial asked (ticks x ts s) h.list h.reflects).0
            (cs, answered, is_good)).1,
      )
