-- ===== src/Source/File/Refresh.antt =====
-- A tick brings a file's list in, also one that was loaded before and could not be read in between,
-- and takes the source out of service if the file cannot be read or does not verify.
use ocsp.Base.{both_true, true, false, ◌≡◌, ◌≢◌, refl, arith, ◌∙◌, sym, inl, inr, Bool-cases, ◌&&◌}
use ocsp.Go.Time.{Time}
use ocsp.Go.Errors.{Error, Result, ok, err, Result-cases}
use ocsp.Go.X509.{Bytes, bytes_equal, bytes_equal→eq}
use ocsp.Source.File.{FileSource}
use ocsp.Source.File.Verified.{IsVerified, verified_crl_iff}
use ocsp.Source.File.Load.{
  Crypto, RevocationList, verified_crl, reload_from_disk_if_changed, swap_in,
}
use ocsp.Source.File.Reload.{Tick, tick, check_expiry, settled}
use ocsp.Source.File.Status.{Reflects}
use ocsp.Source.File.Backed.{
  IsBacked, parse_crl_bytes-ok, parse_crl_bytes-err, loaded-mark_unhealthy,
}

-- The source is loaded with this list.
abbrev pub InService : RevocationList → FileSource → Type 0
InService rl s = (s.loaded ≡ true) × Reflects s rl

check_expiry-InService :
    (now : Time) (rl : RevocationList) (s : FileSource)
    → InService rl s
    → InService rl (check_expiry now s)
unfolding check_expiry
check_expiry-InService now rl s h = ground arith

ok-injective {ℓ} : {A : Type ℓ} {a b : A} → ok a ≡ ok b → a ≡ b
ok-injective h = cc

module _ (x : Crypto) where
  -- No other bytes have the digest of these.
  abbrev pub NoCollision : Bytes → Type 0
  NoCollision b = (held : Bytes) → x.sum256 held ≡ x.sum256 b → held ≡ b

  tick-file :
      (t : Tick) (s : FileSource)
      → s.done_closed ≡ false
      → s.is_url ≡ false
      → tick x t s ≡ settled t.now (reload_from_disk_if_changed x t.disk s)
  unfolding tick
  tick-file t s running file = simp (running, file)

  -- The list that a source holds is the file's, if the file's digest is the one that it keeps.
  unchanged-Reflects :
      (b : Bytes) (rl : RevocationList) (s : FileSource)
      → s.is_url ≡ false
      → IsBacked x s
      → NoCollision b
      → verified_crl x b s.issuer_cert ≡ ok rl
      → (bytes_equal (x.sum256 b) s.last_hash && s.loaded) ≡ true
      → InService rl s
  unchanged-Reflects b rl s file backed distinct v unchanged =
      let (same, loaded) = both_true _ _ unchanged in
      let h = backed loaded in
      let held : h.raw ≡ b = distinct h.raw (sym (h.hashed file) ∙ sym (bytes_equal→eq _ _ same)) in
      let verified = (verified_crl_iff x h.raw s.issuer_cert h.list).1 h.verified in
      let listed : h.list ≡ rl = ok-injective (sym verified ∙ rw held v) in
      (loaded, rw (← listed) h.reflects)

  reload-current :
      (b : Bytes) (rl : RevocationList) (s : FileSource)
      → s.is_url ≡ false
      → IsBacked x s
      → NoCollision b
      → verified_crl x b s.issuer_cert ≡ ok rl
      → (s' : FileSource) × (reload_from_disk_if_changed x (ok b) s ≡ (ok tt, s')) × InService rl s'
  unfolding reload_from_disk_if_changed
  reload-current b rl s file backed distinct v =
      elim (Bool-cases (bytes_equal (x.sum256 b) s.last_hash && s.loaded)) [
        | inl unchanged ↦
            (s, rw unchanged refl, unchanged-Reflects b rl s file backed distinct v unchanged)
        | inr changed ↦ (
          record (swap_in rl s) { last_hash = x.sum256 b },
          rw (changed, parse_crl_bytes-ok x b rl s v) refl,
          unfold swap_in in
              (refl, record { revoked = refl; this_update = refl; next_update = refl }),
        )
      ]

  -- A running source of a file, whose list is verified if one is in service, reads at a tick a file
  -- that verifies: it is in service with that file's list, whatever state it was in, if no other bytes
  -- have the digest of the file's.
  pub tick-refreshes :
      (t : Tick) (b : Bytes) (rl : RevocationList) (s : FileSource)
      → s.done_closed ≡ false
      → s.is_url ≡ false
      → IsBacked x s
      → NoCollision b
      → t.disk ≡ ok b
      → IsVerified x b s.issuer_cert rl
      → InService rl (tick x t s)
  tick-refreshes t b rl s running file backed distinct read v =
      let (s', loaded, served) =
        reload-current b rl s file backed distinct ((verified_crl_iff x b s.issuer_cert rl).1 v) in
      rw (tick-file t s running file, read, loaded) (check_expiry-InService t.now rl s' served)

  reload-fails :
      (disk : Result Bytes) (s : FileSource)
      → s.is_url ≡ false
      → IsBacked x s
      → ((b : Bytes) (rl : RevocationList) → disk ≡ ok b → verified_crl x b s.issuer_cert ≢ ok rl)
      → ((b : Bytes) → disk ≡ ok b → NoCollision b)
      → (e : Error) × (reload_from_disk_if_changed x disk s ≡ (err e, s))
  unfolding reload_from_disk_if_changed
  reload-fails (err e) s file backed bad distinct = (_, refl)
  reload-fails (ok b) s file backed bad distinct =
      elim (Result-cases (verified_crl x b s.issuer_cert)) [
        | inr (rl, v) ↦ absurd (bad b rl refl v)
        | inl (e, v) ↦ elim (Bool-cases (bytes_equal (x.sum256 b) s.last_hash && s.loaded)) [
          | inr changed ↦ (e, rw (changed, parse_crl_bytes-err x b e s v) refl)
          | inl unchanged ↦
              let (same, loaded) = both_true _ _ unchanged in
              let h = backed loaded in
              let held : h.raw ≡ b =
                distinct b refl h.raw (sym (h.hashed file) ∙ sym (bytes_equal→eq _ _ same)) in
              absurd (
                bad b h.list refl
                  (rw (← held) ((verified_crl_iff x h.raw s.issuer_cert h.list).1 h.verified)))
        ]
      ]

  -- A running source of a file, whose list is verified if one is in service, is out of service after a
  -- tick that cannot read the file or finds one that does not verify, if no other bytes have the digest
  -- of the file's.
  pub tick-fails :
      (t : Tick) (s : FileSource)
      → s.done_closed ≡ false
      → s.is_url ≡ false
      → IsBacked x s
      → ((b : Bytes) (rl : RevocationList) → t.disk ≡ ok b → IsVerified x b s.issuer_cert rl → ⊥)
      → ((b : Bytes) → t.disk ≡ ok b → NoCollision b)
      → (tick x t s).loaded ≡ false
  tick-fails t s running file backed bad distinct =
      let (e, failed) =
        reload-fails t.disk s file backed
          (λ b rl read v. bad b rl read ((verified_crl_iff x b s.issuer_cert rl).0 v)) distinct in
      rw (tick-file t s running file, failed) (loaded-mark_unhealthy x e s)
