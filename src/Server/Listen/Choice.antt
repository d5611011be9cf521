-- ===== src/Server/Listen/Choice.antt =====
-- When the server can listen, with what, and what it takes of the ACME directory.
use ocsp.Base.{
  ℕ, String, Bool, true, false, not, ◌&&◌, Option, none, some, [], ◌∷◌, ◌==◌, if◌then◌else◌, ◌≡◌,
  ◌≢◌, ◌⊎◌, ◌↔◌, inl, inr, refl, sym, ap, ◌∙◌, arith, eq_iff, some-injective,
}
use ocsp.Go.Errors.{Error, text, Result, ok, err, is_not_exist, ok-injective}
use ocsp.Config.{TlsConfig}
use ocsp.Server.Listen.{
  Disk, mkdir_all, remove, create_temp, close, acme_ca_url, removed, unusable, closed, probed, made,
  ensure_acme_cache_dir, Listener, plain, with_files, with_acme, has_files, acme_cache_dir, acme,
  listener, tls_min_version,
}

-- A file can be made in the directory and closed, and then either removed or found to be gone.
pub record IsUsable (disk : Disk) (dir : String) : Type 0 where
  pub made : disk.mkdir_all dir ≡ none
  pub probe : String
  pub created : disk.create_temp dir ≡ ok probe
  pub closed : disk.close probe ≡ none
  pub removed :
      (disk.remove probe ≡ none)
      ⊎ ((e : Error) × (disk.remove probe ≡ some e) × (is_not_exist e ≡ true))

removed-ok :
    (dir : String) (answer : Option Error)
    → (removed dir answer ≡ ok tt)
      ↔ ((answer ≡ none) ⊎ ((e : Error) × (answer ≡ some e) × (is_not_exist e ≡ true)))
removed-ok dir none = (λ h. inl refl, λ h. refl)
removed-ok dir (some e) = (forward, backward)
  where
    forward :
        (if is_not_exist e then ok tt else unusable dir e) ≡ ok tt
        → (some e ≡ none) ⊎ ((x : Error) × (some e ≡ some x) × (is_not_exist x ≡ true))
    forward h = inr (e, refl, ground arith)

    backward :
        (some e ≡ none) ⊎ ((x : Error) × (some e ≡ some x) × (is_not_exist x ≡ true))
        → (if is_not_exist e then ok tt else unusable dir e) ≡ ok tt
    backward (inl h) = absurd (cc)
    backward (inr (x, same, gone)) =
        let is_gone : is_not_exist e ≡ true = ap is_not_exist (some-injective same) ∙ gone in
        rw is_gone refl

-- The directory of the ACME certificates passes exactly if a file can be made in it and closed, and then
-- removed, unless another has removed it.
pub ensure_acme_cache_dir_iff :
    (disk : Disk) (dir : String) → ((ensure_acme_cache_dir disk dir).0 ≡ ok tt) ↔ IsUsable disk dir
unfolding ensure_acme_cache_dir
ensure_acme_cache_dir_iff disk dir = (forward, backward)
  where
    after_close :
        (probe : String) (answer : Option Error)
        → (closed disk dir probe answer).0 ≡ ok tt
        → (answer ≡ none) × (removed dir (disk.remove probe) ≡ ok tt)
    after_close probe none h = (refl, h)
    after_close probe (some e) h = absurd (cc)

    after_probe :
        (answer : Result String)
        → (probed disk dir answer).0 ≡ ok tt
        → (probe : String) × (answer ≡ ok probe)
          × (disk.close probe ≡ none)
          × (removed dir (disk.remove probe) ≡ ok tt)
    after_probe (err e) h = absurd (cc)
    after_probe (ok probe) h =
        let (is_closed, rest) = after_close probe (disk.close probe) h in
        (probe, refl, is_closed, rest)

    after_mkdir :
        (answer : Option Error)
        → (made disk dir answer).0 ≡ ok tt
        → (answer ≡ none) × ((probed disk dir (disk.create_temp dir)).0 ≡ ok tt)
    after_mkdir none h = (refl, h)
    after_mkdir (some e) h = absurd (cc)

    forward : (made disk dir (disk.mkdir_all dir)).0 ≡ ok tt → IsUsable disk dir
    forward h =
        let (is_made, h1) = after_mkdir (disk.mkdir_all dir) h in
        let (probe, is_created, is_closed, h2) = after_probe (disk.create_temp dir) h1 in
        record {
          made = is_made;
          probe = probe;
          created = is_created;
          closed = is_closed;
          removed = (removed-ok dir (disk.remove probe)).0 h2;
        }

    backward : IsUsable disk dir → (made disk dir (disk.mkdir_all dir)).0 ≡ ok tt
    backward u =
        rw (u.made, u.created, u.closed) ((removed-ok dir (disk.remove u.probe)).1 u.removed)

closed-calls :
    (disk : Disk) (dir probe : String) (answer : Option Error)
    → (closed disk dir probe answer).1 ≡ remove probe ∷ []
closed-calls disk dir probe none = refl
closed-calls disk dir probe (some e) = refl

-- A file that was made in the directory is closed and its removal tried, whatever the calls answer.
pub ensure_acme_cache_dir-remove :
    (disk : Disk) (dir probe : String)
    → disk.mkdir_all dir ≡ none
    → disk.create_temp dir ≡ ok probe
    → (ensure_acme_cache_dir disk dir).1
      ≡ mkdir_all dir ∷ create_temp dir ∷ close probe ∷ remove probe ∷ []
unfolding ensure_acme_cache_dir
ensure_acme_cache_dir-remove disk dir probe is_made is_created =
    rw (is_made, is_created, closed-calls disk dir probe (disk.close probe)) refl

-- What a configuration has the server listen with.
pub data Listens (disk : Disk) (c : TlsConfig) : Listener → Type 0 where
  without_tls : c.enabled ≡ false → Listens disk c plain
  from_files :
      c.enabled ≡ true
      → c.cert_file ≢ ""
      → c.key_file ≢ ""
      → Listens disk c (with_files c.cert_file c.key_file (tls_min_version c.min_version))
  from_acme :
      c.enabled ≡ true
      → (c.cert_file ≡ "") ⊎ (c.key_file ≡ "")
      → c.acme_host ≢ ""
      → IsUsable disk (acme_cache_dir c)
      → Listens disk c (with_acme c.acme_host (acme_cache_dir c) (acme_ca_url c))

choose-ok :
    {A : Type 0} (t f h : Bool) (x y z : Result A) (e : Error) {w : A}
    → (if t then (if f then x else if h then y else err e) else z) ≡ ok w
    → ((t ≡ false) × (z ≡ ok w))
      ⊎ (((t ≡ true) × (f ≡ true) × (x ≡ ok w))
          ⊎ ((t ≡ true) × (f ≡ false) × (h ≡ true) × (y ≡ ok w)))
choose-ok false f h x y z e r = inl (refl, r)
choose-ok true true h x y z e r = inr (inl (refl, refl, r))
choose-ok true false true x y z e r = inr (inr (refl, refl, refl, r))
choose-ok true false false x y z e r = absurd (cc)

is_set : (s : String) → (not (s == "") ≡ true) ↔ (s ≢ "")
is_set s = ground (arith, eq_iff s "")

both_set : (a b : String) → (not (a == "") && not (b == "") ≡ true) ↔ ((a ≢ "") × (b ≢ ""))
both_set a b = ground (arith, eq_iff a "", eq_iff b "")

one_unset : (a b : String) → (not (a == "") && not (b == "") ≡ false) ↔ ((a ≡ "") ⊎ (b ≡ ""))
one_unset a b = ground (arith, eq_iff a "", eq_iff b "")

acme-ok :
    (disk : Disk) (c : TlsConfig) (m : Result (Unit {0})) (l : Listener)
    → acme c m ≡ ok l
    → (m ≡ ok tt) × (l ≡ with_acme c.acme_host (acme_cache_dir c) (acme_ca_url c))
acme-ok disk c (ok tt) l h = (refl, sym (ok-injective h))
acme-ok disk c (err e) l h = absurd (cc)

listener-chooses :
    (disk : Disk) (c : TlsConfig) {l : Listener}
    → listener disk c ≡ ok l
    → (if c.enabled
        then (if has_files c
            then ok (with_files c.cert_file c.key_file (tls_min_version c.min_version))
            else if not (c.acme_host == "")
            then acme c (ensure_acme_cache_dir disk (acme_cache_dir c)).0
            else err
                (text "ocsp-responder/server: TLS enabled but no cert or ACME config provided"))
        else ok plain)
      ≡ ok l
unfolding listener
listener-chooses disk c h = h

Listens-listener :
    (disk : Disk) (c : TlsConfig) (l : Listener) → Listens disk c l → listener disk c ≡ ok l
unfolding listener
Listens-listener disk c _ (without_tls off) = rw off refl
Listens-listener disk c _ (from_files on cert key) =
    let files = (both_set c.cert_file c.key_file).1 (cert, key) in rw (on, files) refl
Listens-listener disk c _ (from_acme on missing host usable) =
    let no_files = (one_unset c.cert_file c.key_file).1 missing in
    let is_host = (is_set c.acme_host).1 host in
    let passes = (ensure_acme_cache_dir_iff disk (acme_cache_dir c)).1 usable in
    rw (on, no_files, is_host, passes) refl

-- The server listens exactly as its configuration says: without TLS, with the certificate's files, or, if
-- one of them is missing, for the ACME host, provided that the directory can be used; otherwise not at all.
pub listener_iff :
    (disk : Disk) (c : TlsConfig) (l : Listener) → (listener disk c ≡ ok l) ↔ Listens disk c l
listener_iff disk c l = (forward, Listens-listener disk c l)
  where
    forward : listener disk c ≡ ok l → Listens disk c l
    forward h =
        elim (choose-ok c.enabled (has_files c) (not (c.acme_host == "")) _ _ _ _
          (listener-chooses disk c h)) [
            | inl (off, same) ↦ rw (← ok-injective same) (without_tls off)
            | inr (inl (on, files, same)) ↦
                let (cert, key) = (both_set c.cert_file c.key_file).0 files in
                rw (← ok-injective same) (from_files on cert key)
            | inr (inr (on, no_files, host, same)) ↦
                let (usable, is_acme) = acme-ok disk c _ l same in
                rw is_acme (
                  from_acme on ((one_unset c.cert_file c.key_file).0 no_files)
                    ((is_set c.acme_host).0 host)
                    ((ensure_acme_cache_dir_iff disk (acme_cache_dir c)).0 usable))
          ]

acme-min_version :
    (c : TlsConfig) (v : String) (m : Result (Unit {0}))
    → acme (record c { min_version = v }) m ≡ acme c m
acme-min_version c v (ok _) = refl
acme-min_version c v (err e) = refl

-- The number of the TLS version that `min_version` asks for: 1.3 (0x0304) if it is named, else 1.2 (0x0303).
pub IsMinVersion : String → ℕ → Type 0
IsMinVersion v n = ((v ≡ "1.3") × (n ≡ 772)) ⊎ ((v ≢ "1.3") × (n ≡ 771))

tls_min_version-IsMinVersion : (v : String) → IsMinVersion v (tls_min_version v)
unfolding IsMinVersion
tls_min_version-IsMinVersion v = ground (arith, eq_iff v "1.3")

listener-with_files :
    (disk : Disk) (c : TlsConfig) (v : String)
    → c.enabled ≡ true
    → c.cert_file ≢ ""
    → c.key_file ≢ ""
    → listener disk (record c { min_version = v })
      ≡ ok (with_files c.cert_file c.key_file (tls_min_version v))
unfolding listener
listener-with_files disk c v on cert key =
    let files = (both_set c.cert_file c.key_file).1 (cert, key) in rw (on, files) refl

-- A certificate that is not to be read from files: TLS is off, or the name of a file is missing.
NoFiles : TlsConfig → Type 0
NoFiles c = (c.enabled ≡ false) ⊎ ((c.cert_file ≡ "") ⊎ (c.key_file ≡ ""))

listener-NoFiles :
    (disk : Disk) (c : TlsConfig) (v : String)
    → NoFiles c
    → listener disk (record c { min_version = v }) ≡ listener disk c
unfolding listener NoFiles
listener-NoFiles disk c v (inl off) = rw off refl
listener-NoFiles disk c v (inr missing) =
    let no_files = (one_unset c.cert_file c.key_file).1 missing in
    rw (no_files, acme-min_version c v _) refl

files_or_none :
    (c : TlsConfig) → ((c.enabled ≡ true) × (c.cert_file ≢ "") × (c.key_file ≢ "")) ⊎ NoFiles c
unfolding NoFiles
files_or_none c = ground (arith, eq_iff c.cert_file "", eq_iff c.key_file "")

-- What `min_version` does, set to any text `v`. Either TLS is enabled, both of the certificate's files are
-- named, and the server listens with those files, from TLS 1.3 on if `v` is "1.3" and from TLS 1.2 on
-- otherwise; or TLS is off or the name of a file is missing, and `v` makes no difference.
pub listener-min_version :
    (disk : Disk) (c : TlsConfig) (v : String)
    → ((c.enabled ≡ true)
        × (c.cert_file ≢ "")
        × (c.key_file ≢ "")
        × (n : ℕ) × IsMinVersion v n
        × (listener disk (record c { min_version = v }) ≡ ok (with_files c.cert_file c.key_file n)))
      ⊎ (((c.enabled ≡ false) ⊎ ((c.cert_file ≡ "") ⊎ (c.key_file ≡ "")))
          × (listener disk (record c { min_version = v }) ≡ listener disk c))
unfolding NoFiles
listener-min_version disk c v = elim (files_or_none c) [
  | inl (on, cert, key) ↦ inl (
    on,
    cert,
    key,
    tls_min_version v,
    tls_min_version-IsMinVersion v,
    listener-with_files disk c v on cert key,
  )
  | inr missing ↦ inr (missing, listener-NoFiles disk c v missing)
]
