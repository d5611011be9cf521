-- ===== src/Server/Lifecycle/Ends.antt =====
-- How the server ends.
use ocsp.Base.{
  Bool-cases, some-injective, not, ◌==◌, String, Bool, true, false, Option, none, some, ◌*◌, ◌≡◌,
  ◌⊎◌, ◌↔◌, inl, inr, refl, ap, if◌then◌else◌, arith,
}
use ocsp.Base.Int.{pos}
use ocsp.Go.Time.{Duration, second}
use ocsp.Go.Errors.{
  Error, wrap, server_closed, Result, ok, err, is_server_closed, is_not_exist, check, wrap_error,
  bind-ok, check-ok, wrap_error-ok,
}
use ocsp.Config
use ocsp.Config.Valid.{Parses}
use ocsp.Config.{TlsConfig}
use ocsp.Server.Listen.{
  Disk, Listener, listener, removed, closed, probed, made, acme, ensure_acme_cache_dir, has_files,
  acme_cache_dir,
}
use ocsp.Server.Listen.Choice.{Listens, listener_iff}
use ocsp.Server.Lifecycle.{
  HttpServer, Woken, ctx_done, err_ch, Net, http_server, sent, failed, selected, serve,
}

-- The server was stopped: by a signal, or, while it could listen, by being closed.
pub data Stopped (net : Net) (cfg : Config.Config) : Type 0 where
  by_signal : net.woken ≡ ctx_done → Stopped net cfg
  by_close :
      (l : Listener)
      → net.woken ≡ err_ch
      → Listens net.disk cfg.server.tls l
      → (net.listen_and_serve (http_server cfg) l ≡ none)
        ⊎ (net.listen_and_serve (http_server cfg) l ≡ some server_closed)
      → Stopped net cfg

is_server_closed-eq : (e : Error) → is_server_closed e ≡ true → e ≡ server_closed
is_server_closed-eq server_closed h = refl
is_server_closed-eq _ h = absurd (cc)

failed-ok : (e : Option Error) → check (failed e) ≡ ok tt → (e ≡ none) ⊎ (e ≡ some server_closed)
failed-ok none h = inl refl
failed-ok (some e) h = elim (Bool-cases (is_server_closed e)) [
  | inl closed ↦ inr (ap some (is_server_closed-eq e closed))
  | inr other ↦ absurd (not_closed other h)
]
  where
    not_closed :
        is_server_closed e ≡ false
        → check (if is_server_closed e then none else some (wrap "ocsp-responder/server" e)) ≡ ok tt
        → ⊥
    not_closed other h = absurd (grind arith)

-- The errors before the server listens are none that says it was closed.
abbrev says_closed : {A : Type 0} → Result A → Bool
says_closed (ok _) = false
says_closed (err e) = is_server_closed e

either-open :
    {A : Type 0} (b : Bool) (x y : Result A)
    → says_closed x ≡ false
    → says_closed y ≡ false
    → says_closed (if b then x else y) ≡ false
either-open true x y h k = h
either-open false x y h k = k

removed-open : (dir : String) (answer : Option Error) → says_closed (removed dir answer) ≡ false
removed-open dir none = refl
removed-open dir (some e) = either-open (is_not_exist e) _ _ refl refl

closed-open :
    (disk : Disk) (dir probe : String) (answer : Option Error)
    → says_closed (closed disk dir probe answer).0 ≡ false
closed-open disk dir probe none = removed-open dir (disk.remove probe)
closed-open disk dir probe (some e) = refl

probed-open :
    (disk : Disk) (dir : String) (answer : Result String)
    → says_closed (probed disk dir answer).0 ≡ false
probed-open disk dir (ok probe) = closed-open disk dir probe (disk.close probe)
probed-open disk dir (err e) = refl

made-open :
    (disk : Disk) (dir : String) (answer : Option Error)
    → says_closed (made disk dir answer).0 ≡ false
made-open disk dir none = probed-open disk dir (disk.create_temp dir)
made-open disk dir (some e) = refl

acme-open :
    (c : TlsConfig) (m : Result (Unit {0})) → says_closed m ≡ false → says_closed (acme c m) ≡ false
acme-open c (ok _) h = refl
acme-open c (err e) h = h

listener-open : (disk : Disk) (c : TlsConfig) → says_closed (listener disk c) ≡ false
unfolding listener ensure_acme_cache_dir
listener-open disk c =
    either-open c.enabled _ _
      (either-open (has_files c) _ _ refl (
        either-open (not (c.acme_host == "")) _ _
          (acme-open c _ (made-open disk (acme_cache_dir c) (disk.mkdir_all (acme_cache_dir c))))
          refl))
      refl

not_server_closed : (e : Error) → e ≡ server_closed → is_server_closed e ≡ false → ⊥
not_server_closed e same h = absurd (grind arith)

sent-ok :
    (net : Net) (server : HttpServer) (m : Result Listener)
    → (sent net server m ≡ none) ⊎ (sent net server m ≡ some server_closed)
    → says_closed m ≡ false
    → (l : Listener) × (m ≡ ok l)
      × ((net.listen_and_serve server l ≡ none)
          ⊎ (net.listen_and_serve server l ≡ some server_closed))
sent-ok net server (ok l) h unclosed = (l, refl, h)
sent-ok net server (err e) (inl h) unclosed = absurd (cc)
sent-ok net server (err e) (inr h) unclosed =
    absurd (not_server_closed e (some-injective h) unclosed)

selected-ok :
    (net : Net) (cfg : Config.Config)
    → selected net.woken (sent net (http_server cfg) (listener net.disk cfg.server.tls)) ≡ ok tt
    → Stopped net cfg
selected-ok net cfg h = woken-ok net.woken refl h
  where
    woken-ok :
        (woken : Woken)
        → net.woken ≡ woken
        → selected woken (sent net (http_server cfg) (listener net.disk cfg.server.tls)) ≡ ok tt
        → Stopped net cfg
    woken-ok ctx_done is h = by_signal is
    woken-ok err_ch is h =
        let ended = failed-ok _ h in
        let (l, listens, closed) =
          sent-ok net (http_server cfg) (listener net.disk cfg.server.tls) ended
            (listener-open net.disk cfg.server.tls) in
        by_close l is ((listener_iff net.disk cfg.server.tls l).0 listens) closed

Stopped-selected :
    (net : Net) (cfg : Config.Config)
    → Stopped net cfg
    → selected net.woken (sent net (http_server cfg) (listener net.disk cfg.server.tls)) ≡ ok tt
Stopped-selected net cfg (by_signal woken) = rw woken refl
Stopped-selected net cfg (by_close l woken listens (inl closed)) =
    rw (woken, (listener_iff net.disk cfg.server.tls l).1 listens, closed) refl
Stopped-selected net cfg (by_close l woken listens (inr closed)) =
    rw (woken, (listener_iff net.disk cfg.server.tls l).1 listens, closed) refl

-- The server ends without an error exactly if the TTL of the cache is a duration, a signal stopped the
-- server or it was closed while it listened as its configuration says, and the shutdown has no error.
pub serve-ok_iff :
    (parse_duration : String → Result Duration) (net : Net) (cfg : Config.Config)
    → (serve parse_duration net cfg ≡ ok tt) ↔ (
        Parses parse_duration cfg.cache.ttl
        × Stopped net cfg
        × (net.shutdown (http_server cfg) (pos (10 * second)) ≡ none))
unfolding serve
serve-ok_iff parse_duration net cfg = (forward, backward)
  where
    forward :
        serve parse_duration net cfg ≡ ok tt
        → Parses parse_duration cfg.cache.ttl
          × Stopped net cfg
          × (net.shutdown (http_server cfg) (pos (10 * second)) ≡ none)
    forward h =
        let (ttl, is_ttl, h1) = bind-ok (wrap_error _ (parse_duration cfg.cache.ttl)) _ h in
        let (_, is_selected, h2) = bind-ok (selected net.woken _) _ h1 in
        (
          (ttl, wrap_error-ok _ (parse_duration cfg.cache.ttl) is_ttl),
          selected-ok net cfg is_selected,
          check-ok _ h2,
        )

    backward :
        Parses parse_duration cfg.cache.ttl
          × Stopped net cfg
          × (net.shutdown (http_server cfg) (pos (10 * second)) ≡ none)
        → serve parse_duration net cfg ≡ ok tt
    backward ((ttl, is_ttl), stopped, shut) =
        rw (is_ttl, Stopped-selected net cfg stopped, shut) refl
