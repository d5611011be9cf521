-- ===== src/Responder/Handle/Provenance.antt =====
-- Where the bytes come from that `Handle` answers with.
use ocsp.Base.{ℕ, String, Bool, false, Option, none, some, [], ◌≡◌, ◌⊎◌, inl, inr, refl, arith}
use ocsp.Base.Int.{ℤ, ◌≤ℤ◌, ◌<ℤ◌}
use ocsp.Base.Dict.{lookup}
use ocsp.Go.Time.{Time, Duration, is_zero}
use ocsp.Go.Numerals.{to_decimal, to_decimal-injective}
use ocsp.Go.Errors.{Error, Result, ok, err, Result-cases}
use ocsp.Go.X509.{Bytes}
use ocsp.Source.{Source, Status}
use ocsp.Server.Metrics.{Metrics}
use ocsp.Responder.Binding.{Externals, Request}
use ocsp.Responder.Cache.{Cache, CacheEntry, get_at, set_at}
use ocsp.Responder.Cache.Bounds.{expiry_caps}
use ocsp.Responder.Cache.Lookup.{lookup-set_at, lookup-get_at, get_at-live}
use ocsp.Responder.Handle.Admission.{IsAdmitted, admit_iff}
use ocsp.Responder.Handle.{
  Signer, Responder, Call, verdict, admit, handle, new_responder, store_signed, look_up, serve,
}

-- Every entry has bytes and a next update that stand in a relation to the serial number that its key
-- is the decimal text of, and is given up no later than that next update, if there is one.
abbrev pub Holds : (ℤ → Bytes → Time → Type 0) → Cache → Type 0
Holds P c =
    (serial : ℤ) (e : CacheEntry)
    → lookup (to_decimal serial) c.entries ≡ some e
    → (next_update : Time) × P serial e.data_bytes next_update
      × (is_zero next_update ≡ false → e.expires_at ≤ℤ next_update)

module _ (P : ℤ → Bytes → Time → Type 0) where
  -- A cache with nothing in it holds nothing else.
  pub empty-Holds : (c : Cache) → c.entries ≡ [] → Holds P c
  empty-Holds c empty serial e at =
      let none_there : lookup (to_decimal serial) [] ≡ some e = rw empty at at in
      absurd (unfold lookup in cc)

  pub set_at-Holds :
      (victim : ℕ) (serial : ℤ) (out : Bytes) (stored_at next_update : Time) (c : Cache)
      → Holds P c
      → P serial out next_update
      → Holds P (set_at victim (to_decimal serial) out stored_at next_update c)
  set_at-Holds victim serial out stored_at next_update c h p t e at =
      elim (lookup-set_at victim (to_decimal serial) (to_decimal t) out stored_at next_update c e
        at) [
          | inl old ↦ h t e old
          | inr (same, new) ↦ (
            next_update,
            rw new (rw (← to_decimal-injective serial t same) p),
            λ dated. rw new ((expiry_caps c stored_at next_update).1 dated),
          )
        ]

  pub get_at-Holds :
      (key : String) (now : Time) (c : Cache) → Holds P c → Holds P (get_at key now c).1
  get_at-Holds key now c h t e at = h t e (lookup-get_at key (to_decimal t) now c e at)

-- The signer made these bytes, with this next update, for this serial number, from what the backend
-- answered to a lookup of that number, where `Q` holds of what the lookup met and of the backend's state.
pub record Signed (S : Source) (sgn : Signer) (Q : S.Env → S.State → Type 0) (serial : ℤ)
    (out : Bytes) (next_update : Time) : Type 0 where
  pub env : S.Env
  pub state : S.State
  pub sound : Q env state
  pub signed_at : Time
  pub created :
      let v = verdict (S.get_status env serial sgn.issuer_cert state).0 in
      sgn.create_response serial v.status v.revocation_info signed_at v.source_next_update
      ≡ ok (out, next_update)

-- What a successful answer means: the request parsed and was accepted, and the bytes were signed for
-- its serial number. Either that happened in this call, on what the backend says now, or the cache
-- had them and their next update, if they have one, is still ahead when the cache is read.
pub record Answered (x : Externals) (S : Source) (sgn : Signer) (Q : S.Env → S.State → Type 0)
    (call : Call S) (request_der out : Bytes) (r : Responder S) : Type 0 where
  pub req : Request
  pub next_update : Time
  pub admitted : IsAdmitted x sgn call.ctx_err request_der req
  pub signed : Signed S sgn Q req.serial_number out next_update
  pub current :
      ((signed.env ≡ call.source_env)
        × (signed.state ≡ r.source)
        × (signed.signed_at ≡ call.signed_at))
      ⊎ (is_zero next_update ≡ false → call.looked_up <ℤ next_update)

module _ (x : Externals) (S : Source) (sgn : Signer) (Q : S.Env → S.State → Type 0) where
  store_signed-Holds :
      (P : ℤ → Bytes → Time → Type 0) (call : Call S) (serial : ℤ) (status : Status)
      (res : Result (Bytes × Time)) (r : Responder S)
      → ((out : Bytes) (next_update : Time)
          → res ≡ ok (out, next_update)
          → P serial out next_update)
      → Holds P r.cache
      → Holds P (store_signed x S sgn call serial status res r).1.cache
  unfolding store_signed
  store_signed-Holds P call serial status (err e) r p h = h
  store_signed-Holds P call serial status (ok (out, nu)) r p h =
      set_at-Holds P call.victim serial out call.stored_at nu r.cache h (p out nu refl)

  store_signed-ok :
      (call : Call S) (serial : ℤ) (status : Status) (res : Result (Bytes × Time)) (r : Responder S)
      (out : Bytes)
      → (store_signed x S sgn call serial status res r).0 ≡ ok out
      → (next_update : Time) × (res ≡ ok (out, next_update))
  unfolding store_signed
  store_signed-ok call serial status (err e) r out h = absurd (cc)
  store_signed-ok call serial status (ok (der, nu)) r out h = (nu, cc)

  look_up-Holds :
      (call : Call S) (serial : ℤ) (found : Option Bytes × Cache) (r : Responder S)
      → Q call.source_env r.source
      → Holds (Signed S sgn Q) found.1
      → Holds (Signed S sgn Q) (look_up x S sgn call serial found r).1.cache
  unfolding look_up
  look_up-Holds call serial (some out, cache) r q h = h
  look_up-Holds call serial (none, cache) r q h =
      store_signed-Holds (Signed S sgn Q) call serial _ _ _
        (λ out nu e. record {
          env = call.source_env;
          state = r.source;
          sound = q;
          signed_at = call.signed_at;
          created = e;
        })
        h

  serve-Holds :
      (call : Call S) (req : Result Request) (r : Responder S)
      → Q call.source_env r.source
      → Holds (Signed S sgn Q) r.cache
      → Holds (Signed S sgn Q) (serve x S sgn call req r).1.cache
  unfolding serve
  serve-Holds call (err e) r q h = h
  serve-Holds call (ok req) r q h =
      look_up-Holds call req.serial_number _ r q
        (get_at-Holds (Signed S sgn Q) (to_decimal req.serial_number) call.looked_up r.cache h)

  -- Handling a request leaves a cache that holds only answers signed for the serial numbers that
  -- they are kept under.
  pub handle-Holds :
      (call : Call S) (request_der : Bytes) (r : Responder S)
      → Q call.source_env r.source
      → Holds (Signed S sgn Q) r.cache
      → Holds (Signed S sgn Q) (handle x S sgn call request_der r).1.cache
  unfolding handle
  handle-Holds call request_der r q h =
      serve-Holds call (admit x S sgn call.ctx_err request_der) r q h

  look_up-Answered :
      (call : Call S) (request_der out : Bytes) (req : Request) (found : Option Bytes × Cache)
      (r : Responder S)
      → Q call.source_env r.source
      → admit x S sgn call.ctx_err request_der ≡ ok req
      → ((cached : Bytes)
          → found.0 ≡ some cached
          → (next_update : Time) × Signed S sgn Q req.serial_number cached next_update
            × (is_zero next_update ≡ false → call.looked_up <ℤ next_update))
      → (look_up x S sgn call req.serial_number found r).0 ≡ ok out
      → Answered x S sgn Q call request_der out r
  unfolding look_up
  look_up-Answered call request_der out req (some cached, cache) r q a h e =
      let (nu, p, ahead) = h cached refl in
      let same : cached ≡ out = cc in
      record {
        req = req;
        next_update = nu;
        admitted = (admit_iff x S sgn call.ctx_err request_der req).0 a;
        signed = rw (← same) p;
        current = inr ahead;
      }
  look_up-Answered call request_der out req (none, cache) r q a h e =
      let (nu, created) = store_signed-ok call req.serial_number _ _ _ out e in
      record {
        req = req;
        next_update = nu;
        admitted = (admit_iff x S sgn call.ctx_err request_der req).0 a;
        signed = record {
          env = call.source_env;
          state = r.source;
          sound = q;
          signed_at = call.signed_at;
          created = created;
        };
        current = inl (refl, refl, refl);
      }

  cached-Signed :
      (call : Call S) (serial : ℤ) (r : Responder S) (cached : Bytes)
      → Holds (Signed S sgn Q) r.cache
      → (get_at (to_decimal serial) call.looked_up r.cache).0 ≡ some cached
      → (next_update : Time) × Signed S sgn Q serial cached next_update
        × (is_zero next_update ≡ false → call.looked_up <ℤ next_update)
  cached-Signed call serial r cached h e =
      let (entry, there, same, alive) =
        get_at-live (to_decimal serial) call.looked_up r.cache cached e in
      let (nu, p, capped) = h serial entry there in
      (nu, rw (← same) p, λ dated. omega (arith, capped dated))

  -- From a cache that holds only answers signed for their serial numbers, a request that is answered
  -- was accepted, and is answered with bytes signed for its own serial number, in this call or before
  -- their next update.
  pub handle-Answered :
      (call : Call S) (request_der out : Bytes) (r : Responder S)
      → Q call.source_env r.source
      → Holds (Signed S sgn Q) r.cache
      → (handle x S sgn call request_der r).0 ≡ ok out
      → Answered x S sgn Q call request_der out r
  unfolding handle
  handle-Answered call request_der out r q h e =
      elim (Result-cases (admit x S sgn call.ctx_err request_der)) [
        | inl (reason, no_admit) ↦ absurd (refused reason no_admit)
        | inr (req, a) ↦
            look_up-Answered call request_der out req _ r q a
              (λ cached. cached-Signed call req.serial_number r cached h) (rw (a, serve) at e)
      ]
    where
      refused : (reason : Error) → admit x S sgn call.ctx_err request_der ≡ err reason → ⊥
      refused reason no_admit = ground arith

  -- A responder that was just made holds nothing.
  pub new_responder-Holds :
      (source : S.State) (cache_ttl : Duration) (max_entries : ℤ) (cache_enabled : Bool)
      (metrics : Option Metrics) (gauge : Option ℕ)
      → Holds
          (Signed S sgn Q)
          (new_responder S source cache_ttl max_entries cache_enabled metrics gauge).cache
  new_responder-Holds source cache_ttl max_entries cache_enabled metrics gauge =
      empty-Holds (Signed S sgn Q)
        (new_responder S source cache_ttl max_entries cache_enabled metrics gauge).cache refl
