-- ===== src/Responder/Handle/Admission.antt =====
-- Which requests `Handle` of internal/responder/responder.go goes on with.
use ocsp.Base.{Option, none, some, ◌≡◌, ◌↔◌, refl}
use ocsp.Go.Errors.{Error, ok, check, bind-ok, wrap_error-ok, ok-injective, check-ok}
use ocsp.Go.X509.{Bytes, Certificate}
use ocsp.Source.{Source}
use ocsp.Responder.Binding.{
  Externals, Request, Names, validate_issuer_binding, validate_issuer_binding_iff,
}
use ocsp.Responder.Handle.{Signer, admit}

-- The context is alive, and the bytes parse to a request that names the signer's issuer.
pub record IsAdmitted (x : Externals) (sgn : Signer) (ctx_err : Option Error) (request_der : Bytes)
    (req : Request) : Type 0 where
  pub issuer : Certificate
  pub alive : ctx_err ≡ none
  pub parsed : x.parse_request request_der ≡ ok req
  pub known : sgn.issuer_cert ≡ some issuer
  pub names : Names x req issuer

no_issuer : (x : Externals) (req : Request) → validate_issuer_binding x (some req) none ≡ ok tt → ⊥
unfolding validate_issuer_binding
no_issuer x req h = absurd (cc)

binding-issuer :
    (x : Externals) (req : Request) (issuer : Option Certificate)
    → validate_issuer_binding x (some req) issuer ≡ ok tt
    → (c : Certificate) × (issuer ≡ some c) × Names x req c
binding-issuer x req (some c) h = (c, refl, (validate_issuer_binding_iff x req c).0 h)
binding-issuer x req none h = absurd (no_issuer x req h)

-- A request is admitted exactly if the context is alive and the bytes parse to a request that names the
-- signer's issuer by both hashes.
pub admit_iff :
    (x : Externals) (S : Source) (sgn : Signer) (ctx_err : Option Error) (request_der : Bytes)
    (req : Request)
    → (admit x S sgn ctx_err request_der ≡ ok req) ↔ IsAdmitted x sgn ctx_err request_der req
unfolding admit
admit_iff x S sgn ctx_err request_der req = (forward, backward)
  where
    forward : admit x S sgn ctx_err request_der ≡ ok req → IsAdmitted x sgn ctx_err request_der req
    forward h =
        let (_, alive, h1) =
          bind-ok (check ctx_err) _ (wrap_error-ok "ocsp-responder/responder" _ h) in
        let (q, parsed, h2) = bind-ok (x.parse_request request_der) _ h1 in
        let (_, bound, same) = bind-ok (validate_issuer_binding x (some q) sgn.issuer_cert) _ h2 in
        let (issuer, known, names) = binding-issuer x q sgn.issuer_cert bound in
        rw (← ok-injective same) (record {
          issuer = issuer;
          alive = check-ok ctx_err alive;
          parsed = parsed;
          known = known;
          names = names;
        })

    backward : IsAdmitted x sgn ctx_err request_der req → admit x S sgn ctx_err request_der ≡ ok req
    backward a =
        let bound = (validate_issuer_binding_iff x req a.issuer).1 a.names in
        rw (a.alive, a.parsed, a.known, bound) refl
