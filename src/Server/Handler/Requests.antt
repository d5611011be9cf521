-- ===== src/Server/Handler/Requests.antt =====
-- What the handler takes from a request, and which requests it refuses.
use ocsp.Base.{
  ℕ, zero, suc, ◌≤◌, ◌<◌, true, false, not, none, List, [], ◌∷◌, ◌==◌, ◌≡◌, ◌≢◌, ◌⊎◌, inl, inr,
  refl, arith, length, ◌∙◌, ap, sym, leb, Bool-cases, eqb,
}
use ocsp.Go.Time.{Duration}
use ocsp.Go.Errors.{Result, ok, err, guard, bind-ok, guard-ok}
use ocsp.Go.X509.{Bytes}
use ocsp.Server.Handler.{
  Body, HttpRequest, HttpReply, refused, request_der, read_limited, take, posted, got, http_error,
  decode_ocsp_get_request, max_ocsp_request_size, max_ocsp_get_request_size, method_not_allowed,
}

posted-refused :
    (b : Result Bytes) (reply : HttpReply) → posted b ≡ refused reply → reply.status_code ≢ 200
posted-refused (err e) reply h is_200 = absurd (ground arith)
posted-refused (ok body) reply h is_200 = absurd (ground arith)

got-refused :
    (ttl : Duration) (b : Result Bytes) (reply : HttpReply)
    → got ttl b ≡ refused reply
    → reply.status_code ≢ 200
got-refused ttl (err e) reply h is_200 = absurd (ground arith)
got-refused ttl (ok b) reply h is_200 = absurd (cc)

length-take : {A : Type 0} (n : ℕ) (xs : List A) → n ≤ length xs → length (take n xs) ≡ n
unfolding take
length-take zero xs h = refl
length-take (suc n) [] h = absurd (omega arith)
length-take (suc n) (x ∷ xs) h = ap suc (length-take n xs (omega arith))

read_limited_beyond :
    (n : ℕ) (body : Body) → n ≤ length body.content → read_limited n body ≡ ok (take n body.content)
unfolding read_limited
read_limited_beyond n body h = ground arith

posted_too_large :
    (b : Bytes)
    → length b ≡ suc max_ocsp_request_size
    → posted (ok b) ≡ refused (http_error none "request too large" 413)
posted_too_large b h = ground arith

-- A body that is too large is read up to one byte past the limit.
pub read_limited-too_large :
    (body : Body)
    → max_ocsp_request_size < length body.content
    → posted (read_limited (suc max_ocsp_request_size) body)
      ≡ refused (http_error none "request too large" 413)
read_limited-too_large body h =
    ap posted (read_limited_beyond (suc max_ocsp_request_size) body (omega arith))
    ∙ posted_too_large (take (suc max_ocsp_request_size) body.content)
        (length-take (suc max_ocsp_request_size) body.content (omega arith))

pub got_refused :
    (ttl : Duration) (m : Result Bytes)
    → ((b : Bytes) → m ≢ ok b)
    → got ttl m ≡ refused (http_error none "malformed request" 400)
got_refused ttl (err e) h = refl
got_refused ttl (ok b) h = absurd (h b refl)

not_allowed :
    (reply : HttpReply) → refused method_not_allowed ≡ refused reply → reply.status_code ≢ 200
not_allowed reply h is_200 = absurd (ground arith)

-- A request whose body, or whose text in the path, is past the limit.
abbrev pub IsTooLarge : HttpRequest → Type 0
IsTooLarge q =
    ((q.method ≡ "POST") × (max_ocsp_request_size < length q.body.content))
    ⊎ ((q.method ≡ "GET") × (max_ocsp_get_request_size < length q.path_value))

pub decode_too_large :
    (enc b : Bytes) → max_ocsp_get_request_size < length enc → decode_ocsp_get_request enc ≢ ok b
unfolding decode_ocsp_get_request
decode_too_large enc b h decoded =
    let (_, _, h1) = bind-ok (guard (not (eqb (length enc) 0)) _) _ decoded in
    let (_, short, _) = bind-ok (guard (leb (length enc) max_ocsp_get_request_size) _) _ h1 in
    let le = guard-ok (leb (length enc) max_ocsp_get_request_size) _ short in absurd (ground arith)

pub request_der-post :
    (ttl : Duration) (q : HttpRequest)
    → (q.method == "POST") ≡ true
    → request_der ttl q ≡ posted (read_limited (suc max_ocsp_request_size) q.body)
unfolding request_der
request_der-post ttl q post = simp post

pub request_der-get :
    (ttl : Duration) (q : HttpRequest)
    → (q.method == "POST") ≡ false
    → (q.method == "GET") ≡ true
    → request_der ttl q ≡ got ttl (decode_ocsp_get_request q.path_value)
unfolding request_der
request_der-get ttl q no_post get = simp (no_post, get)

request_der-other :
    (ttl : Duration) (q : HttpRequest)
    → (q.method == "POST") ≡ false
    → (q.method == "GET") ≡ false
    → request_der ttl q ≡ refused method_not_allowed
unfolding request_der
request_der-other ttl q no_post no_get = simp (no_post, no_get)

pub request_der-refused :
    (ttl : Duration) (q : HttpRequest) (reply : HttpReply)
    → request_der ttl q ≡ refused reply
    → reply.status_code ≢ 200
request_der-refused ttl q reply h is_200 = elim (Bool-cases (q.method == "POST")) [
  | inl post ↦
      posted-refused (read_limited (suc max_ocsp_request_size) q.body) reply
        (sym (request_der-post ttl q post) ∙ h) is_200
  | inr no_post ↦ elim (Bool-cases (q.method == "GET")) [
    | inl get ↦
        got-refused ttl (decode_ocsp_get_request q.path_value) reply
          (sym (request_der-get ttl q no_post get) ∙ h) is_200
    | inr no_get ↦ not_allowed reply (sym (request_der-other ttl q no_post no_get) ∙ h) is_200
  ]
]
