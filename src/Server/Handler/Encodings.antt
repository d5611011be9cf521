-- ===== src/Server/Handler/Encodings.antt =====
-- A GET carries a request in any of four encodings, and none of them is taken for another.
use ocsp.Base.{
  ℕ, suc, ◌+◌, ◌≤◌, ◌<◌, ◌<>◌, Bool, true, false, not, Option, none, some, List, [], ◌∷◌, ◌≡◌, ◌⊎◌,
  inl, inr, refl, sym, ap, ◌∙◌, arith, length, All, eqb, leb, Option-cases, if◌then◌else◌,
}
use ocsp.Go.Time.{Duration}
use ocsp.Go.Numerals.{to_decimal}
use ocsp.Go.Errors.{Error, ok-injective, ok, err, guard, bind-ok, guard-ok}
use ocsp.Go.X509.{Bytes}
use ocsp.Go.Base64.{Encoding, decode, encode, encoded_len}
use ocsp.Go.Base64.Alphabets.{IsKnown, std, raw_std, url, raw_url}
use ocsp.Go.Base64.Agreement.{decode_agrees}
use ocsp.Go.Base64.Sizes.{length-decode}
use ocsp.Go.Base64.RoundTrip.{IsByte, decode-encode}
use ocsp.Server.Handler.{
  Body, requested, request_der, read_limited, posted, got, whole_seconds, first_decoded,
  ocsp_get_encodings, decode_ocsp_get_request, max_ocsp_request_size, max_ocsp_get_request_size,
}
use ocsp.Server.Handler.Requests.{request_der-post, request_der-get}

-- The encoding is one of a list of encodings, which are all known.
abbrev IsIn : Encoding → List Encoding → Type 0
IsIn e [] = ⊥
IsIn e (e' ∷ more) = (e ≡ e') ⊎ IsIn e more

IsKnown-IsIn : {e : Encoding} → IsKnown e → IsIn e ocsp_get_encodings
IsKnown-IsIn std = inl refl
IsKnown-IsIn raw_std = inr (inl refl)
IsKnown-IsIn url = inr (inr (inl refl))
IsKnown-IsIn raw_url = inr (inr (inr (inl refl)))

encodings-IsKnown : All IsKnown ocsp_get_encodings
encodings-IsKnown = (std, (raw_std, (url, (raw_url, tt))))

first_decoded_hit :
    (e : Encoding) (more : List Encoding) (enc b : Bytes)
    → decode e enc ≡ some b
    → first_decoded (e ∷ more) enc ≡ some b
unfolding first_decoded
first_decoded_hit e more enc b h = rw (h, first_decoded) refl

first_decoded_miss :
    (e : Encoding) (more : List Encoding) (enc : Bytes)
    → decode e enc ≡ none
    → first_decoded (e ∷ more) enc ≡ first_decoded more enc
unfolding first_decoded
first_decoded_miss e more enc h = rw (h, first_decoded) refl

decoded_not_missed :
    (e : Encoding) (enc b : Bytes) → decode e enc ≡ none → decode e enc ≡ some b → ⊥
decoded_not_missed e enc b missed d = absurd (cc)

-- The first encoding that decodes a text gives what any of them gives.
first_decoded-IsIn :
    {e : Encoding} (list : List Encoding) (enc b : Bytes)
    → IsKnown e
    → All IsKnown list
    → IsIn e list
    → decode e enc ≡ some b
    → first_decoded list enc ≡ some b
first_decoded-IsIn [] enc b known all h d = absurd h
first_decoded-IsIn {e} (e' ∷ more) enc b known (known', all) h d =
    elim (Option-cases (decode e' enc)) [
      | inr (b', d') ↦
          first_decoded_hit e' more enc b' d' ∙ ap some (decode_agrees enc b' b known' known d' d)
      | inl missed ↦ first_decoded_miss e' more enc missed ∙ elim h [
        | inl same ↦ absurd (decoded_not_missed e' enc b missed (rw (← same) d))
        | inr later ↦ first_decoded-IsIn more enc b known all later d
      ]
    ]

decode-in_limit :
    (enc b : Bytes)
    → 0 < length enc
    → length enc ≤ max_ocsp_get_request_size
    → first_decoded ocsp_get_encodings enc ≡ some b
    → decode_ocsp_get_request enc ≡ ok b
unfolding decode_ocsp_get_request
decode-in_limit enc b h le d =
    let nonempty : not (eqb (length enc) 0) ≡ true = ground arith in
    let in_limit : leb (length enc) max_ocsp_get_request_size ≡ true = ground arith in
    rw (nonempty, in_limit, d, decode_ocsp_get_request) refl

-- A text within the limit that one of the four encodings decodes is decoded to those bytes, whichever
-- encoding it is in: the order in which they are tried does not matter.
pub decode_ocsp_get_request-decode :
    {e : Encoding} (enc b : Bytes)
    → IsKnown e
    → 0 < length enc
    → length enc ≤ max_ocsp_get_request_size
    → decode e enc ≡ some b
    → decode_ocsp_get_request enc ≡ ok b
decode_ocsp_get_request-decode enc b known h le d =
    decode-in_limit enc b h le
      (first_decoded-IsIn ocsp_get_encodings enc b known encodings-IsKnown (IsKnown-IsIn known) d)

leb-le : (m n : ℕ) → leb m n ≡ true → m ≤ n
leb-le m n h = ground arith

first_decoded-some :
    (list : List Encoding) (enc b : Bytes)
    → first_decoded list enc ≡ some b
    → (e : Encoding) × (decode e enc ≡ some b)
first_decoded-some [] enc b h = absurd (unfold first_decoded in cc)
first_decoded-some (e ∷ more) enc b h = elim (Option-cases (decode e enc)) [
  | inr (b', d) ↦ (e, d ∙ sym (first_decoded_hit e more enc b' d) ∙ h)
  | inl missed ↦ first_decoded-some more enc b (sym (first_decoded_miss e more enc missed) ∙ h)
]

decoded-some :
    (m : Option Bytes) (e : Error) (b : Bytes)
    → (elim m [ some x ↦ ok x | none ↦ err e ]) ≡ ok b
    → m ≡ some b
decoded-some (some x) e b h = ap some (ok-injective h)
decoded-some none e b h = absurd (cc)

-- A request that GET carries is at most two bytes over the limit of POST.
pub length-decode_ocsp_get_request :
    (enc b : Bytes) → decode_ocsp_get_request enc ≡ ok b → length b ≤ max_ocsp_request_size + 2
unfolding decode_ocsp_get_request
length-decode_ocsp_get_request enc b h =
    let (_, _, h1) = bind-ok (guard (not (eqb (length enc) 0)) _) _ h in
    let (_, short, h2) = bind-ok (guard (leb (length enc) max_ocsp_get_request_size) _) _ h1 in
    let le = guard-ok (leb (length enc) max_ocsp_get_request_size) _ short in
    let (e, d) =
      first_decoded-some ocsp_get_encodings enc b
        (decoded-some (first_decoded ocsp_get_encodings enc) _ b h2) in
    let bound = length-decode e enc d in
    let in_limit = leb-le (length enc) max_ocsp_get_request_size le in omega arith

length-choice : (b : Bool) (xs : Bytes) → length (if b then xs else []) ≤ length xs
length-choice true xs = omega arith
length-choice false xs = omega arith

length-encode : (e : Encoding) (b : Bytes) → length (encode e b) ≤ encoded_len (length b)
unfolding encode
length-encode e [] = omega arith
length-encode e (x ∷ []) = let le = length-choice e.padded (b'=' ∷ b'=' ∷ []) in omega arith
length-encode e (x ∷ y ∷ []) = let le = length-choice e.padded (b'=' ∷ []) in omega arith
length-encode e (x ∷ y ∷ z ∷ rest) = let ih = length-encode e rest in omega arith

length-encode-pos : (e : Encoding) (b : Bytes) → 0 < length b → 0 < length (encode e b)
unfolding encode
length-encode-pos e [] h = h
length-encode-pos e (x ∷ []) h = omega arith
length-encode-pos e (x ∷ y ∷ []) h = omega arith
length-encode-pos e (x ∷ y ∷ z ∷ rest) h = omega arith

read_limited_within :
    (n : ℕ) (b : Bytes)
    → length b < n
    → read_limited n (record { content = b; broken = none }) ≡ ok b
unfolding read_limited
read_limited_within n b h = ground arith

posted_within : (b : Bytes) → length b ≤ max_ocsp_request_size → posted (ok b) ≡ requested none b
posted_within b h = ground arith

-- Both methods carry every request of up to 10240 bytes: a POST of its bytes, and a GET of its encoding
-- in any of the four encodings, with a `Cache-Control` for the answer.
pub request_der-encode :
    {e : Encoding} (ttl : Duration) (b : Bytes)
    → IsKnown e
    → All IsByte b
    → 0 < length b
    → length b ≤ max_ocsp_request_size
    → (request_der ttl (record {
      method = "POST";
      body = record { content = b; broken = none };
      path_value = [];
    })
        ≡ requested none b)
      × ((body : Body)
          → request_der ttl (record { method = "GET"; body = body; path_value = encode e b })
            ≡ requested (some ("max-age=" <> to_decimal (whole_seconds ttl))) b)
request_der-encode {e} ttl b known bytes pos le = (
  request_der-post ttl _ refl
      ∙ ap posted (read_limited_within (suc max_ocsp_request_size) b (omega arith))
      ∙ posted_within b le,
  λ body.
      request_der-get ttl _ refl refl
      ∙ ap (got ttl) (
          decode_ocsp_get_request-decode (encode e b) b known (length-encode-pos e b pos)
            (let short = length-encode e b in omega arith) (decode-encode b known bytes)),
)
