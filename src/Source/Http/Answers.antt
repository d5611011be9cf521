-- ===== src/Source/Http/Answers.antt =====
-- Which answers of the CA are read as `good`, and as which statuses a fetch can end.
use ocsp.Base.{
  String, true, Option, none, some, List, [], ◌∷◌, ◌≡◌, ◌↔◌, ◌⊎◌, inl, inr, refl, arith, eq_iff,
  Option-cases, Bool-cases, eqb,
}
use ocsp.Base.Dict.{Dict, lookup}
use ocsp.Go.Time.{Time}
use ocsp.Go.Errors.{Result, ok, err}
use ocsp.Source.{CertStatus, good, unknown}
use ocsp.Source.Http.{
  HttpResponse, ResponseMapping, JsonValue, string_of, Fetched, mapped, unmapped, gives_up, retries,
  contains, status_of_value, status_of_body, status_of_response, bare,
}
use ocsp.Source.Http.Fetch.{Attempt, fetch_once}

-- A text is one of a list of texts.
abbrev pub IsOneOf : String → List String → Type 0
IsOneOf val [] = ⊥
IsOneOf val (v ∷ list) = (v ≡ val) ⊎ IsOneOf val list

contains_iff : (list : List String) (val : String) → (contains list val ≡ true) ↔ IsOneOf val list
unfolding contains
contains_iff [] val = (λ h. cc, λ h. absurd h)
contains_iff (v ∷ list) val = ground (arith, eq_iff v val, contains_iff list val)

-- The CA has said that a certificate is good: its answer has status 200 and an object whose status field
-- has one of the values that stand for it.
pub record SaysGood (mapping : ResponseMapping) (a : Attempt) : Type 0 where
  pub resp : HttpResponse
  pub body : Dict JsonValue
  pub val : JsonValue
  pub sent : a.request_err ≡ none
  pub answered : a.answer ≡ ok resp
  pub found : resp.status_code ≡ 200
  pub decoded : resp.body ≡ ok body
  pub field : lookup mapping.status_field body ≡ some val
  pub listed : IsOneOf (string_of val) mapping.good_values

-- What a fetch ends with, if it ends with a status.
abbrev pub Gives : Fetched → CertStatus → Type 0
Gives (mapped cs) cs' = cs ≡ cs'
Gives (unmapped cs) cs' = cs ≡ cs'
Gives (gives_up e) cs' = ⊥
Gives (retries e) cs' = ⊥

unknown_is_not_good : (cs : CertStatus) → bare unknown ≡ cs → cs.status ≡ good → ⊥
unknown_is_not_good cs e is_good = ground arith

value-good :
    (mapping : ResponseMapping) (now : Time) (val : Option JsonValue) (cs : CertStatus)
    → Gives (status_of_value mapping now val) cs
    → cs.status ≡ good
    → (v : JsonValue) × (val ≡ some v) × IsOneOf (string_of v) mapping.good_values
unfolding status_of_value
value-good mapping now none cs h is_good = absurd (ground arith)
value-good mapping now (some v) cs h is_good = (
  v,
  refl,
  (contains_iff mapping.good_values (string_of v)).0
      (elim (Bool-cases (contains mapping.good_values (string_of v))) [
        | inl listed ↦ listed
        | inr unlisted ↦ absurd (ground arith)
      ]),
)

body-good :
    (mapping : ResponseMapping) (now : Time) (body : Result (Dict JsonValue)) (cs : CertStatus)
    → Gives (status_of_body mapping now body) cs
    → cs.status ≡ good
    → (d : Dict JsonValue) × (body ≡ ok d)
      × ((v : JsonValue) × (lookup mapping.status_field d ≡ some v)
          × IsOneOf (string_of v) mapping.good_values)
unfolding status_of_body
body-good mapping now (err e) cs h is_good = absurd h
body-good mapping now (ok d) cs h is_good = (d, refl, value-good mapping now _ cs h is_good)

response-good :
    (mapping : ResponseMapping) (now : Time) (answer : Result HttpResponse) (cs : CertStatus)
    → Gives (status_of_response mapping now answer) cs
    → cs.status ≡ good
    → (resp : HttpResponse) × (answer ≡ ok resp)
      × (resp.status_code ≡ 200)
      × Gives (status_of_body mapping now resp.body) cs
unfolding status_of_response
response-good mapping now (err e) cs h is_good = absurd h
response-good mapping now (ok resp) cs h is_good = elim (Bool-cases (eqb resp.status_code 404)) [
  | inl absent ↦ absurd (unknown_is_not_good cs (rw absent at h) is_good)
  | inr present ↦ elim (Bool-cases (eqb resp.status_code 200)) [
    | inl found ↦ (resp, refl, ground arith, rw (present, found) at h)
    | inr failed ↦ absurd (rw (present, failed) at h)
  ]
]

once-sent :
    (mapping : ResponseMapping) (a : Attempt) (cs : CertStatus)
    → Gives (fetch_once mapping a) cs
    → (a.request_err ≡ none) × Gives (status_of_response mapping a.now a.answer) cs
unfolding fetch_once
once-sent mapping a cs h = elim (Option-cases a.request_err) [
  | inl sent ↦ (sent, rw (sent, fetch_once) at h)
  | inr (e, failed) ↦ absurd (rw (failed, fetch_once) at h)
]

-- An attempt that gives the status `good` was answered by the CA with status 200 and an object whose
-- status field has one of the values that stand for it.
pub fetch_once-SaysGood :
    (mapping : ResponseMapping) (a : Attempt) (cs : CertStatus)
    → Gives (fetch_once mapping a) cs
    → cs.status ≡ good
    → SaysGood mapping a
fetch_once-SaysGood mapping a cs h is_good =
    let (sent, given) = once-sent mapping a cs h in
    let (resp, answered, found, given') = response-good mapping a.now a.answer cs given is_good in
    let (body, decoded, (val, field, listed)) =
      body-good mapping a.now resp.body cs given' is_good in
    record {
      resp = resp;
      body = body;
      val = val;
      sent = sent;
      answered = answered;
      found = found;
      decoded = decoded;
      field = field;
      listed = listed;
    }
