-- ===== src/Source/Http/Retries.antt =====
-- How often the CA is asked, and which attempt a fetch's result comes from.
use ocsp.Base.{
  ℕ, zero, suc, ◌+◌, ◌≤◌, ◌<◌, Bool, true, false, Option, none, some, List, [], ◌∷◌, ◌≡◌, arith,
}
use ocsp.Base.Int.{pos_part}
use ocsp.Go.Time.{Duration}
use ocsp.Go.Errors.{Error, ok, text}
use ocsp.Source.{CertStatus}
use ocsp.Server.Metrics.{Metrics}
use ocsp.Source.Http.{HttpSource, ResponseMapping, Fetched, mapped, unmapped, gives_up, retries}
use ocsp.Source.Http.Fetch.{
  Attempt, Act, waits, asks, Outcome, asked, after_fetch, fetch_once, round, fetch_loop,
  fetch_with_retry,
}
use ocsp.Source.Http.Answers.{Gives}

-- The requests among the acts.
abbrev pub requests : List Act → ℕ
requests [] = 0
requests (asks ∷ acts) = suc (requests acts)
requests (waits d ∷ acts) = requests acts

requests-asked : (a : Attempt) (acts : List Act) → requests (asked a acts) ≤ requests acts + 1
requests-asked a acts = ground arith

-- A bound on the requests of an outcome, over those that were made before.
Bounded : ℕ → Outcome → Type 0
Bounded n o = requests o.acts ≤ n

after_fetch-Bounded :
    (n : ℕ) (f : Fetched) (acts : List Act) (observer : Option Metrics) (next : Error → Outcome)
    → requests acts ≤ n
    → ((e : Error) → requests (next e).acts ≤ n)
    → requests (after_fetch f acts observer next).acts ≤ n
after_fetch-Bounded n (mapped cs) acts observer next h k = h
after_fetch-Bounded n (unmapped cs) acts observer next h k = h
after_fetch-Bounded n (gives_up e) acts observer next h k = h
after_fetch-Bounded n (retries e) acts observer next h k = k e

round-Bounded :
    (n : ℕ) (mapping : ResponseMapping) (a : Attempt) (stop : Option Error) (first : Bool)
    (waited : Option Error) (backoff : Duration) (acts : List Act) (observer : Option Metrics)
    (next : Duration → List Act → Option Metrics → Error → Outcome)
    → suc (requests acts) ≤ n
    → ((d : Duration) (acts' : List Act) (o : Option Metrics) (e : Error)
        → requests acts' ≤ suc (requests acts)
        → requests (next d acts' o e).acts ≤ n)
    → requests (round mapping a stop first waited backoff acts observer next).acts ≤ n
unfolding round
round-Bounded n mapping a (some e) first waited backoff acts observer next h k = omega arith
round-Bounded n mapping a none true waited backoff acts observer next h k =
    let le = requests-asked a acts in
    after_fetch-Bounded n (fetch_once mapping a) _ observer _ (omega arith)
      (λ e. k _ _ _ e (omega arith))
round-Bounded n mapping a none false (some e) backoff acts observer next h k = omega arith
round-Bounded n mapping a none false none backoff acts observer next h k =
    let le = requests-asked a (waits backoff ∷ acts) in
    after_fetch-Bounded n (fetch_once mapping a) _ _ _ (omega arith) (λ e. k _ _ _ e (omega arith))

loop-Bounded :
    (mapping : ResponseMapping) (attempt : ℕ → Attempt) (left i : ℕ) (backoff : Duration)
    (last_err : Error) (acts : List Act) (observer : Option Metrics)
    → requests (fetch_loop mapping attempt left i backoff last_err acts observer).acts
      ≤ requests acts + left
unfolding fetch_loop
loop-Bounded mapping attempt zero i backoff last_err acts observer = omega arith
loop-Bounded mapping attempt (suc left) i backoff last_err acts observer =
    round-Bounded (requests acts + suc left) mapping (attempt i) _ _ _ backoff acts observer _
      (omega arith)
      (λ d acts' o e more.
        let ih = loop-Bounded mapping attempt left (i + 1) d e acts' o in omega arith)

-- A fetch sends at most as many requests as the source has attempts.
pub fetch_with_retry-Bounded :
    (s : HttpSource) (attempt : ℕ → Attempt)
    → requests (fetch_with_retry s attempt).acts ≤ pos_part s.max_attempts
unfolding fetch_with_retry
fetch_with_retry-Bounded s attempt =
    let h =
      loop-Bounded s.mapping attempt (pos_part s.max_attempts) 0 s.backoff (text "<nil>") []
        s.observer in
    omega arith

-- An attempt of these gave the status.
pub record Given (mapping : ResponseMapping) (attempt : ℕ → Attempt) (limit : ℕ) (cs : CertStatus)
    : Type 0 where
  pub number : ℕ
  pub bounded : number < limit
  pub given : Gives (fetch_once mapping (attempt number)) cs

after_fetch-Gives :
    (f : Fetched) (acts : List Act) (observer : Option Metrics) (next : Error → Outcome)
    (cs : CertStatus) (X : Type 0)
    → (after_fetch f acts observer next).result ≡ ok cs
    → (Gives f cs → X)
    → ((e : Error) → (next e).result ≡ ok cs → X)
    → X
after_fetch-Gives (mapped cs') acts observer next cs X h now later = now (ground arith)
after_fetch-Gives (unmapped cs') acts observer next cs X h now later = now (ground arith)
after_fetch-Gives (gives_up e) acts observer next cs X h now later = absurd (ground arith)
after_fetch-Gives (retries e) acts observer next cs X h now later = later e h

round-Gives :
    (mapping : ResponseMapping) (a : Attempt) (stop : Option Error) (first : Bool)
    (waited : Option Error) (backoff : Duration) (acts : List Act) (observer : Option Metrics)
    (next : Duration → List Act → Option Metrics → Error → Outcome) (cs : CertStatus) (X : Type 0)
    → (round mapping a stop first waited backoff acts observer next).result ≡ ok cs
    → (Gives (fetch_once mapping a) cs → X)
    → ((d : Duration) (acts' : List Act) (o : Option Metrics) (e : Error)
        → (next d acts' o e).result ≡ ok cs
        → X)
    → X
unfolding round
round-Gives mapping a (some e) first waited backoff acts observer next cs X h now later =
    absurd (ground arith)
round-Gives mapping a none true waited backoff acts observer next cs X h now later =
    after_fetch-Gives (fetch_once mapping a) _ observer _ cs X h now (λ e. later _ _ _ e)
round-Gives mapping a none false (some e) backoff acts observer next cs X h now later =
    absurd (ground arith)
round-Gives mapping a none false none backoff acts observer next cs X h now later =
    after_fetch-Gives (fetch_once mapping a) _ _ _ cs X h now (λ e. later _ _ _ e)

loop-Given :
    (mapping : ResponseMapping) (attempt : ℕ → Attempt) (left i : ℕ) (backoff : Duration)
    (last_err : Error) (acts : List Act) (observer : Option Metrics) (cs : CertStatus) (limit : ℕ)
    → i + left ≤ limit
    → (fetch_loop mapping attempt left i backoff last_err acts observer).result ≡ ok cs
    → Given mapping attempt limit cs
unfolding fetch_loop
loop-Given mapping attempt zero i backoff last_err acts observer cs limit le h =
    absurd (ground arith)
loop-Given mapping attempt (suc left) i backoff last_err acts observer cs limit le h =
    round-Gives mapping (attempt i) _ _ _ backoff acts observer _ cs
      (Given mapping attempt limit cs) h
      (λ g. record { number = i; bounded = omega arith; given = g })
      (λ d acts' o e h'.
        loop-Given mapping attempt left (i + 1) d e acts' o cs limit (omega arith) h')

-- The status that a fetch returns was given by one of its attempts.
pub fetch_with_retry-Given :
    (s : HttpSource) (attempt : ℕ → Attempt) (cs : CertStatus)
    → (fetch_with_retry s attempt).result ≡ ok cs
    → Given s.mapping attempt (pos_part s.max_attempts) cs
unfolding fetch_with_retry
fetch_with_retry-Given s attempt cs =
    loop-Given s.mapping attempt (pos_part s.max_attempts) 0 s.backoff (text "<nil>") [] s.observer
      cs (pos_part s.max_attempts) (omega arith)
