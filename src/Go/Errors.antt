-- ===== src/Go/Errors.antt =====
-- Error values. An error is told apart by the values that the program compares it with, and by its
-- text; `wrap` is `fmt.Errorf("prefix: %w", err)`.
use ocsp.Base.{String, Bool, true, false, Option, none, some, ◌≡◌, ◌⊎◌, inl, inr, refl}

pub data Error : Type 0 where
  deadline_exceeded canceled : Error
  source_unhealthy invalid_crl : Error
  not_exist end_of_file server_closed : Error
  text : String → Error
  wrap : String → Error → Error

pub data Result {ℓ} (A : Type ℓ) : Type ℓ where
  ok : A → Result A
  err : Error → Result A

infixl 5 ◌>>=◌ ◌>>◌
abbrev pub ◌>>=◌ {ℓ₁ ℓ₂} : {X : Type ℓ₁} {Y : Type ℓ₂} → Result X → (X → Result Y) → Result Y
err e >>= next = err e
ok x >>= next = next x

abbrev pub ◌>>◌ {ℓ} : {Y : Type ℓ} → Result (Unit {0}) → Result Y → Result Y
first >> second = first >>= λ _. second

-- An early `return nil, err` under a test.
abbrev pub guard : Bool → Error → Result (Unit {0})
guard true e = ok tt
guard false e = err e

-- `if err != nil { return fmt.Errorf("prefix: %w", err) }`
abbrev pub wrap_error {ℓ} : {A : Type ℓ} → String → Result A → Result A
wrap_error prefix (ok a) = ok a
wrap_error prefix (err e) = err (wrap prefix e)

-- A call that answers with an error or with nothing.
abbrev pub check : Option Error → Result (Unit {0})
check none = ok tt
check (some e) = err e

abbrev pub is_ok {ℓ} : {A : Type ℓ} → Result A → Bool
is_ok (ok _) = true
is_ok (err _) = false

-- A chain that ends well has no error in it.
pub bind-ok {ℓ₁ ℓ₂} :
    {X : Type ℓ₁} {Y : Type ℓ₂} (m : Result X) (next : X → Result Y) {y : Y}
    → (m >>= next) ≡ ok y
    → (x : X) × (m ≡ ok x) × (next x ≡ ok y)
bind-ok (err e) next h = absurd (cc)
bind-ok (ok x) next h = (x, refl, h)

pub guard-ok : (test : Bool) (e : Error) {u : Unit {0}} → guard test e ≡ ok u → test ≡ true
guard-ok true e h = refl
guard-ok false e h = absurd (cc)

pub wrap_error-ok {ℓ} :
    {A : Type ℓ} (prefix : String) (m : Result A) {a : A} → wrap_error prefix m ≡ ok a → m ≡ ok a
wrap_error-ok prefix (ok a) h = h
wrap_error-ok prefix (err e) h = absurd (cc)

pub check-ok : (e : Option Error) {u : Unit {0}} → check e ≡ ok u → e ≡ none
check-ok none h = refl
check-ok (some e) h = absurd (cc)

pub ok-injective {ℓ} : {A : Type ℓ} {a b : A} → ok a ≡ ok b → a ≡ b
ok-injective h = cc

pub Result-cases {ℓ} :
    {A : Type ℓ} (m : Result A) → ((e : Error) × (m ≡ err e)) ⊎ ((a : A) × (m ≡ ok a))
Result-cases (ok a) = inr (a, refl)
Result-cases (err e) = inl (e, refl)

-- `errors.Is(err, context.DeadlineExceeded)` and its kin: the error or one that it wraps.
unfoldable pub is_deadline_exceeded : Error → Bool
is_deadline_exceeded deadline_exceeded = true
is_deadline_exceeded (wrap prefix e) = is_deadline_exceeded e
is_deadline_exceeded _ = false

unfoldable pub is_canceled : Error → Bool
is_canceled canceled = true
is_canceled (wrap prefix e) = is_canceled e
is_canceled _ = false

unfoldable pub is_end_of_file : Error → Bool
is_end_of_file end_of_file = true
is_end_of_file (wrap prefix e) = is_end_of_file e
is_end_of_file _ = false

unfoldable pub is_not_exist : Error → Bool
is_not_exist not_exist = true
is_not_exist (wrap prefix e) = is_not_exist e
is_not_exist _ = false

-- `err != http.ErrServerClosed`, which does not look into an error
abbrev pub is_server_closed : Error → Bool
is_server_closed server_closed = true
is_server_closed _ = false
