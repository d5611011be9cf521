-- ===== src/Go/Numerals.antt =====
-- `big.Int`: `String()` and `Text(16)`, and that decimal texts tell integers apart.
use Prim.Native.Char.{Char, code}
use ocsp.Base.{
  sym, Bool-cases, inl, inr, holds_below, holds_below-at, ℕ, zero, suc, ◌+◌, ◌-◌, ◌*◌, ◌/◌, ◌%◌,
  ◌≤◌, ◌<◌, String, true, ◌≡◌, refl, ap, ◌∙◌, arith, ltb, eqb, if◌then◌else◌,
}
use ocsp.Base.Int.{ℤ, pos, negsuc}

-- The digits as `strings.ToUpper` leaves them.
unfoldable pub digit_char : ℕ → Char
digit_char d =
    if eqb d 0
    then "0"
    else if eqb d 1
    then "1"
    else if eqb d 2
    then "2"
    else if eqb d 3
    then "3"
    else if eqb d 4
    then "4"
    else if eqb d 5
    then "5"
    else if eqb d 6
    then "6"
    else if eqb d 7
    then "7"
    else if eqb d 8
    then "8"
    else if eqb d 9
    then "9"
    else if eqb d 10
    then "A"
    else if eqb d 11
    then "B"
    else if eqb d 12
    then "C"
    else if eqb d 13
    then "D"
    else if eqb d 14
    then "E"
    else "F"

-- The digits of `n` in a base, written in front of `rest`; `n` more rounds than digits are given.
unfoldable pub digits : ℕ → ℕ → ℕ → String → String
digits base zero n rest = rest
digits base (suc f) n rest =
    let last = String.◌∷◌ (digit_char (n % base)) rest in
    let more = digits base f (n / base) last in if ltb n base then last else more

-- `x.Text(base)` with upper-case digits
unfoldable pub to_text : ℕ → ℤ → String
unfolding digits digit_char
to_text base (pos n) = digits base (suc n) n String.[]
to_text base (negsuc n) = String.◌∷◌ "-" (digits base (suc (suc n)) (suc n) String.[])

-- `x.String()`
unfoldable pub to_decimal : ℤ → String
unfolding to_text
to_decimal = to_text 10

-- `strings.ToUpper(x.Text(16))`
unfoldable pub to_upper_hex : ℤ → String
unfolding to_text
to_upper_hex = to_text 16

-- What a text of decimal digits stands for, after the digits that stand for `n`.
value : ℕ → String → ℕ
value n String.[] = n
value n (String.◌∷◌ c s) = value (n * 10 + (code c - 48)) s

digit_table : holds_below (λ d. eqb (code (digit_char d)) (48 + d)) 10 ≡ true
unfolding holds_below digit_char
digit_table = refl

code-digit_char : (d : ℕ) → d < 10 → code (digit_char d) ≡ 48 + d
code-digit_char d h =
    ground (arith, holds_below-at (λ d. eqb (code (digit_char d)) (48 + d)) 10 d h digit_table)

value-digit_char :
    (m d : ℕ) (s : String) → d < 10 → value m (String.◌∷◌ (digit_char d) s) ≡ value (m * 10 + d) s
unfolding value
value-digit_char m d s h =
    let e : code (digit_char d) ≡ 48 + d = code-digit_char d h in ap (λ k. value k s) (omega arith)

value-digits : (f n : ℕ) (s : String) → n < f → value 0 (digits 10 f n s) ≡ value n s
unfolding digits
value-digits zero n s h = elim h [ ]
value-digits (suc f) n s h = elim (Bool-cases (ltb n 10)) [
  | inl one ↦
      rw one (value-digit_char 0 (n % 10) s (omega arith) ∙ ap (λ m. value m s) (ground arith))
  | inr more ↦ rw more (
      value-digits f (n / 10) _ (ground arith)
      ∙ value-digit_char (n / 10) (n % 10) s (omega arith)
      ∙ ap (λ m. value m s) (omega arith))
]

-- The sign that a decimal text begins with, and the number behind it.
signed_value : String → ℤ
signed_value String.[] = pos 0
signed_value (String.◌∷◌ c s) =
    if eqb (code c) b'-'
    then (elim (value 0 s) [ zero ↦ pos 0 | suc n ↦ negsuc n ])
    else pos (value 0 (String.◌∷◌ c s))

signed_value-cons :
    (c : Char) (s : String)
    → 48 ≤ code c
    → signed_value (String.◌∷◌ c s) ≡ pos (value 0 (String.◌∷◌ c s))
unfolding signed_value
signed_value-cons c s h = ground arith

-- The first character of a natural number's decimal text is a digit.
signed_value-digits :
    (f n : ℕ) (c : Char) (s : String)
    → 48 ≤ code c
    → signed_value (digits 10 f n (String.◌∷◌ c s)) ≡ pos (value 0 (digits 10 f n (String.◌∷◌ c s)))
unfolding digits
signed_value-digits zero n c s h = signed_value-cons c s h
signed_value-digits (suc f) n c s h =
    let d = digit_char (n % 10) in
    let e : 48 ≤ code d = omega (arith, code-digit_char (n % 10) (omega arith)) in
    elim (Bool-cases (ltb n 10)) [
      | inl one ↦ rw one (signed_value-cons d _ e)
      | inr more ↦ rw more (signed_value-digits f (n / 10) d _ e)
    ]

signed_value-natural :
    (f n : ℕ)
    → signed_value (digits 10 (suc f) n String.[]) ≡ pos (value 0 (digits 10 (suc f) n String.[]))
unfolding digits
signed_value-natural f n =
    let d = digit_char (n % 10) in
    let e : 48 ≤ code d = omega (arith, code-digit_char (n % 10) (omega arith)) in
    elim (Bool-cases (ltb n 10)) [
      | inl one ↦ rw one (signed_value-cons d _ e)
      | inr more ↦ rw more (signed_value-digits f (n / 10) d _ e)
    ]

signed_value-minus :
    (s : String) (n : ℕ) → value 0 s ≡ suc n → signed_value (String.◌∷◌ "-" s) ≡ negsuc n
unfolding signed_value
signed_value-minus s n h = rw h

-- Reading back the decimal text of an integer gives the integer.
signed_value-to_decimal : (x : ℤ) → signed_value (to_decimal x) ≡ x
unfolding to_decimal value
signed_value-to_decimal (pos n) =
    signed_value-natural n n ∙ ap pos (value-digits (suc n) n String.[] (omega arith))
signed_value-to_decimal (negsuc n) =
    signed_value-minus _ n (value-digits (suc (suc n)) (suc n) String.[] (omega arith))

-- Two integers with the same decimal text are equal.
pub to_decimal-injective : (x y : ℤ) → to_decimal x ≡ to_decimal y → x ≡ y
to_decimal-injective x y h =
    sym (signed_value-to_decimal x) ∙ ap signed_value h ∙ signed_value-to_decimal y

decimal_of_minus_120 : to_decimal (negsuc 119) ≡ "-120"
unfolding to_decimal
decimal_of_minus_120 = refl

hex_of_48879 : to_upper_hex (pos 48879) ≡ "BEEF"
unfolding to_upper_hex
hex_of_48879 = refl
