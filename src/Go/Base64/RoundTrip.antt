-- ===== src/Go/Base64/RoundTrip.antt =====
-- What is encoded is decoded again.
use ocsp.Base.{
  both_true, some-injective, ℕ, ◌+◌, ◌*◌, ◌/◌, ◌%◌, ◌<◌, Bool, true, false, not, ◌&&◌, Option, none,
  some, [], ◌∷◌, ◌++◌, ◌≡◌, refl, sym, ap, ◌∙◌, arith, All, eqb, holds_below, holds_below-at,
  Bool-cases, inl, inr,
}
use ocsp.Go.X509.{Bytes}
use ocsp.Go.Base64.{
  Encoding, value, char, decode_clean, last_four, without_breaks, decode, encode, ending2, ending3,
  full, one_byte, two_bytes, three_bytes, is_pad, padding, is_line_break,
}
use mathlib.Core.List.{append-nil}
use ocsp.Go.Base64.Agreement.{last_four-plain}
use ocsp.Go.Base64.Alphabets.{IsKnown, std, raw_std, url, raw_url}

abbrev pub IsByte : ℕ → Type 0
IsByte b = b < 256

-- A value's character is read back, is no line break and no padding.
abbrev reads_back : Encoding → ℕ → Bool
reads_back e v =
    elim (value e (char e v)) [ none ↦ false | some w ↦ eqb w v ]
    && (not (is_line_break (char e v)) && not (is_pad (char e v)))

all_read_back : {e : Encoding} → IsKnown e → holds_below (reads_back e) 64 ≡ true
unfolding value char holds_below
all_read_back std = refl
all_read_back raw_std = refl
all_read_back url = refl
all_read_back raw_url = refl

record ReadsBack (e : Encoding) (v : ℕ) : Type 0 where
  back : value e (char e v) ≡ some v
  no_break : is_line_break (char e v) ≡ false
  no_pad : is_pad (char e v) ≡ false

read_value : (m : Option ℕ) (v : ℕ) → elim m [ none ↦ false | some w ↦ eqb w v ] ≡ true → m ≡ some v
read_value none v h = absurd (cc)
read_value (some w) v h = ap some (ground arith)

is_false : (b : Bool) → not b ≡ true → b ≡ false
is_false b h = ground arith

reads_back-ReadsBack : (e : Encoding) (v : ℕ) → reads_back e v ≡ true → ReadsBack e v
reads_back-ReadsBack e v h =
    let (read, others) = both_true _ _ h in
    let (no_break, no_pad) = both_true _ _ others in
    record {
      back = read_value (value e (char e v)) v read;
      no_break = is_false _ no_break;
      no_pad = is_false _ no_pad;
    }

without_breaks-cons :
    (c : ℕ) (text : Bytes)
    → is_line_break c ≡ false
    → without_breaks (c ∷ text) ≡ c ∷ without_breaks text
unfolding without_breaks
without_breaks-cons c text h = simp h

-- A group of four characters that ends without padding.
decode_group :
    (e : Encoding) (a b c d : ℕ) (text g more : Bytes)
    → is_pad d ≡ false
    → full e a b c d ≡ some g
    → decode_clean e text ≡ some more
    → decode_clean e (a ∷ b ∷ c ∷ d ∷ text) ≡ some (g ++ more)
unfolding decode_clean
decode_group e a b c d [] g more plain is_g h =
    last_four-plain e a b c d plain
    ∙ is_g
    ∙ ap some (sym (append-nil g) ∙ ap (λ (m : Bytes). g ++ m) (some-injective h))
decode_group e a b c d (n ∷ text) g more plain is_g h = rw (is_g, h) refl

-- The ends of a text, with the padding that the encoding has.
decode_ending2 :
    (e : Encoding) (a b : ℕ) (g : Bytes)
    → ending2 e a b ≡ some g
    → decode_clean e (a ∷ b ∷ padding e (b'=' ∷ b'=' ∷ [])) ≡ some g
unfolding decode_clean last_four
decode_ending2 e a b g h = elim (Bool-cases e.padded) [
  | inl padded ↦ simp (padded, h)
  | inr raw ↦ simp (raw, h)
]

decode_ending3 :
    (e : Encoding) (a b c : ℕ) (g : Bytes)
    → is_pad c ≡ false
    → ending3 e a b c ≡ some g
    → decode_clean e (a ∷ b ∷ c ∷ padding e (b'=' ∷ [])) ≡ some g
unfolding decode_clean last_four
decode_ending3 e a b c g plain h = elim (Bool-cases e.padded) [
  | inl padded ↦ simp (padded, plain, h)
  | inr raw ↦ simp (raw, h)
]

one_byte-eq : (x : ℕ) → x < 256 → one_byte (x / 4) (x % 4 * 16) ≡ x ∷ []
one_byte-eq x h = let p : x / 4 * 4 + x % 4 * 16 / 16 ≡ x = omega arith in cc

two_bytes-eq :
    (x y : ℕ)
    → x < 256
    → y < 256
    → two_bytes (x / 4) (x % 4 * 16 + y / 16) (y % 16 * 4) ≡ x ∷ y ∷ []
two_bytes-eq x y h k =
    let p : x / 4 * 4 + (x % 4 * 16 + y / 16) / 16 ≡ x = omega arith in
    let q : (x % 4 * 16 + y / 16) % 16 * 16 + y % 16 * 4 / 4 ≡ y = omega arith in cc

three_bytes-eq :
    (x y z : ℕ)
    → x < 256
    → y < 256
    → z < 256
    → three_bytes (x / 4) (x % 4 * 16 + y / 16) (y % 16 * 4 + z / 64) (z % 64) ≡ x ∷ y ∷ z ∷ []
three_bytes-eq x y z h k l =
    let p : x / 4 * 4 + (x % 4 * 16 + y / 16) / 16 ≡ x = omega arith in
    let q : (x % 4 * 16 + y / 16) % 16 * 16 + (y % 16 * 4 + z / 64) / 4 ≡ y = omega arith in
    let r : (y % 16 * 4 + z / 64) % 4 * 64 + z % 64 ≡ z = omega arith in cc

-- A text without line breaks.
record Unbroken (text : Bytes) : Type 0 where
  clean : without_breaks text ≡ text

padding-Unbroken :
    {e : Encoding} → IsKnown e → (pad : Bytes) → Unbroken pad → Unbroken (padding e pad)
unfolding without_breaks
padding-Unbroken std pad h = h
padding-Unbroken raw_std pad h = record { clean = refl }
padding-Unbroken url pad h = h
padding-Unbroken raw_url pad h = record { clean = refl }

module _ {e : Encoding} (known : IsKnown e) where
  char-ReadsBack : (v : ℕ) → v < 64 → ReadsBack e v
  char-ReadsBack v h =
      reads_back-ReadsBack e v (holds_below-at (reads_back e) 64 v h (all_read_back known))

  char-Unbroken : (v : ℕ) {text : Bytes} → v < 64 → Unbroken text → Unbroken (char e v ∷ text)
  char-Unbroken v {text} h rest = record {
    clean =
        without_breaks-cons (char e v) text (char-ReadsBack v h).no_break
        ∙ ap (λ (t : Bytes). char e v ∷ t) rest.clean;
  }

  -- An encoded text has no line breaks.
  encode-Unbroken : (b : Bytes) → All IsByte b → Unbroken (encode e b)
  unfolding encode without_breaks
  encode-Unbroken [] h = record { clean = refl }
  encode-Unbroken (x ∷ []) (hx, _) = char-Unbroken (x / 4) (omega arith) (
      char-Unbroken (x % 4 * 16) (omega arith)
        (padding-Unbroken known (b'=' ∷ b'=' ∷ []) (record { clean = refl })))
  encode-Unbroken (x ∷ y ∷ []) (hx, (hy, _)) = char-Unbroken (x / 4) (omega arith) (
      char-Unbroken (x % 4 * 16 + y / 16) (omega arith) (
        char-Unbroken (y % 16 * 4) (omega arith)
          (padding-Unbroken known (b'=' ∷ []) (record { clean = refl }))))
  encode-Unbroken (x ∷ y ∷ z ∷ rest) (hx, (hy, (hz, hrest))) = char-Unbroken (x / 4) (omega arith) (
      char-Unbroken (x % 4 * 16 + y / 16) (omega arith) (
        char-Unbroken (y % 16 * 4 + z / 64) (omega arith)
          (char-Unbroken (z % 64) (omega arith) (encode-Unbroken rest hrest))))

  decode_clean-encode : (b : Bytes) → All IsByte b → decode_clean e (encode e b) ≡ some b
  unfolding encode decode_clean
  decode_clean-encode [] h = refl
  decode_clean-encode (x ∷ []) (hx, _) =
      let p = char-ReadsBack (x / 4) (omega arith) in
      let q = char-ReadsBack (x % 4 * 16) (omega arith) in
      decode_ending2 e _ _ (x ∷ []) (rw (p.back, q.back) (ap some (one_byte-eq x hx)))
  decode_clean-encode (x ∷ y ∷ []) (hx, (hy, _)) =
      let p = char-ReadsBack (x / 4) (omega arith) in
      let q = char-ReadsBack (x % 4 * 16 + y / 16) (omega arith) in
      let r = char-ReadsBack (y % 16 * 4) (omega arith) in
      decode_ending3 e _ _ _ (x ∷ y ∷ []) r.no_pad
        (rw (p.back, q.back, r.back) (ap some (two_bytes-eq x y hx hy)))
  decode_clean-encode (x ∷ y ∷ z ∷ rest) (hx, (hy, (hz, hrest))) =
      let p = char-ReadsBack (x / 4) (omega arith) in
      let q = char-ReadsBack (x % 4 * 16 + y / 16) (omega arith) in
      let r = char-ReadsBack (y % 16 * 4 + z / 64) (omega arith) in
      let s = char-ReadsBack (z % 64) (omega arith) in
      decode_group e _ _ _ _ (encode e rest) (x ∷ y ∷ z ∷ []) rest s.no_pad
        (rw (p.back, q.back, r.back, s.back) (ap some (three_bytes-eq x y z hx hy hz)))
        (decode_clean-encode rest hrest)

-- Bytes that are encoded under one of the four encodings are decoded again by it.
pub decode-encode :
    {e : Encoding} (b : Bytes) → IsKnown e → All IsByte b → decode e (encode e b) ≡ some b
unfolding decode
decode-encode b known bytes =
    rw (encode-Unbroken known b bytes).clean (decode_clean-encode known b bytes)
