-- ===== src/Go/Base64/Agreement.antt =====
-- Encodings never disagree: of the four, those that decode a text decode it to the same bytes.
use ocsp.Base.{
  ℕ, Bool, true, false, Option, none, some, [], ◌∷◌, ◌≡◌, ◌≢◌, arith, sym, ◌∙◌, Bool-cases, inl,
  inr, if◌then◌else◌,
}
use ocsp.Go.X509.{Bytes}
use ocsp.Go.Base64.{
  Encoding, value, decode_clean, last_four, without_breaks, decode, ending2, ending3, full, append,
  is_pad, one_byte, two_bytes, three_bytes,
}
use ocsp.Go.Base64.Inversion.{map2-some, map3-some, map4-some, append-some}
use ocsp.Go.Base64.Alphabets.{IsKnown, pad-none, value_agrees}

-- What two computations give, where both give something, is the same.
abbrev Agree {ℓ} : {A : Type ℓ} → Option A → Option A → Type ℓ
Agree {A} m m' = (u v : A) → m ≡ some u → m' ≡ some v → u ≡ v

-- Three characters or two that padding follows.
abbrev pub ended : Encoding → ℕ → ℕ → ℕ → Option Bytes
ended e a b c = if is_pad c then ending2 e a b else ending3 e a b c

pub last_four-plain :
    (e : Encoding) (a b c d : ℕ) → is_pad d ≡ false → last_four e a b c d ≡ full e a b c d
unfolding last_four
last_four-plain e a b c d plain = ground arith

full-pad :
    {e : Encoding}
    → IsKnown e
    → (a b c d : ℕ) {u : Bytes} → is_pad d ≡ true
    → full e a b c d ≢ some u
full-pad {e} known a b c d pad h =
    let (x, y, z, w, px, py, pz, pw, pu) =
      map4-some three_bytes (value e a) (value e b) (value e c) (value e d) h in
    let is_equals : d ≡ b'=' = ground arith in let is_none = pad-none known in absurd (cc)

pub last_four-ended :
    (e : Encoding) (a b c d : ℕ)
    → e.padded ≡ true
    → is_pad d ≡ true
    → last_four e a b c d ≡ ended e a b c
unfolding last_four
last_four-ended e a b c d padded pad = simp (padded, pad)

last_four-raw :
    (e : Encoding) (a b c d : ℕ) → e.padded ≡ false → last_four e a b c d ≡ full e a b c d
unfolding last_four
last_four-raw e a b c d raw = simp raw

last_four-padded :
    {e : Encoding}
    → IsKnown e
    → (a b c d : ℕ) {u : Bytes} → is_pad d ≡ true
    → last_four e a b c d ≡ some u
    → ended e a b c ≡ some u
last_four-padded {e} known a b c d pad h = elim (Bool-cases e.padded) [
  | inl padded ↦ sym (last_four-ended e a b c d padded pad) ∙ h
  | inr raw ↦ absurd (full-pad known a b c d pad (sym (last_four-raw e a b c d raw) ∙ h))
]

unpadded :
    (padded : Bool) (m : Option Bytes) {u : Bytes}
    → (if padded then none else m) ≡ some u
    → m ≡ some u
unpadded true m h = absurd (cc)
unpadded false m h = h

module _ {e e' : Encoding} (known : IsKnown e) (known' : IsKnown e') where
  ending2-Agree : (a b : ℕ) → Agree (ending2 e a b) (ending2 e' a b)
  ending2-Agree a b u v h k =
      let (x, y, px, py, pu) = map2-some one_byte (value e a) (value e b) h in
      let (x', y', px', py', pv) = map2-some one_byte (value e' a) (value e' b) k in
      let first = value_agrees a x x' known known' px px' in
      let second = value_agrees b y y' known known' py py' in cc

  ending3-Agree : (a b c : ℕ) → Agree (ending3 e a b c) (ending3 e' a b c)
  ending3-Agree a b c u v h k =
      let (x, y, z, px, py, pz, pu) = map3-some two_bytes (value e a) (value e b) (value e c) h in
      let (x', y', z', px', py', pz', pv) =
        map3-some two_bytes (value e' a) (value e' b) (value e' c) k in
      let first = value_agrees a x x' known known' px px' in
      let second = value_agrees b y y' known known' py py' in
      let third = value_agrees c z z' known known' pz pz' in cc

  full-Agree : (a b c d : ℕ) → Agree (full e a b c d) (full e' a b c d)
  full-Agree a b c d u v h k =
      let (x, y, z, w, px, py, pz, pw, pu) =
        map4-some three_bytes (value e a) (value e b) (value e c) (value e d) h in
      let (x', y', z', w', px', py', pz', pw', pv) =
        map4-some three_bytes (value e' a) (value e' b) (value e' c) (value e' d) k in
      let first = value_agrees a x x' known known' px px' in
      let second = value_agrees b y y' known known' py py' in
      let third = value_agrees c z z' known known' pz pz' in
      let fourth = value_agrees d w w' known known' pw pw' in cc

  append-Agree :
      (x y x' y' : Option Bytes) → Agree x x' → Agree y y' → Agree (append x y) (append x' y')
  append-Agree x y x' y' hx hy u v h k =
      let (a, b, pa, pb, pu) = append-some x y h in
      let (a', b', pa', pb', pv) = append-some x' y' k in
      let first = hx a a' pa pa' in let second = hy b b' pb pb' in cc

  ended-Agree : (a b c : ℕ) → Agree (ended e a b c) (ended e' a b c)
  ended-Agree a b c u v h k = elim (Bool-cases (is_pad c)) [
    | inl pad ↦ ending2-Agree a b u v (rw (pad) at h) (rw pad at k)
    | inr plain ↦ ending3-Agree a b c u v (rw plain at h) (rw plain at k)
  ]

  last_four-Agree : (a b c d : ℕ) → Agree (last_four e a b c d) (last_four e' a b c d)
  last_four-Agree a b c d u v h k = elim (Bool-cases (is_pad d)) [
    | inr plain ↦
        full-Agree a b c d u v (sym (last_four-plain e a b c d plain) ∙ h)
          (sym (last_four-plain e' a b c d plain) ∙ k)
    | inl pad ↦
        ended-Agree a b c u v (last_four-padded known a b c d pad h)
          (last_four-padded known' a b c d pad k)
  ]

  decode_clean-Agree : (text : Bytes) → Agree (decode_clean e text) (decode_clean e' text)
  unfolding decode_clean
  decode_clean-Agree [] u v h k = cc
  decode_clean-Agree (a ∷ []) u v h k = absurd (cc)
  decode_clean-Agree (a ∷ b ∷ []) u v h k =
      ending2-Agree a b u v (unpadded e.padded (ending2 e a b) h)
        (unpadded e'.padded (ending2 e' a b) k)
  decode_clean-Agree (a ∷ b ∷ c ∷ []) u v h k =
      ending3-Agree a b c u v (unpadded e.padded (ending3 e a b c) h)
        (unpadded e'.padded (ending3 e' a b c) k)
  decode_clean-Agree (a ∷ b ∷ c ∷ d ∷ []) u v h k = last_four-Agree a b c d u v h k
  decode_clean-Agree (a ∷ b ∷ c ∷ d ∷ next ∷ rest) u v h k =
      append-Agree _ _ _ _ (full-Agree a b c d) (decode_clean-Agree (next ∷ rest)) u v h k

-- Two of the encodings that both decode a text decode it to the same bytes.
pub decode_agrees :
    {e e' : Encoding} (text b b' : Bytes)
    → IsKnown e
    → IsKnown e'
    → decode e text ≡ some b
    → decode e' text ≡ some b'
    → b ≡ b'
unfolding decode
decode_agrees text b b' known known' h k =
    decode_clean-Agree known known' (without_breaks text) b b' h k
