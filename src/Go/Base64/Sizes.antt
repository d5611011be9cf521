-- ===== src/Go/Base64/Sizes.antt =====
-- Four characters decode to three bytes at most.
use ocsp.Base.{
  some-injective, if-either, ◌&&◌, ℕ, ◌*◌, ◌≤◌, none, some, [], ◌∷◌, ◌≡◌, arith, length,
  length-append, inl, inr, if◌then◌else◌,
}
use ocsp.Go.X509.{Bytes}
use ocsp.Go.Base64.{
  Encoding, value, decode_clean, last_four, without_breaks, decode, ending2, ending3, full,
  one_byte, two_bytes, three_bytes, is_pad,
}
use ocsp.Go.Base64.Inversion.{map2-some, map3-some, map4-some, append-some}

length-without_breaks : (text : Bytes) → length (without_breaks text) ≤ length text
unfolding without_breaks
length-without_breaks [] = omega arith
length-without_breaks (c ∷ text) = ground (arith, length-without_breaks text)

length-ending2 : (e : Encoding) (a b : ℕ) {u : Bytes} → ending2 e a b ≡ some u → length u ≤ 1
length-ending2 e a b h =
    let (x, y, px, py, pu) = map2-some one_byte (value e a) (value e b) h in rw (← pu) (omega arith)

length-ending3 : (e : Encoding) (a b c : ℕ) {u : Bytes} → ending3 e a b c ≡ some u → length u ≤ 2
length-ending3 e a b c h =
    let (x, y, z, px, py, pz, pu) = map3-some two_bytes (value e a) (value e b) (value e c) h in
    rw (← pu) (omega arith)

length-full : (e : Encoding) (a b c d : ℕ) {u : Bytes} → full e a b c d ≡ some u → length u ≤ 3
length-full e a b c d h =
    let (x, y, z, w, px, py, pz, pw, pu) =
      map4-some three_bytes (value e a) (value e b) (value e c) (value e d) h in
    rw (← pu) (omega arith)

length-last_four :
    (e : Encoding) (a b c d : ℕ) {u : Bytes} → last_four e a b c d ≡ some u → length u ≤ 3
unfolding last_four
length-last_four e a b c d h =
    elim (if-either (e.padded && is_pad d) (if is_pad c then ending2 e a b else ending3 e a b c) _
      h) [
        | inl ended ↦ elim (if-either (is_pad c) (ending2 e a b) (ending3 e a b c) ended) [
          | inl two ↦ let le = length-ending2 e a b two in omega arith
          | inr three ↦ let le = length-ending3 e a b c three in omega arith
        ]
        | inr all ↦ length-full e a b c d all
      ]

length-decode_clean :
    (e : Encoding) (text : Bytes) {u : Bytes}
    → decode_clean e text ≡ some u
    → length u * 4 ≤ length text * 3
unfolding decode_clean
length-decode_clean e [] h = rw (← some-injective h) (omega arith)
length-decode_clean e (a ∷ []) h = absurd (cc)
length-decode_clean e (a ∷ b ∷ []) h = elim (if-either e.padded none (ending2 e a b) h) [
  | inl refused ↦ absurd (cc)
  | inr two ↦ let le = length-ending2 e a b two in omega arith
]
length-decode_clean e (a ∷ b ∷ c ∷ []) h = elim (if-either e.padded none (ending3 e a b c) h) [
  | inl refused ↦ absurd (cc)
  | inr three ↦ let le = length-ending3 e a b c three in omega arith
]
length-decode_clean e (a ∷ b ∷ c ∷ d ∷ []) h = let le = length-last_four e a b c d h in omega arith
length-decode_clean e (a ∷ b ∷ c ∷ d ∷ next ∷ rest) h =
    let (u, v, pu, pv, same) = append-some (full e a b c d) (decode_clean e (next ∷ rest)) h in
    let le = length-full e a b c d pu in
    let ih = length-decode_clean e (next ∷ rest) pv in
    rw (← same) (omega (arith, length-append u v))

-- A text decodes to at most three bytes for each four of its characters.
pub length-decode :
    (e : Encoding) (text : Bytes) {u : Bytes}
    → decode e text ≡ some u
    → length u * 4 ≤ length text * 3
unfolding decode
length-decode e text h =
    let le = length-decode_clean e (without_breaks text) h in
    omega (arith, length-without_breaks text)
