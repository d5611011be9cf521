-- ===== src/Go/Base64/Inversion.antt =====
-- What it takes for the combined computations of the decoder to give something.
use ocsp.Base.{ℕ, Option, none, some, ◌++◌, ◌≡◌, refl}
use ocsp.Go.X509.{Bytes}
use ocsp.Go.Base64.{map2, map3, map4, append}

pub map2-some :
    (f : ℕ → ℕ → Bytes) (a b : Option ℕ) {bytes : Bytes}
    → map2 f a b ≡ some bytes
    → (x y : ℕ) × (a ≡ some x) × (b ≡ some y) × (f x y ≡ bytes)
map2-some f (some a) (some b) h = (a, b, refl, refl, cc)
map2-some f none b h = absurd (cc)
map2-some f (some a) none h = absurd (cc)

pub map3-some :
    (f : ℕ → ℕ → ℕ → Bytes) (a b c : Option ℕ) {bytes : Bytes}
    → map3 f a b c ≡ some bytes
    → (x y z : ℕ) × (a ≡ some x) × (b ≡ some y) × (c ≡ some z) × (f x y z ≡ bytes)
map3-some f (some a) (some b) (some c) h = (a, b, c, refl, refl, refl, cc)
map3-some f none b c h = absurd (cc)
map3-some f (some a) none c h = absurd (cc)
map3-some f (some a) (some b) none h = absurd (cc)

pub map4-some :
    (f : ℕ → ℕ → ℕ → ℕ → Bytes) (a b c d : Option ℕ) {bytes : Bytes}
    → map4 f a b c d ≡ some bytes
    → (x y z w : ℕ) × (a ≡ some x)
      × (b ≡ some y)
      × (c ≡ some z)
      × (d ≡ some w)
      × (f x y z w ≡ bytes)
map4-some f (some a) (some b) (some c) (some d) h = (a, b, c, d, refl, refl, refl, refl, cc)
map4-some f none b c d h = absurd (cc)
map4-some f (some a) none c d h = absurd (cc)
map4-some f (some a) (some b) none d h = absurd (cc)
map4-some f (some a) (some b) (some c) none h = absurd (cc)

pub append-some :
    (x y : Option Bytes) {bytes : Bytes}
    → append x y ≡ some bytes
    → (a b : Bytes) × (x ≡ some a) × (y ≡ some b) × (a ++ b ≡ bytes)
append-some (some a) (some b) h = (a, b, refl, refl, cc)
append-some none y h = absurd (cc)
append-some (some a) none h = absurd (cc)
