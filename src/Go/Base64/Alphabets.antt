-- ===== src/Go/Base64/Alphabets.antt =====
-- The values that the alphabets give to characters.
use ocsp.Base.{ℕ, none, some, ◌≡◌, refl, arith}
use ocsp.Go.Base64.{Encoding, std_encoding, raw_std_encoding, url_encoding, raw_url_encoding, value}

-- The four encodings.
pub data IsKnown : Encoding → Type 0 where
  std : IsKnown std_encoding
  raw_std : IsKnown raw_std_encoding
  url : IsKnown url_encoding
  raw_url : IsKnown raw_url_encoding

pub pad-none : {e : Encoding} → IsKnown e → value e b'=' ≡ none
unfolding value
pad-none std = refl
pad-none raw_std = refl
pad-none url = refl
pad-none raw_url = refl

std-url : (c u v : ℕ) → value std_encoding c ≡ some u → value url_encoding c ≡ some v → u ≡ v
unfolding value
std-url c u v h k = ground arith

-- Where two of the encodings give a character a value, it is the same.
pub value_agrees :
    {e e' : Encoding} (c u v : ℕ)
    → IsKnown e
    → IsKnown e'
    → value e c ≡ some u
    → value e' c ≡ some v
    → u ≡ v
unfolding value
value_agrees c u v std std h k = cc
value_agrees c u v std raw_std h k = cc
value_agrees c u v raw_std std h k = cc
value_agrees c u v raw_std raw_std h k = cc
value_agrees c u v url url h k = cc
value_agrees c u v url raw_url h k = cc
value_agrees c u v raw_url url h k = cc
value_agrees c u v raw_url raw_url h k = cc
value_agrees c u v std url h k = std-url c u v h k
value_agrees c u v std raw_url h k = std-url c u v h k
value_agrees c u v raw_std url h k = std-url c u v h k
value_agrees c u v raw_std raw_url h k = std-url c u v h k
value_agrees c u v url std h k = omega (arith, std-url c v u k h)
value_agrees c u v url raw_std h k = omega (arith, std-url c v u k h)
value_agrees c u v raw_url std h k = omega (arith, std-url c v u k h)
value_agrees c u v raw_url raw_std h k = omega (arith, std-url c v u k h)
