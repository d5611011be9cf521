-- ===== src/Go/Base64.antt =====
-- `encoding/base64` of Go's standard library: an encoding is an alphabet and whether it pads. Texts are
-- their bytes. The decoder skips carriage returns and line feeds, and is not strict about the bits
-- that a last character has too many.
pub mod Alphabets
mod Inversion
pub mod Agreement
pub mod Sizes
pub mod RoundTrip
use ocsp.Base.{
  ℕ, zero, suc, ◌+◌, ◌-◌, ◌*◌, ◌/◌, ◌%◌, Bool, true, false, Option, none, some, List, [], ◌∷◌, ◌++◌,
  ◌&&◌, ◌||◌, not, ltb, leb, eqb, if◌then◌else◌,
}
use ocsp.Go.X509.{Bytes}

-- The character after the 62 letters and digits, and the last one.
pub record Encoding : Type 0 where
  pub char_62 : ℕ
  pub char_63 : ℕ
  pub padded : Bool

abbrev pub std_encoding : Encoding
std_encoding = record { char_62 = b'+'; char_63 = b'/'; padded = true }

abbrev pub raw_std_encoding : Encoding
raw_std_encoding = record { char_62 = b'+'; char_63 = b'/'; padded = false }

abbrev pub url_encoding : Encoding
url_encoding = record { char_62 = b'-'; char_63 = b'_'; padded = true }

abbrev pub raw_url_encoding : Encoding
raw_url_encoding = record { char_62 = b'-'; char_63 = b'_'; padded = false }

-- The value of a letter or digit.
unfoldable pub alphanumeric : ℕ → Option ℕ
alphanumeric c =
    if leb b'A' c && leb c b'Z'
    then some (c - b'A')
    else if leb b'a' c && leb c b'z'
    then some (c - b'a' + 26)
    else if leb b'0' c && leb c b'9'
    then some (c - b'0' + 52)
    else none

-- `decodeMap`
unfoldable pub value : Encoding → ℕ → Option ℕ
unfolding alphanumeric
value e c = if eqb c e.char_62 then some 62 else if eqb c e.char_63 then some 63 else alphanumeric c

abbrev pub is_line_break : ℕ → Bool
is_line_break c = eqb c 10 || eqb c 13

unfoldable pub without_breaks : Bytes → Bytes
without_breaks [] = []
without_breaks (c ∷ text) =
    let rest = without_breaks text in if is_line_break c then rest else c ∷ rest

abbrev pub is_pad : ℕ → Bool
is_pad c = eqb c b'='

-- The bytes of four, three and two values.
abbrev pub three_bytes : ℕ → ℕ → ℕ → ℕ → Bytes
three_bytes a b c d = (a * 4 + b / 16) ∷ (b % 16 * 16 + c / 4) ∷ (c % 4 * 64 + d) ∷ []

abbrev pub two_bytes : ℕ → ℕ → ℕ → Bytes
two_bytes a b c = (a * 4 + b / 16) ∷ (b % 16 * 16 + c / 4) ∷ []

abbrev pub one_byte : ℕ → ℕ → Bytes
one_byte a b = (a * 4 + b / 16) ∷ []

abbrev pub map2 : (ℕ → ℕ → Bytes) → Option ℕ → Option ℕ → Option Bytes
map2 f (some a) (some b) = some (f a b)
map2 f _ _ = none

abbrev pub map3 : (ℕ → ℕ → ℕ → Bytes) → Option ℕ → Option ℕ → Option ℕ → Option Bytes
map3 f (some a) (some b) (some c) = some (f a b c)
map3 f _ _ _ = none

abbrev pub map4 : (ℕ → ℕ → ℕ → ℕ → Bytes) → Option ℕ → Option ℕ → Option ℕ → Option ℕ → Option Bytes
map4 f (some a) (some b) (some c) (some d) = some (f a b c d)
map4 f _ _ _ _ = none

abbrev pub append : Option Bytes → Option Bytes → Option Bytes
append (some xs) (some ys) = some (xs ++ ys)
append _ _ = none

-- The last two or three characters where there is no padding.
abbrev pub ending2 : Encoding → ℕ → ℕ → Option Bytes
ending2 e a b = map2 one_byte (value e a) (value e b)

abbrev pub ending3 : Encoding → ℕ → ℕ → ℕ → Option Bytes
ending3 e a b c = map3 two_bytes (value e a) (value e b) (value e c)

abbrev pub full : Encoding → ℕ → ℕ → ℕ → ℕ → Option Bytes
full e a b c d = map4 three_bytes (value e a) (value e b) (value e c) (value e d)

-- The last four characters, which may end with padding.
unfoldable pub last_four : Encoding → ℕ → ℕ → ℕ → ℕ → Option Bytes
unfolding value
last_four e a b c d =
    if e.padded && is_pad d
    then (if is_pad c then ending2 e a b else ending3 e a b c)
    else full e a b c d

-- `decodeQuantum`, from the start to the end of a text without line breaks.
unfoldable pub decode_clean : Encoding → Bytes → Option Bytes
unfolding last_four
decode_clean e [] = some []
decode_clean e (a ∷ []) = none
decode_clean e (a ∷ b ∷ []) = if e.padded then none else ending2 e a b
decode_clean e (a ∷ b ∷ c ∷ []) = if e.padded then none else ending3 e a b c
decode_clean e (a ∷ b ∷ c ∷ d ∷ []) = last_four e a b c d
decode_clean e (a ∷ b ∷ c ∷ d ∷ next ∷ rest) =
    let more = decode_clean e (next ∷ rest) in append (full e a b c d) more

-- `DecodeString`
unfoldable pub decode : Encoding → Bytes → Option Bytes
unfolding without_breaks decode_clean
decode e text = decode_clean e (without_breaks text)

-- The character of a value.
unfoldable pub char : Encoding → ℕ → ℕ
char e v =
    if ltb v 26
    then b'A' + v
    else if ltb v 52
    then b'a' + (v - 26)
    else if ltb v 62
    then b'0' + (v - 52)
    else if eqb v 62
    then e.char_62
    else e.char_63

abbrev pub padding : Encoding → Bytes → Bytes
padding e pad = if e.padded then pad else []

-- `EncodeToString`
unfoldable pub encode : Encoding → Bytes → Bytes
unfolding char
encode e [] = []
encode e (x ∷ []) = char e (x / 4) ∷ char e (x % 4 * 16) ∷ padding e (b'=' ∷ b'=' ∷ [])
encode e (x ∷ y ∷ []) =
    char e (x / 4) ∷ char e (x % 4 * 16 + y / 16) ∷ char e (y % 16 * 4) ∷ padding e (b'=' ∷ [])
encode e (x ∷ y ∷ z ∷ rest) =
    char e (x / 4)
    ∷ char e (x % 4 * 16 + y / 16)
    ∷ char e (y % 16 * 4 + z / 64)
    ∷ char e (z % 64)
    ∷ encode e rest

-- `EncodedLen` of an encoding that pads
abbrev pub encoded_len : ℕ → ℕ
encoded_len n = (n + 2) / 3 * 4
