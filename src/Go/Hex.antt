-- ===== src/Go/Hex.antt =====
-- `n.Bytes()` of a `big.Int` and `hex.EncodeToString`.
use Prim.Native.Char.{Char}
use ocsp.Base.{ℕ, zero, suc, ◌/◌, ◌%◌, String, [], ◌∷◌, ◌≡◌, refl, eqb, if◌then◌else◌}
use ocsp.Base.Int.{ℤ, pos, negsuc}
use ocsp.Go.Numerals.{digit_char}
use ocsp.Go.X509.{Bytes}

-- The bytes of `n`, the highest first, in front of `rest`; `n` more rounds than bytes are given.
unfoldable pub big_endian : ℕ → ℕ → Bytes → Bytes
big_endian zero n rest = rest
big_endian (suc f) n rest =
    let more = big_endian f (n / 256) (n % 256 ∷ rest) in if eqb n 0 then rest else more

-- `x.Bytes()`, those of the absolute value
unfoldable pub bytes_of : ℤ → Bytes
unfolding big_endian
bytes_of (pos n) = big_endian (suc n) n []
bytes_of (negsuc n) = big_endian (suc (suc n)) (suc n) []

-- A digit as `hex` writes it.
unfoldable pub hex_char : ℕ → Char
unfolding digit_char
hex_char d =
    if eqb d 10
    then "a"
    else if eqb d 11
    then "b"
    else if eqb d 12
    then "c"
    else if eqb d 13
    then "d"
    else if eqb d 14
    then "e"
    else if eqb d 15
    then "f"
    else digit_char d

unfoldable pub encode_to_string : Bytes → String
unfolding hex_char
encode_to_string [] = String.[]
encode_to_string (b ∷ rest) =
    String.◌∷◌ (hex_char (b / 16)) (String.◌∷◌ (hex_char (b % 16)) (encode_to_string rest))

hex_of_1000 : encode_to_string (bytes_of (pos 1000)) ≡ "03e8"
unfolding encode_to_string bytes_of
hex_of_1000 = refl
