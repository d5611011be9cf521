-- ===== src/Go/Strings.antt =====
-- The functions of `strings` that the program uses: `HasPrefix`, `TrimRight(s, "/")` and `ReplaceAll`.
use Prim.Native.Char.{Char, code}
use ocsp.Base.{
  ℕ, zero, suc, String, ◌<>◌, Bool, Option, none, some, ◌≡◌, refl, eqb, if◌then◌else◌, is_some,
}

abbrev without_slash : Char → String → String
without_slash c String.[] = if eqb (code c) b'/' then String.[] else String.◌∷◌ c String.[]
without_slash c rest = String.◌∷◌ c rest

unfoldable pub trim_right_slashes : String → String
trim_right_slashes String.[] = String.[]
trim_right_slashes (String.◌∷◌ c s) = without_slash c (trim_right_slashes s)

-- What is left of a text behind a prefix, if it begins with it.
strip_prefix : String → String → Option String
strip_prefix String.[] s = some s
strip_prefix (String.◌∷◌ p prefix) String.[] = none
strip_prefix (String.◌∷◌ p prefix) (String.◌∷◌ c s) =
    let rest = strip_prefix prefix s in if eqb (code p) (code c) then rest else none

-- `strings.HasPrefix(s, prefix)`
unfoldable pub has_prefix : String → String → Bool
unfolding strip_prefix
has_prefix s prefix = is_some (strip_prefix prefix s)

count : String → ℕ
count String.[] = 0
count (String.◌∷◌ c s) = suc (count s)

-- Each round takes a character at least, so the text's length bounds the rounds.
replace_from : ℕ → String → String → String → String
replace_from zero old new s = s
replace_from (suc fuel) old new String.[] = String.[]
replace_from (suc fuel) old new (String.◌∷◌ c s) = elim (strip_prefix old (String.◌∷◌ c s)) [
  | some rest ↦ new <> replace_from fuel old new rest
  | none ↦ String.◌∷◌ c (replace_from fuel old new s)
]

-- `strings.ReplaceAll(s, old, new)`, for an `old` that is not empty
unfoldable pub replace_all : String → String → String → String
unfolding replace_from strip_prefix count
replace_all s old new = replace_from (count s) old new s

path_of_10 : replace_all "/1.0/certificates/{serial}" "{serial}" "A" ≡ "/1.0/certificates/A"
unfolding replace_all
path_of_10 = refl

base_without_slashes : trim_right_slashes "https://ca//" ≡ "https://ca"
unfolding trim_right_slashes
base_without_slashes = refl
