-- ===== src/Source/File/Index.antt =====
-- The map that is built of a list's entries.
use ocsp.Base.{
  true, Option, none, some, List, [], ◌∷◌, ◌≡◌, ◌≢◌, ◌↔◌, refl, ◌∙◌, arith, ◌==◌, eq_iff,
  if◌then◌else◌, All,
}
use ocsp.Base.Int.{ℤ, pos, negsuc, eqb_ℤ}
use ocsp.Base.Dict.{Dict, lookup, insert, lookup-insert}
use ocsp.Go.Numerals.{to_decimal, to_decimal-injective}
use ocsp.Source.File.{RevokedCertificate}
use ocsp.Source.File.Load.{index_from, index}

eqb_ℤ_self : (a : ℤ) → eqb_ℤ a a ≡ true
eqb_ℤ_self (pos n) = ground arith
eqb_ℤ_self (negsuc n) = ground arith

pub eqb_ℤ_iff : (a b : ℤ) → (eqb_ℤ a b ≡ true) ↔ (a ≡ b)
eqb_ℤ_iff a b = (λ h. ground arith, λ e. rw e (eqb_ℤ_self b))

-- Decimal texts are equal where the integers are.
decimal_eq : (a b : ℤ) → (to_decimal a == to_decimal b) ≡ eqb_ℤ a b
decimal_eq a b =
    ground (arith, eq_iff (to_decimal a) (to_decimal b), eqb_ℤ_iff a b, to_decimal-injective a b)

-- The last entry of a serial number in a list, if the list has one: no map and no text.
unfoldable pub last_of : ℤ → List RevokedCertificate → Option RevokedCertificate
last_of serial [] = none
last_of serial (rc ∷ more) = elim (last_of serial more) [
  | some later ↦ some later
  | none ↦ if eqb_ℤ rc.serial_number serial then some rc else none
]

abbrev or_last : Option RevokedCertificate → Option RevokedCertificate → Option RevokedCertificate
or_last (some later) old = some later
or_last none old = old

or_last-none : (o : Option RevokedCertificate) → or_last o none ≡ o
or_last-none none = refl
or_last-none (some rc) = refl

lookup-index_from :
    (serial : ℤ) (d : Dict RevokedCertificate) (entries : List RevokedCertificate)
    → lookup (to_decimal serial) (index_from d entries)
      ≡ or_last (last_of serial entries) (lookup (to_decimal serial) d)
unfolding index_from last_of
lookup-index_from serial d [] = refl
lookup-index_from serial d (rc ∷ more) =
    lookup-index_from serial (insert (to_decimal rc.serial_number) rc d) more
    ∙ ground (
      arith,
      lookup-insert (to_decimal rc.serial_number) (to_decimal serial) rc d,
      decimal_eq rc.serial_number serial,
    )

-- What the map shows under a serial number is the list's last entry of that number.
pub lookup-index :
    (serial : ℤ) (entries : List RevokedCertificate)
    → lookup (to_decimal serial) (index entries) ≡ last_of serial entries
unfolding index lookup
lookup-index serial entries = lookup-index_from serial [] entries ∙ or_last-none _

-- The list has no entry of the serial number exactly if none of its entries has that number.
pub last_of-none :
    (serial : ℤ) (entries : List RevokedCertificate)
    → (last_of serial entries ≡ none) ↔ All (λ rc. rc.serial_number ≢ serial) entries
unfolding last_of
last_of-none serial [] = (λ h. tt, λ h. refl)
last_of-none serial (rc ∷ more) = (
  λ h. (
    λ e. ground (arith, (eqb_ℤ_iff rc.serial_number serial).1 e),
    (last_of-none serial more).0 (ground arith),
  ),
  λ (differs, rest).
      ground (arith, (last_of-none serial more).1 rest, eqb_ℤ_iff rc.serial_number serial),
)
