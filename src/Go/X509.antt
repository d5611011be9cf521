-- ===== src/Go/X509.antt =====
-- The fields of `x509.Certificate` and of a private key that the program reads. Parsing and
-- signatures are arguments of the definitions that use them.
use ocsp.Base.{ℕ, Bool, true, false, List, [], ◌∷◌, eqb, ◌&&◌, ◌≡◌, arith, eqb}
use ocsp.Go.Time.{Time}

abbrev pub Bytes : Type 0
Bytes = List ℕ

-- `bytes.Equal`
unfoldable pub bytes_equal : Bytes → Bytes → Bool
bytes_equal [] [] = true
bytes_equal (x ∷ xs) (y ∷ ys) = eqb x y && bytes_equal xs ys
bytes_equal _ _ = false

pub bytes_equal→eq : (a b : Bytes) → bytes_equal a b ≡ true → a ≡ b
unfolding bytes_equal
bytes_equal→eq [] [] h = ground arith
bytes_equal→eq [] (y ∷ ys) h = ground arith
bytes_equal→eq (x ∷ xs) [] h = ground arith
bytes_equal→eq (x ∷ xs) (y ∷ ys) h = ground (arith, bytes_equal→eq xs ys)

pub bytes_equal_self : (a : Bytes) → bytes_equal a a ≡ true
unfolding bytes_equal
bytes_equal_self [] = ground arith
bytes_equal_self (x ∷ xs) = ground (arith, bytes_equal_self xs)

pub data PublicKey : Type 0 where
  rsa : ℕ → ℕ → PublicKey
  ecdsa : ℕ → ℕ → PublicKey
  other : PublicKey

pub record Certificate : Type 0 where
  pub raw_subject : Bytes
  pub raw_subject_public_key_info : Bytes
  pub not_before : Time
  pub not_after : Time
  pub is_ca : Bool
  pub key_usage : ℕ
  pub ext_key_usage : List ℕ
  pub public_key : PublicKey
