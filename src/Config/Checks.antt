-- ===== src/Config/Checks.antt =====
-- What it takes to pass the single checks of a configuration.
use ocsp.Base.{
  String, Bool, true, false, not, ◌||◌, ◌==◌, ◌≡◌, ◌≢◌, ◌⊎◌, inl, inr, refl, arith, eq_iff,
  if◌then◌else◌,
}
use ocsp.Base.Int.{ℤ, pos, ◌<ℤ◌, ◌≤ℤ◌, ltb_ℤ, eqb_ℤ}
use ocsp.Go.Errors.{Error, Result, ok, err}
use ocsp.Config.{default_listen_addr}

pub unless-ok :
    (b : Bool) (m : Result (Unit {0})) → (if b then ok tt else m) ≡ ok tt → (b ≡ true) ⊎ (m ≡ ok tt)
unless-ok true m h = inl refl
unless-ok false m h = inr h

pub ltb-lt : (a b : ℤ) → ltb_ℤ a b ≡ true → a <ℤ b
ltb-lt a b h = ground arith

pub not_below : (d : ℤ) → not (ltb_ℤ d (pos 0)) ≡ true → pos 0 ≤ℤ d
not_below d h = ground arith

pub retry_max-set : (n : ℤ) → (if eqb_ℤ n (pos 0) then pos 3 else n) ≢ pos 0
retry_max-set n h = ground arith

pub listed_status :
    (s : String)
    → (s == "good" || s == "revoked" || s == "unknown") ≡ true
    → (s ≡ "good") ⊎ (s ≡ "revoked") ⊎ (s ≡ "unknown")
listed_status s h = ground (arith, eq_iff s "good", eq_iff s "revoked", eq_iff s "unknown")

pub addr-set : (b : Bool) (s : String) → s == "" ≡ b → (if b then default_listen_addr else s) ≢ ""
addr-set true s e h = absurd (ground (arith, (eq_iff default_listen_addr "").1 h))
addr-set false s e h = absurd (ground (arith, (eq_iff s "").1 h))

pub listen_addr-set : (s : String) → (if s == "" then default_listen_addr else s) ≢ ""
listen_addr-set s = addr-set (s == "") s refl

pub switch-ok :
    {A : Type 0} (a b c : Bool) (x y z : Result A) (e : Error) {w : A}
    → (if a then x else if b then y else if c then z else err e) ≡ ok w
    → ((a ≡ true) × (x ≡ ok w)) ⊎ (((b ≡ true) × (y ≡ ok w)) ⊎ ((c ≡ true) × (z ≡ ok w)))
switch-ok true b c x y z e h = inl (refl, h)
switch-ok false true c x y z e h = inr (inl (refl, h))
switch-ok false false true x y z e h = inr (inr (refl, h))
switch-ok false false false x y z e h = absurd (cc)
