-- ===== src/Source/File/Window.antt =====
-- The validity window of a list, as the two bounds that the comments name.
use ocsp.Base.{ℕ, Bool, true, false, ◌≡◌, ◌↔◌, ◌⊎◌, arith, not, ◌&&◌}
use ocsp.Base.Int.{pos, ◌+ℤ◌, ◌≤ℤ◌, int_laws}
use ocsp.Go.Time.{Time, Duration, is_zero, zero_time, negated}
use ocsp.Source.File.{crl_usable_at, crl_expired_at, crl_not_yet_valid_at, crl_clock_skew_allowance}

-- The list is not past its next update and grace, if it has a next update, and its this update, if it
-- has one, is at most five minutes ahead.
pub record InWindow (this_update next_update : Time) (grace : Duration) (now : Time) : Type 0 where
  pub not_expired : (next_update ≡ zero_time) ⊎ (now ≤ℤ next_update +ℤ grace)
  pub begun : (this_update ≡ zero_time) ⊎ (this_update ≤ℤ now +ℤ pos crl_clock_skew_allowance)

is_zero_iff : (t : Time) → (is_zero t ≡ true) ↔ (t ≡ zero_time)
is_zero_iff t = ground arith

expired-false_iff :
    (next_update : Time) (grace : Duration) (now : Time)
    → (crl_expired_at next_update grace now ≡ false)
      ↔ ((next_update ≡ zero_time) ⊎ (now ≤ℤ next_update +ℤ grace))
unfolding crl_expired_at
expired-false_iff next_update grace now = ground (arith, is_zero_iff next_update)

skew_out : (t now : Time) (k : ℕ) → t +ℤ negated k ≤ℤ now → t ≤ℤ now +ℤ pos k
skew_out t now k h = omega int_laws

skew_in : (t now : Time) (k : ℕ) → t ≤ℤ now +ℤ pos k → t +ℤ negated k ≤ℤ now
skew_in t now k h = omega int_laws

not_yet-false_iff :
    (this_update now : Time)
    → (crl_not_yet_valid_at this_update now ≡ false)
      ↔ ((this_update ≡ zero_time) ⊎ (this_update ≤ℤ now +ℤ pos crl_clock_skew_allowance))
unfolding crl_not_yet_valid_at
not_yet-false_iff this_update now = ground (
  arith,
  is_zero_iff this_update,
  skew_out this_update now crl_clock_skew_allowance,
  skew_in this_update now crl_clock_skew_allowance,
)

both_false : (a b : Bool) → (not a && not b ≡ true) ↔ ((a ≡ false) × (b ≡ false))
both_false a b = ground arith

-- A list is usable exactly in its window.
pub crl_usable_at_iff :
    (this_update next_update : Time) (grace : Duration) (now : Time)
    → (crl_usable_at this_update next_update grace now ≡ true)
      ↔ InWindow this_update next_update grace now
crl_usable_at_iff this_update next_update grace now = (usable, within)
  where
    parts : (crl_usable_at this_update next_update grace now ≡ true) ↔ (
        (crl_expired_at next_update grace now ≡ false)
        × (crl_not_yet_valid_at this_update now ≡ false))
    parts = unfold crl_usable_at in both_false _ _

    usable :
        crl_usable_at this_update next_update grace now ≡ true
        → InWindow this_update next_update grace now
    usable h = record {
      not_expired = (expired-false_iff next_update grace now).0 (parts.0 h).0;
      begun = (not_yet-false_iff this_update now).0 (parts.0 h).1;
    }

    within :
        InWindow this_update next_update grace now
        → crl_usable_at this_update next_update grace now ≡ true
    within h = parts.1 (
      (expired-false_iff next_update grace now).1 h.not_expired,
      (not_yet-false_iff this_update now).1 h.begun,
    )
