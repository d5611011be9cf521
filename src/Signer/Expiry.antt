-- ===== src/Signer/Expiry.antt =====
-- How close the signing certificate is to its end, in whole days.
use ocsp.Base.{ℕ, ◌*◌, ◌≤◌, ◌<◌, ◌≡◌, ◌⊎◌, inl, inr, arith, ◌/◌}
use ocsp.Base.Int.{ℤ, pos, negsuc, ◌-ℤ◌, ◌≤ℤ◌, ◌<ℤ◌, floor_div}
use ocsp.Go.Time.{Time, saturate, max_duration, min_duration, day}
use ocsp.Signer.{
  Signer, ExpiryStatus, expiry_ok, expiry_warning, expiry_critical, expiry_expired, expiry_status,
  get_expiry_status, days_until_expiry,
}

-- The distance is one that a `Duration` can hold.
abbrev pub Fits : ℤ → Type 0
Fits d = (min_duration ≤ℤ d) × (d ≤ℤ max_duration)

saturate_lem : (d : ℤ) → Fits d → saturate d ≡ d
saturate_lem d h = ground arith

-- What each status says of the time that is left: nothing is left, less than 8 days, at least 8 and less
-- than 30, at least 30.
abbrev pub Left : ExpiryStatus → ℤ → Type 0
Left expiry_expired left = left <ℤ pos 0
Left expiry_critical left = (pos 0 ≤ℤ left) × (left <ℤ pos (8 * day))
Left expiry_warning left = (pos (8 * day) ≤ℤ left) × (left <ℤ pos (30 * day))
Left expiry_ok left = pos (30 * day) ≤ℤ left

-- The statuses that a number of whole days can have.
expiry_status-cases :
    (m : ℕ)
    → ((expiry_status (pos m) ≡ expiry_critical) × (m < 8))
      ⊎ ((expiry_status (pos m) ≡ expiry_warning) × (8 ≤ m) × (m < 30))
      ⊎ ((expiry_status (pos m) ≡ expiry_ok) × (30 ≤ m))
unfolding expiry_status
expiry_status-cases m = ground arith

expiry_status-negative : (m : ℕ) → expiry_status (negsuc m) ≡ expiry_expired
unfolding expiry_status
expiry_status-negative m = ground arith

expiry_status-Left : (d : ℤ) → Left (expiry_status (floor_div d day)) d
unfolding floor_div
expiry_status-Left (pos n) = elim (expiry_status-cases (n / day)) [
  | inl (e, few) ↦ rw e (omega arith)
  | inr (inl (e, some_days, few)) ↦ rw e (omega arith)
  | inr (inr (e, many)) ↦ rw e (omega arith)
]
expiry_status-Left (negsuc n) = rw (expiry_status-negative (n / day)) (omega arith)

-- The status of a signer tells how much time is left to its certificate's end, if that is at most some
-- 292 years away.
pub get_expiry_status-Left :
    (now : Time) (s : Signer)
    → Fits (s.cert.not_after -ℤ now)
    → Left (get_expiry_status now s) (s.cert.not_after -ℤ now)
unfolding get_expiry_status days_until_expiry
get_expiry_status-Left now s h =
    rw (saturate_lem (s.cert.not_after -ℤ now) h) (expiry_status-Left (s.cert.not_after -ℤ now))
