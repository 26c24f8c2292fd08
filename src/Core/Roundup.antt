-- ===== src/Core/Roundup.antt =====
-- The sizes to which core.rs rounds up an allocation.
use hyperion_rust.Common.{ℕ, ◌+◌, ◌*◌, ◌/◌, ◌%◌, ◌<◌, ◌≤◌, ◌≡◌, sym, ap, ◌∙◌, ltb, arith, if_both}
use native.Mathlib.Nat.{add-mul, mul_assoc, mul-mod_left}
use hyperion_rust.Core.{roundup}

-- A size that is rounded up to a multiple of `k` is above the size, by at most `k`.
above : (k size : ℕ) → 0 < k → (size < (size / k + 1) * k) × ((size / k + 1) * k ≤ size + k)
above k size h = omega (arith, add-mul (size / k) 1 k)

-- With an increment of 256 to 4096 in steps of 256, a rounded size is above the size, by at most
-- 4096, and a multiple of 256.
pub roundup_lem :
    (steps size : ℕ)
    → 1 ≤ steps
    → steps ≤ 16
    → (size < roundup (steps * 256) size)
      × (roundup (steps * 256) size ≤ size + 4096)
      × (roundup (steps * 256) size % 256 ≡ 0)
unfolding roundup
roundup_lem steps size h1 h2 =
    if_both (λ r. (size < r) × (r ≤ size + 4096) × (r % 256 ≡ 0)) (ltb size 8192)
      (omega arith, omega arith, omega arith)
      (if_both (λ r. (size < r) × (r ≤ size + 4096) × (r % 256 ≡ 0)) (ltb size 16384)
        (omega arith, omega arith, omega arith)
        (
          omega (arith, above (steps * 256) size (omega arith)),
          omega (arith, above (steps * 256) size (omega arith)),
          ap (λ k. k % 256) (sym (mul_assoc (size / (steps * 256) + 1) steps 256))
              ∙ mul-mod_left ((size / (steps * 256) + 1) * steps) 256,
        ))
