-- ===== src/Daa/Scaling.antt =====
-- How far and which way one adjustment moves the target.
use native.Mathlib.Nat.{
  div-le_of_le-mul, le-div_iff_mul-le, div-mul-le_self, mul-le-mul_left, le_trans, mul-div_cancel,
}
use velodag_core.Prelude.{
  ap, ◌∙◌, if◌then◌else◌, ◌^◌, ℕ, ◌*◌, ◌/◌, ◌≤◌, ◌<◌, ◌≡◌, arith, false, ltb, lt→ltb, Bool-cases,
  ltb→lt, inl, inr, saturating_mul64, u64_mod, u128_mod,
}
use velodag_core.Daa.{at_least_one, clamp, scale_target}

-- The clamped time of a window: what `clamp` makes of the elapsed time.
pub clamped : ℕ → ℕ → ℕ
clamped actual expected =
    clamp actual (at_least_one expected / 4) (saturating_mul64 (at_least_one expected) 4)

at_least_one-pos : (n : ℕ) → 0 < at_least_one n
unfolding at_least_one
at_least_one-pos n = ground arith

clamped_bounds :
    (actual expected : ℕ)
    → expected < u64_mod
    → (at_least_one expected / 4 ≤ clamped actual expected)
      × (clamped actual expected ≤ 4 * at_least_one expected)
unfolding clamped clamp at_least_one
clamped_bounds actual expected fits = ground arith

div_mono : {a b : ℕ} (s : ℕ) → 0 < s → a ≤ b → a / s ≤ b / s
div_mono {a} {b} s pos le = (le-div_iff_mul-le pos).1 (le_trans (div-mul-le_self a s) le)

-- While the product fits in 128 bits the new value is the exact quotient, else the old value.
pub scale_target-fits :
    (actual expected high : ℕ)
    → high * clamped actual expected < u128_mod
    → scale_target actual expected high ≡ high * clamped actual expected / at_least_one expected
unfolding scale_target clamped
scale_target-fits actual expected high h = rw (lt→ltb _ _ h, scale_target)

-- Where the product does not fit, the target stays as it is.
pub scale_target-overflow :
    (actual expected high : ℕ)
    → u128_mod ≤ high * clamped actual expected
    → scale_target actual expected high ≡ high
unfolding scale_target clamped
scale_target-overflow actual expected high h =
    rw (not_below (high * clamped actual expected) h, scale_target)
  where
    not_below : (n : ℕ) → u128_mod ≤ n → ltb n u128_mod ≡ false
    not_below n le = ground arith

product_le : (h c s : ℕ) → c ≤ 4 * s → h * c ≤ s * (4 * h)
product_le h c s le = omega (arith, mul-le-mul_left h le)

product_le' : (h c s : ℕ) → c ≤ s → h * c ≤ s * h
product_le' h c s le = omega (arith, mul-le-mul_left h le)

pub not_fits : (n : ℕ) → ltb n u128_mod ≡ false → u128_mod ≤ n
not_fits n e = ground arith

at_least_one-eq : (n : ℕ) → 0 < n → at_least_one n ≡ n
unfolding at_least_one
at_least_one-eq n h = ground arith

clamped-side :
    (actual expected : ℕ)
    → 0 < expected
    → expected < u64_mod
    → (actual ≤ expected → clamped actual expected ≤ expected)
      × (expected ≤ actual → expected ≤ clamped actual expected)
unfolding clamped clamp at_least_one
clamped-side actual expected pos fits = (λ fast. ground arith, λ slow. ground arith)

-- One adjustment moves the leading 16 bytes at most to four times their value, and at least to the
-- fraction (expected / 4) / expected of it, rounded down.
pub scale_target-bounded :
    (actual expected high : ℕ)
    → expected < u64_mod
    → (high * (at_least_one expected / 4) / at_least_one expected
        ≤ scale_target actual expected high)
      × (scale_target actual expected high ≤ 4 * high)
scale_target-bounded actual expected high fits =
    let safe = at_least_one expected in
    let c = clamped actual expected in
    let (low, up) = clamped_bounds actual expected fits in
    elim (Bool-cases (ltb (high * c) u128_mod)) [
      | inl inside ↦ rw (scale_target-fits actual expected high (ltb→lt _ _ inside)) (
        div_mono safe (at_least_one-pos expected) (mul-le-mul_left high low),
        div-le_of_le-mul safe (product_le high c safe up),
      )
      | inr over ↦
          rw (scale_target-overflow actual expected high (not_fits (high * c) over))
            (div-le_of_le-mul safe (product_le' high (safe / 4) safe (omega arith)), omega arith)
    ]

-- Blocks that came faster than expected never make the target larger, and slower ones never make
-- it smaller.
pub scale_target-direction :
    (actual expected high : ℕ)
    → 0 < expected
    → expected < u64_mod
    → (actual ≤ expected → scale_target actual expected high ≤ high)
      × (expected ≤ actual → high ≤ scale_target actual expected high)
scale_target-direction actual expected high pos fits =
    let c = clamped actual expected in
    let safe : at_least_one expected ≡ expected = at_least_one-eq expected pos in
    elim (Bool-cases (ltb (high * c) u128_mod)) [
      | inl inside ↦
          rw (scale_target-fits actual expected high (ltb→lt _ _ inside), safe)
            (
              λ fast.
                  div-le_of_le-mul expected
                    (product_le' high c expected ((clamped-side actual expected pos fits).0 fast)),
              λ slow.
                  (le-div_iff_mul-le pos).1
                    (mul-le-mul_left high ((clamped-side actual expected pos fits).1 slow)),
            )
      | inr over ↦
          rw (scale_target-overflow actual expected high (not_fits (high * c) over))
            (λ _. omega arith, λ _. omega arith)
    ]

-- When a window took at least four times its expected time, which is positive and below 2^62, the
-- leading 16 bytes of the target become four times as large if their product with four times the
-- expected time fits in 128 bits, and else stay as they are.
pub scale_target-slowest :
    (actual expected high : ℕ)
    → 0 < expected
    → expected < 2 ^ 62
    → 4 * expected ≤ actual
    → scale_target actual expected high
      ≡ (if ltb (high * (4 * expected)) u128_mod then high * 4 else high)
scale_target-slowest actual expected high pos small slow =
    elim (Bool-cases (ltb (high * (4 * expected)) u128_mod)) [
      | inl inside ↦ rw inside (
          scale_target-fits actual expected high (rw clamped-slow (ltb→lt _ _ inside))
          ∙ ap (λ c. high * c / at_least_one expected) clamped-slow
          ∙ ap (λ d. high * (4 * expected) / d) (at_least_one-eq expected pos)
          ∙ ap (λ n. n / expected) (omega arith)
          ∙ mul-div_cancel (high * 4) pos)
      | inr over ↦
          rw over (scale_target-overflow actual expected high (rw clamped-slow (not_fits _ over)))
    ]
  where
    clamped-slow : clamped actual expected ≡ 4 * expected
    clamped-slow = unfold clamped in unfold clamp in unfold at_least_one in ground arith
