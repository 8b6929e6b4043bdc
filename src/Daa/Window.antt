-- ===== src/Daa/Window.antt =====
-- `calculate_next_target` over a window of blocks: it always returns, and by how much it adjusts.
use native.Mathlib.Nat.{div-le_self}
use velodag_core.Prelude.{
  ◌⊎◌, inl, inr, Bool-cases, ltb, ltb→lt, true, false, sym, ap, ◌∙◌, ℕ, ◌-◌, ◌*◌, ◌/◌, ◌%◌, ◌≤◌,
  ◌<◌, ◌≡◌, refl, some, List, [], ◌∷◌, arith, length, drop, length-drop, last?, u64_mod, u128_mod,
}
use velodag_core.Types.{Hash, hash_mod, VeloBlock}
use velodag_core.Daa.{
  DifficultyManager, at_least_one, actual_time_elapsed, expected_time, scale_target, rebuild_target,
  first_and_last, calculate_next_target,
}
use velodag_core.Daa.Scaling.{
  clamped, scale_target-fits, scale_target-overflow, not_fits, scale_target-bounded,
  scale_target-direction,
}

-- The leading 16 bytes of a target.
abbrev pub high_bytes : Hash → ℕ
high_bytes t = t / u128_mod

last?-some : (b : VeloBlock) (bs : List VeloBlock) → (l : VeloBlock) × (last? (b ∷ bs) ≡ some l)
unfolding last?
last?-some b [] = (b, refl)
last?-some b (c ∷ bs) = last?-some c bs

first_and_last-some :
    (bs : List VeloBlock)
    → 0 < length bs
    → (f : VeloBlock) × (l : VeloBlock) × (first_and_last bs ≡ some (f, l))
unfolding first_and_last
first_and_last-some [] h = absurd (omega arith)
first_and_last-some (b ∷ bs) h = let (l, e) = last?-some b bs in (b, l, rw (e, first_and_last))

scale_target-lt :
    (actual expected high : ℕ) → high < u128_mod → scale_target actual expected high < u128_mod
scale_target-lt actual expected high h =
    elim (Bool-cases (ltb (high * clamped actual expected) u128_mod)) [
      | inl inside ↦ rw (scale_target-fits actual expected high (ltb→lt _ _ inside)) (
          omega (
            arith,
            ltb→lt _ _ inside,
            div-le_self (high * clamped actual expected) (at_least_one expected),
          ))
      | inr over ↦
          rw
            (scale_target-overflow actual expected high
              (not_fits (high * clamped actual expected) over))
            h
    ]

rebuild_target-parts :
    (high : ℕ)
    → high < u128_mod
    → (rebuild_target high / u128_mod ≡ high) × (rebuild_target high % u128_mod ≡ u128_mod - 1)
unfolding rebuild_target
rebuild_target-parts high h = ground arith

module _ (m : DifficultyManager) (recent : List VeloBlock) (current : Hash) where
  abbrev pub window : List VeloBlock
  window = drop (length recent - m.window_size) recent

  -- The scaled leading bytes, for the first and last block of the window.
  abbrev pub scaled : VeloBlock → VeloBlock → ℕ
  scaled first last =
      scale_target (actual_time_elapsed first.header.timestamp last.header.timestamp)
        (expected_time m) (high_bytes current)

  computed :
      (first last : VeloBlock)
      → m.window_size ≤ length recent
      → first_and_last window ≡ some (first, last)
      → calculate_next_target m recent current ≡ some (rebuild_target (scaled first last))
  unfolding calculate_next_target
  computed first last enough e = rw (not_short (length recent) m.window_size enough, e)
    where
      not_short : (n k : ℕ) → k ≤ n → ltb n k ≡ false
      not_short n k le = ground arith

  pub calculate_next_target-total :
      0 < m.window_size
      → current < hash_mod
      → (t : Hash) × (calculate_next_target m recent current ≡ some t)
        × ((length recent < m.window_size) × (t ≡ current)
            ⊎ (m.window_size ≤ length recent)
              × (t % u128_mod ≡ u128_mod - 1)
              × (high_bytes t ≤ 4 * high_bytes current)
              × (high_bytes current
                    * (at_least_one (expected_time m) / 4)
                    / at_least_one (expected_time m)
                  ≤ high_bytes t))
  calculate_next_target-total pos range = elim (Bool-cases (ltb (length recent) m.window_size)) [
    | inl short ↦ (current, early short, inl (ltb→lt _ _ short, refl))
    | inr enough ↦ adjusted (reaches enough)
  ]
    where
      early :
          ltb (length recent) m.window_size ≡ true
          → calculate_next_target m recent current ≡ some current
      early short = unfold calculate_next_target in rw short

      reaches : ltb (length recent) m.window_size ≡ false → m.window_size ≤ length recent
      reaches h = ground arith

      in_range : expected_time m < u64_mod
      in_range = unfold expected_time in omega arith

      adjusted :
          m.window_size ≤ length recent
          → (t : Hash) × (calculate_next_target m recent current ≡ some t)
            × ((length recent < m.window_size) × (t ≡ current)
                ⊎ (m.window_size ≤ length recent)
                  × (t % u128_mod ≡ u128_mod - 1)
                  × (high_bytes t ≤ 4 * high_bytes current)
                  × (high_bytes current
                        * (at_least_one (expected_time m) / 4)
                        / at_least_one (expected_time m)
                      ≤ high_bytes t))
      adjusted enough =
          let (f, l, e) =
            first_and_last-some window
              (omega (arith, length-drop (length recent - m.window_size) recent)) in
          let fits : scaled f l < u128_mod = scale_target-lt _ _ _ (omega arith) in
          let (high, low) = rebuild_target-parts (scaled f l) fits in
          let (least, most) = scale_target-bounded _ _ (high_bytes current) in_range in
          (
            rebuild_target (scaled f l),
            computed f l enough e,
            inr (enough, low, rw high most, rw high least),
          )

  calculate_next_target-direction :
      (first last : VeloBlock) (t : Hash)
      → m.window_size ≤ length recent
      → current < hash_mod
      → 0 < expected_time m
      → first_and_last window ≡ some (first, last)
      → calculate_next_target m recent current ≡ some t
      → (actual_time_elapsed first.header.timestamp last.header.timestamp ≤ expected_time m
          → high_bytes t ≤ high_bytes current)
        × (expected_time m ≤ actual_time_elapsed first.header.timestamp last.header.timestamp
            → high_bytes current ≤ high_bytes t)
  calculate_next_target-direction first last t enough range pos ends h =
      let at : rebuild_target (scaled first last) ≡ t =
        let same : some (rebuild_target (scaled first last)) ≡ some t =
          sym (computed first last enough ends) ∙ h in
        cc in
      let fits : scaled first last < u128_mod = scale_target-lt _ _ _ (omega arith) in
      let high : high_bytes t ≡ scaled first last =
        ap (λ u. high_bytes u) (sym at) ∙ (rebuild_target-parts (scaled first last) fits).0 in
      let in_range : expected_time m < u64_mod = unfold expected_time in omega arith in
      rw high (scale_target-direction _ (expected_time m) (high_bytes current) pos in_range)

  -- When the window took no longer than expected, the new target is not larger than the current one
  -- in its leading 16 bytes, so mining does not get easier.
  pub calculate_next_target-fast :
      (first last : VeloBlock) (t : Hash)
      → m.window_size ≤ length recent
      → current < hash_mod
      → 0 < expected_time m
      → first_and_last window ≡ some (first, last)
      → calculate_next_target m recent current ≡ some t
      → actual_time_elapsed first.header.timestamp last.header.timestamp ≤ expected_time m
      → high_bytes t ≤ high_bytes current
  calculate_next_target-fast first last t enough range pos ends h fast =
      (calculate_next_target-direction first last t enough range pos ends h).0 fast

  -- When the window took at least as long as expected, the new target is not smaller than the
  -- current one in its leading 16 bytes, so mining does not get harder.
  pub calculate_next_target-slow :
      (first last : VeloBlock) (t : Hash)
      → m.window_size ≤ length recent
      → current < hash_mod
      → 0 < expected_time m
      → first_and_last window ≡ some (first, last)
      → calculate_next_target m recent current ≡ some t
      → expected_time m ≤ actual_time_elapsed first.header.timestamp last.header.timestamp
      → high_bytes current ≤ high_bytes t
  calculate_next_target-slow first last t enough range pos ends h slow =
      (calculate_next_target-direction first last t enough range pos ends h).1 slow
