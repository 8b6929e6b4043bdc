-- ===== src/Daa.antt =====
-- vdag-consensus/src/daa.rs: the difficulty adjustment.
pub mod Scaling
pub mod Window
mod Tests
use velodag_core.Prelude.{
  ℕ, ◌+◌, ◌-◌, ◌*◌, ◌/◌, Option, none, some, List, [], ◌∷◌, leb, ltb, if◌then◌else◌, length, drop,
  last?, wrap64, sub64, saturating_mul64, checked_mul128, u128_mod,
}
use velodag_core.Types.{Hash, hash_mod, VeloBlock}

pub record DifficultyManager : Type 0 where
  pub target_block_interval : ℕ
  pub window_size : ℕ

-- `u64::max(1)`
unfoldable pub at_least_one : ℕ → ℕ
at_least_one n = if ltb n 1 then 1 else n

unfoldable pub clamp : ℕ → ℕ → ℕ → ℕ
clamp x lo hi = if ltb x lo then lo else if ltb hi x then hi else x

unfoldable pub actual_time_elapsed : ℕ → ℕ → ℕ
actual_time_elapsed earliest latest = if ltb earliest latest then latest - earliest else 1

unfoldable pub expected_time : DifficultyManager → ℕ
expected_time m = wrap64 (m.target_block_interval * sub64 (m.window_size) 1)

-- Steps 2 and 3, from the elapsed time, the expected time and the leading 16 bytes of the target.
unfoldable pub scale_target : ℕ → ℕ → ℕ → ℕ
unfolding at_least_one clamp
scale_target actual expected target_val =
    let expected_time_safe = at_least_one expected in
    let clamped_elapsed =
      clamp actual (expected_time_safe / 4) (saturating_mul64 expected_time_safe 4) in
    elim (checked_mul128 target_val clamped_elapsed) [
      | none ↦ target_val
      | some v ↦ v / expected_time_safe
    ]

-- The 16 new leading bytes, before sixteen bytes of 0xff; then the comparison with the maximum.
unfoldable pub rebuild_target : ℕ → Hash
rebuild_target high =
    let next_target = high * u128_mod + (u128_mod - 1) in
    let max_target = hash_mod - 1 in if ltb max_target next_target then max_target else next_target

-- `window.first().unwrap()` and `window.last().unwrap()`: `none` is the panic.
unfoldable pub first_and_last : List VeloBlock → Option (VeloBlock × VeloBlock)
first_and_last [] = none
first_and_last (b ∷ bs) = elim (last? (b ∷ bs)) [ none ↦ none | some l ↦ some (b, l) ]

unfoldable pub calculate_next_target : DifficultyManager → List VeloBlock → Hash → Option Hash
unfolding scale_target rebuild_target actual_time_elapsed expected_time
calculate_next_target m recent_blocks current_target =
    if ltb (length recent_blocks) m.window_size
    then some current_target
    else elim (first_and_last (drop (length recent_blocks - m.window_size) recent_blocks)) [
      | none ↦ none
      | some (first, last) ↦ some (
          rebuild_target (
            scale_target (actual_time_elapsed first.header.timestamp last.header.timestamp)
              (expected_time m) (current_target / u128_mod)))
    ]
