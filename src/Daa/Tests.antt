-- ===== src/Daa/Tests.antt =====
-- Retargeting over sample windows.
use velodag_core.Prelude.{
  ◌+◌, ◌-◌, ◌*◌, ◌^◌, ◌≡◌, refl, some, List, [], ◌∷◌, arith, drop, last?, u128_mod, ltb,
  if◌then◌else◌,
}
use velodag_core.Types.{Hash, VeloBlock}
use velodag_core.Fixtures.{block_at}
use velodag_core.Daa.{
  DifficultyManager, at_least_one, clamp, expected_time, actual_time_elapsed, scale_target,
  rebuild_target, first_and_last, calculate_next_target,
}
use velodag_core.Daa.Scaling.{scale_target-slowest}
use velodag_core.Daa.Window.{window}

-- Three blocks, two intervals of ten seconds.
abbrev manager : DifficultyManager
manager = record { target_block_interval = 10; window_size = 3 }

abbrev first_block : VeloBlock
first_block = block_at [] [] 1 100

abbrev middle_block : VeloBlock
middle_block = block_at [] [] 2 103

abbrev fast_block : VeloBlock
fast_block = block_at [] [] 3 110

abbrev slow_block : VeloBlock
slow_block = block_at [] [] 3 160

abbrev quick : List VeloBlock
quick = first_block ∷ middle_block ∷ fast_block ∷ []

abbrev slack : List VeloBlock
slack = first_block ∷ middle_block ∷ slow_block ∷ []

abbrev target : Hash
target = 1_000 * 2 ^ 128

quick-next : calculate_next_target manager quick target ≡ some (500 * 2 ^ 128 + (2 ^ 128 - 1))
unfolding calculate_next_target first_and_last drop last? expected_time actual_time_elapsed
    scale_target rebuild_target at_least_one clamp
quick-next = refl

slack-next : calculate_next_target manager slack target ≡ some (3_000 * 2 ^ 128 + (2 ^ 128 - 1))
unfolding calculate_next_target first_and_last drop last? expected_time actual_time_elapsed
    scale_target rebuild_target at_least_one clamp
slack-next = refl

interval : expected_time manager ≡ 20
unfolding expected_time
interval = refl

quick-ends : first_and_last (window manager quick target) ≡ some (first_block, fast_block)
unfolding first_and_last drop last?
quick-ends = refl

slack-ends : first_and_last (window manager slack target) ≡ some (first_block, slow_block)
unfolding first_and_last drop last?
slack-ends = refl

-- A target of 2^247 with a window that took four thousand seconds in place of one thousand stays.
scale_target-slowest_example :
    scale_target 4_000 1_000 (2 ^ 119)
    ≡ (if ltb (2 ^ 119 * (4 * 1_000)) u128_mod then 2 ^ 119 * 4 else 2 ^ 119)
scale_target-slowest_example =
    scale_target-slowest 4_000 1_000 (2 ^ 119) (omega arith) (omega arith) (omega arith)
