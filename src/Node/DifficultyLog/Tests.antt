-- ===== src/Node/DifficultyLog/Tests.antt =====
-- A log with two recordings of one height.
use velodag_core.Prelude.{◌≡◌, refl, [], ◌∷◌, some, lookup, insert}
use velodag_core.Node.DifficultyLog.{get, record_all, record_target, new_log}

first_target : get 4 (record_all ((4, 70) ∷ (5, 80) ∷ (4, 90) ∷ []) new_log) ≡ some 70
unfolding get record_all record_target lookup insert
first_target = refl
