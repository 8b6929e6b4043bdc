-- ===== src/Pow/Tests.antt =====
-- Mining a sample block.
use velodag_core.Prelude.{ℕ, ◌*◌, ◌^◌, ◌≤◌, ◌<◌, ◌≡◌, refl, true, false, some, [], ◌∷◌, arith}
use velodag_core.Types.{VeloBlock}
use velodag_core.Fixtures.{toy_sha3, block_at}
use velodag_core.Block.{calculate_hash, block_preimage, parents_bytes, hash_bytes, to_le_bytes}
use velodag_core.Pow.{PowManager, mine_block, verify_pow}
use velodag_core.Pow.Mining.{after_tries, mine_block-first}

abbrev sample : VeloBlock
sample = block_at (9 ∷ []) [] 1 100

abbrev manager : PowManager
manager = record { target_difficulty = 10_000 * 2 ^ 240 }

third_nonce : verify_pow toy_sha3 manager (after_tries 3 sample) ≡ true
unfolding verify_pow calculate_hash block_preimage parents_bytes hash_bytes to_le_bytes after_tries
third_nonce = refl

mine_block-first_example :
    (j : ℕ) × (j ≤ 3)
    × (mine_block toy_sha3 manager 10 sample
        ≡ some (after_tries j sample, calculate_hash toy_sha3 (after_tries j sample)))
    × (verify_pow toy_sha3 manager (after_tries j sample) ≡ true)
    × ((i : ℕ) → i < j → verify_pow toy_sha3 manager (after_tries i sample) ≡ false)
mine_block-first_example = mine_block-first toy_sha3 manager 10 3 sample (omega arith) third_nonce
