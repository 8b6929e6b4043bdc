-- ===== src/Pow.antt =====
-- vdag-consensus/src/pow.rs: mining and its verification.
pub mod Mining
mod Tests
use velodag_core.Prelude.{ℕ, zero, suc, ◌+◌, Bool, Option, none, some, leb, if◌then◌else◌, wrap64}
use velodag_core.Types.{Hash, Bytes, VeloBlock}
use velodag_core.Block.{calculate_hash}

pub record PowManager : Type 0 where
  pub target_difficulty : Hash

-- `block.header.nonce += 1`
unfoldable pub bump_nonce : VeloBlock → VeloBlock
bump_nonce b = record b { header = record (b.header) { nonce = wrap64 (b.header.nonce + 1) } }

module _ (sha3 : Bytes → Hash) (m : PowManager) where
  -- The `loop` as at most `fuel` rounds, with the block that it leaves and the hash that it returns;
  -- `none` if no round has found a nonce.
  unfoldable pub mine_block : ℕ → VeloBlock → Option (VeloBlock × Hash)
  unfolding bump_nonce
  mine_block zero b = none
  mine_block (suc fuel) b =
      let hash = calculate_hash sha3 b in
      let rest = mine_block fuel (bump_nonce b) in
      if leb hash m.target_difficulty then some (b, hash) else rest

  unfoldable pub verify_pow : VeloBlock → Bool
  verify_pow b = leb (calculate_hash sha3 b) m.target_difficulty
