-- ===== src/Pow/Mining.antt =====
-- The mining loop stops at the first nonce that verifies, and changes nothing but the nonce.
use velodag_core.Prelude.{
  ℕ, zero, suc, ◌+◌, ◌≤◌, ◌<◌, ◌≡◌, ap, ◌∙◌, true, false, some, arith, leb, Bool-cases, inl, inr,
  wrap64, u64_mod,
}
use velodag_core.Types.{Hash, Bytes, VeloBlock}
use velodag_core.Block.{calculate_hash}
use velodag_core.Pow.{PowManager, bump_nonce, mine_block, verify_pow}

-- The block after so many failed rounds.
unfoldable pub after_tries : ℕ → VeloBlock → VeloBlock
unfolding bump_nonce
after_tries zero b = b
after_tries (suc k) b = after_tries k (bump_nonce b)

-- The rounds count the nonce up, wrapping at 2^64, and leave the rest of the block alone.
pub after_tries-nonce :
    (k : ℕ) (b : VeloBlock)
    → b.header.nonce < u64_mod
    → after_tries k b
      ≡ record b { header = record (b.header) { nonce = wrap64 (b.header.nonce + k) } }
unfolding after_tries
after_tries-nonce zero b h =
    let e : b.header.nonce ≡ wrap64 (b.header.nonce + zero) = omega arith in
    ap (λ n. record b { header = record (b.header) { nonce = n } }) e
after_tries-nonce (suc k) b h =
    let e : wrap64 (wrap64 (b.header.nonce + 1) + k) ≡ wrap64 (b.header.nonce + suc k) =
      omega arith in
    after_tries-nonce k (bump_nonce b) (omega arith)
    ∙ ap (λ n. record b { header = record (b.header) { nonce = n } }) e

module _ (sha3 : Bytes → Hash) (m : PowManager) where
  -- If the block verifies after k rounds, the loop ends within k + 1: it returns the block after the
  -- first number of rounds at which it verifies, with its hash.
  pub mine_block-first :
      (fuel k : ℕ) (b : VeloBlock)
      → k < fuel
      → verify_pow sha3 m (after_tries k b) ≡ true
      → (j : ℕ) × (j ≤ k)
        × (mine_block sha3 m fuel b ≡ some (after_tries j b, calculate_hash sha3 (after_tries j b)))
        × (verify_pow sha3 m (after_tries j b) ≡ true)
        × ((i : ℕ) → i < j → verify_pow sha3 m (after_tries i b) ≡ false)
  unfolding mine_block verify_pow after_tries
  mine_block-first zero k b lt v = absurd (omega arith)
  mine_block-first (suc fuel) zero b lt v =
      (0, omega arith, rw v, v, λ i below. absurd (omega arith))
  mine_block-first (suc fuel) (suc k) b lt v =
      elim (Bool-cases (leb (calculate_hash sha3 b) m.target_difficulty)) [
        | inl now ↦ (0, omega arith, rw now, now, λ i below. absurd (omega arith))
        | inr later ↦
            let (j, le, found, good, first) =
              mine_block-first fuel k (bump_nonce b) (omega arith) v in
            (suc j, omega arith, rw later found, good, earlier later first)
      ]
    where
      earlier :
          {j : ℕ}
          → leb (calculate_hash sha3 b) m.target_difficulty ≡ false
          → ((i : ℕ) → i < j → verify_pow sha3 m (after_tries i (bump_nonce b)) ≡ false)
          → (i : ℕ) → i < suc j
          → verify_pow sha3 m (after_tries i b) ≡ false
      earlier failed first zero below = failed
      earlier failed first (suc i) below = first i (omega arith)
