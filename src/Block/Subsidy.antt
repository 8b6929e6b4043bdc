-- ===== src/Block/Subsidy.antt =====
-- vdag-consensus/src/lib.rs: the emission schedule, that is the 95/5 split, the halvings and the
-- supply cap of VeloDAG_Tokenomics.md.
use native.Mathlib.Nat.{pow-suc, pow-le-pow_right, div-eq_of_lt, div-div-eq-div-mul}
use native.Mathlib.Decide.{dec_lt}
use velodag_core.Prelude.{
  ℕ, zero, suc, ◌+◌, ◌-◌, ◌*◌, ◌/◌, ◌%◌, ◌^◌, ◌≤◌, ◌<◌, ◌≡◌, refl, sym, ap, ◌∙◌, arith,
}
use velodag_core.Types.{initial_block_reward, blocks_per_era}
use velodag_core.Block.{apply_dev_tax_split, calculate_subsidy_split}

-- The split of an amount that 64 bits hold five times loses nothing.
pub apply_dev_tax_split-sum :
    (amount : ℕ)
    → amount * 5 < 2 ^ 64
    → ((apply_dev_tax_split amount).1 ≡ amount * 5 / 100)
      × ((apply_dev_tax_split amount).0 + (apply_dev_tax_split amount).1 ≡ amount)
unfolding apply_dev_tax_split
apply_dev_tax_split-sum amount h = (omega arith, omega arith)

-- The reward of an era, before the split.
abbrev pub era_reward : ℕ → ℕ
era_reward era = initial_block_reward / 2 ^ era

-- Halving a reward below 2 ^ 17 leaves nothing from the 17th time on.
era_reward-zero : (era : ℕ) → 17 ≤ era → era_reward era ≡ 0
era_reward-zero era h =
    div-eq_of_lt (omega (arith, pow-le-pow_right {n = 2} (omega arith) {i = 17} {j = era} h))

era_reward-suc : (era : ℕ) → era_reward (suc era) ≡ era_reward era / 2
era_reward-suc era =
    ap (λ d. initial_block_reward / d) (pow-suc 2 era)
    ∙ sym (div-div-eq-div-mul initial_block_reward (2 ^ era) 2)

pub era_reward-le : (era : ℕ) → era_reward era ≤ initial_block_reward
era_reward-le era = omega arith

-- Both shares of the coinbase together are the initial reward, halved once for each era of
-- 126,144,000 blocks below; the development share is 5 % of that, rounded down.
pub subsidy_split-sum :
    (height : ℕ)
    → ((calculate_subsidy_split height).0 + (calculate_subsidy_split height).1
        ≡ era_reward (height / blocks_per_era))
      × ((calculate_subsidy_split height).1 ≡ era_reward (height / blocks_per_era) * 5 / 100)
unfolding calculate_subsidy_split
subsidy_split-sum height = ground (
  arith,
  era_reward-zero (height / blocks_per_era),
  era_reward-le (height / blocks_per_era),
  apply_dev_tax_split-sum (era_reward (height / blocks_per_era)),
)

-- What the coinbases of the first `n` heights create, one block for each height.
pub emitted : ℕ → ℕ
emitted zero = 0
emitted (suc n) = emitted n + ((calculate_subsidy_split n).0 + (calculate_subsidy_split n).1)

-- The rewards of the first eras, one block of each.
past_rewards : ℕ → ℕ
past_rewards zero = 0
past_rewards (suc era) = past_rewards era + era_reward era

past_rewards-le : (era : ℕ) → past_rewards era + 2 * era_reward era ≤ 2 * initial_block_reward
unfolding past_rewards
past_rewards-le zero = omega arith
past_rewards-le (suc era) = omega (arith, past_rewards-le era, era_reward-suc era)

abbrev scheduled : ℕ → ℕ → ℕ
scheduled era rest = blocks_per_era * past_rewards era + rest * era_reward era

emitted-scheduled : (n : ℕ) → emitted n ≡ scheduled (n / blocks_per_era) (n % blocks_per_era)
unfolding emitted past_rewards
emitted-scheduled zero = refl
emitted-scheduled (suc n) = elim (dec_lt (n % blocks_per_era + 1) blocks_per_era) [
  | yes inside ↦
      let same : suc n / blocks_per_era ≡ n / blocks_per_era = omega arith in
      let next : suc n % blocks_per_era ≡ n % blocks_per_era + 1 = omega arith in
      rw (same, next) (omega (arith, emitted-scheduled n, (subsidy_split-sum n).0))
  | no last ↦
      let same : suc n / blocks_per_era ≡ suc (n / blocks_per_era) = omega arith in
      let next : suc n % blocks_per_era ≡ 0 = omega arith in
      let full : n % blocks_per_era ≡ blocks_per_era - 1 = omega arith in
      rw (same, next)
        (omega (
          arith,
          emitted-scheduled n,
          (subsidy_split-sum n).0,
          ap (λ r. r * era_reward (n / blocks_per_era)) full,
        ))
]

scheduled-le : (era rest : ℕ) → rest ≤ blocks_per_era → scheduled era rest ≤ 20_999_948_544_000
scheduled-le era rest h = grind (arith, past_rewards-le era)

pub emitted-suc : (n : ℕ) → emitted (n + 1) ≡ emitted n + era_reward (n / blocks_per_era)
unfolding emitted
emitted-suc n =
    let next : n + 1 ≡ suc n = omega arith in
    ap emitted next ∙ (omega (arith, (subsidy_split-sum n).0))

pub emitted_mono : (n m : ℕ) → n ≤ m → emitted n ≤ emitted m
unfolding emitted
emitted_mono n zero le = ground (arith, le)
emitted_mono n (suc m) le = elim (dec_lt m n) [
  | yes last ↦ let same : n ≡ suc m = omega arith in omega (arith, ap emitted same)
  | no below ↦ omega (arith, emitted_mono n m (omega arith))
]

-- One coinbase for each of the first heights: at most 21,000,000 coins of 1,000,000 base units.
pub emitted-le : (n : ℕ) → emitted n ≤ 21_000_000 * 1_000_000
emitted-le n =
    omega (arith, emitted-scheduled n, scheduled-le (n / blocks_per_era) (n % blocks_per_era))
