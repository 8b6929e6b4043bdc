-- ===== src/Ledger/Emission.antt =====
-- What the ledger's money comes to when blocks of rising heights are accepted one after the other.
use velodag_core.Prelude.{
  ℕ, ◌+◌, ◌*◌, ◌/◌, ◌≤◌, ◌≡◌, ap, arith, ◌==◌, Bool-cases, inl, inr, ok, sum_values,
}
use velodag_core.Types.{Hash, Bytes, VeloBlock, blocks_per_era}
use velodag_core.Block.Subsidy.{era_reward, emitted, emitted-suc, emitted_mono, emitted-le}
use velodag_core.Ledger.{LedgerState, empty_ledger, apply_block}
use velodag_core.Ledger.Blocks.{apply_block-zero}
use velodag_core.Ledger.Supply.{apply_block-supply}

-- From the empty ledger, blocks of strictly rising heights have been accepted, all of them below the
-- height given.
pub data Rises (sha3 : Bytes → Hash) : ℕ → LedgerState → Type 0 where
  started : Rises sha3 0 empty_ledger
  accepted :
      {n : ℕ} {s s' : LedgerState} (b : VeloBlock)
      → Rises sha3 n s
      → n ≤ b.header.height
      → apply_block sha3 s b ≡ (s', ok tt)
      → Rises sha3 (b.header.height + 1) s'

module _ (sha3 : Bytes → Hash) where
  grows-le :
      (s s' : LedgerState) (b : VeloBlock)
      → apply_block sha3 s b ≡ (s', ok tt)
      → sum_values s'.balances
        ≤ sum_values s.balances + era_reward (b.header.height / blocks_per_era)
  grows-le s s' b h = elim (Bool-cases (b.header.height == 0)) [
    | inl low ↦ omega (
      arith,
      ap (λ (v : LedgerState). sum_values v.balances) (apply_block-zero sha3 s s' b low h).1,
    )
    | inr above ↦
        omega (arith, apply_block-supply sha3 s s' b (λ e. absurd (ground (arith, above, e))) h)
  ]

  Rises-emitted : (n : ℕ) (s : LedgerState) → Rises sha3 n s → sum_values s.balances ≤ emitted n
  Rises-emitted _ _ started = unfold sum_values in omega arith
  Rises-emitted _ _ (accepted {n} {s} {s'} b before above h) = omega (
    arith,
    Rises-emitted n s before,
    grows-le s s' b h,
    emitted_mono n b.header.height above,
    emitted-suc b.header.height,
  )

  -- Whatever blocks of strictly rising heights the ledger accepts one after the other, from the empty
  -- ledger on, all balances together never pass 21,000,000 coins of 1,000,000 base units.
  pub supply-le-supply_cap :
      (n : ℕ) (s : LedgerState) → Rises sha3 n s → sum_values s.balances ≤ 21_000_000 * 1_000_000
  supply-le-supply_cap n s rises = omega (arith, Rises-emitted n s rises, emitted-le n)
