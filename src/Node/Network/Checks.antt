-- ===== src/Node/Network/Checks.antt =====
-- vdag-node/src/network.rs, `validate_and_ingest`: the checks of a block before it touches the ledger.
use velodag_core.Prelude.{
  ℕ, ◌+◌, ◌*◌, Bool, true, false, not, Option, none, some, List, [], ◌∷◌, ltb, ◌==◌, if◌then◌else◌,
  length, any_b, Map, lookup, wrap64, saturating_add64, Result, ok, err,
}
use velodag_core.Types.{Hash, Transaction, VeloBlock}
use velodag_core.Block.{verify_coinbase_rewards, verify_transaction_merkle_root}
use velodag_core.Crypto.{verify_transaction_signature}
use velodag_core.Pow.{verify_pow}
use velodag_core.Node.Network.{Env}

abbrev pub max_gossip_message_bytes : ℕ
max_gossip_message_bytes = 2 * 1_024 * 1_024

abbrev pub max_transactions_per_block : ℕ
max_transactions_per_block = 5_000

abbrev pub max_future_drift_secs : ℕ
max_future_drift_secs = 30

-- Why a block is rejected, one constructor for each warning.
pub data Reason : Type 0 where
  too_many_transactions bad_coinbase_split commitment_mismatch invalid_signature : Reason
  wrong_target insufficient_pow : Reason
  height_zero_with_parents no_parents wrong_height before_parent too_far_in_future : Reason

pub data Verdict : Type 0 where
  passed panics : Verdict
  faulty : Reason → Verdict

module _ (env : Env) where
  abbrev pub has_bad_signature : Transaction → Bool
  has_bad_signature tx = not (
      verify_transaction_signature env.scheme env.sha3 tx.sender tx.recipient tx.amount tx.nonce
        tx.public_key tx.signature)

  -- The transaction count, the coinbase, the commitment and the signatures.
  unfoldable pub content_verdict : VeloBlock → Verdict
  content_verdict block =
      if ltb max_transactions_per_block (length block.transactions)
      then faulty too_many_transactions
      else if not (verify_coinbase_rewards block)
      then faulty bad_coinbase_split
      else if not (verify_transaction_merkle_root env.sha3 block)
      then faulty commitment_mismatch
      else if any_b has_bad_signature block.transactions
      then faulty invalid_signature
      else passed

  -- Above height 0 the declared target is the expected one, and the hash meets it.
  unfoldable pub work_verdict : Hash → VeloBlock → Verdict
  work_verdict expected_target block =
      if block.header.height == 0
      then passed
      else if not (block.header.difficulty_target == expected_target)
      then faulty wrong_target
      else if not (verify_pow env.sha3 (record { target_difficulty = expected_target }) block)
      then faulty insufficient_pow
      else passed

-- `o.map_or(n, |m| m.max(n))`
unfoldable pub max_with : Option ℕ → ℕ → Option ℕ
max_with none n = some n
max_with (some m) n = some (if ltb m n then n else m)

-- The loop over the parents: the greatest height and timestamp, or the first parent not stored.
unfoldable pub parent_scan :
    Map VeloBlock → List Hash → Option ℕ → Option ℕ → Result Hash (Option ℕ × Option ℕ)
parent_scan store [] max_height max_timestamp = ok (max_height, max_timestamp)
parent_scan store (p ∷ ps) max_height max_timestamp = elim (lookup p store) [
  | none ↦ err p
  | some b ↦
      parent_scan store ps (max_with max_height b.header.height)
        (max_with max_timestamp b.header.timestamp)
]

pub has_no_parents : List Hash → Bool
has_no_parents [] = true
has_no_parents (_ ∷ _) = false

-- `if let Some(parent_ts) = max_parent_timestamp { if timestamp < parent_ts … }`
pub precedes : ℕ → Option ℕ → Bool
precedes timestamp none = false
precedes timestamp (some parent_ts) = ltb timestamp parent_ts

-- The height, and the two bounds on the timestamp. `unwrap` panics where there is no parent height.
unfoldable pub position_verdict : VeloBlock → Option ℕ → Option ℕ → ℕ → Verdict
unfolding has_no_parents precedes
position_verdict block max_height max_timestamp now =
    if block.header.height == 0
    then (if has_no_parents block.header.parents then passed else faulty height_zero_with_parents)
    else if has_no_parents block.header.parents
    then faulty no_parents
    else elim max_height [
      | none ↦ panics
      | some h ↦
          if not (block.header.height == wrap64 (h + 1))
          then faulty wrong_height
          else if precedes block.header.timestamp max_timestamp
          then faulty before_parent
          else if ltb (saturating_add64 now max_future_drift_secs) block.header.timestamp
          then faulty too_far_in_future
          else passed
    ]
