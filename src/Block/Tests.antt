-- ===== src/Block/Tests.antt =====
-- The emission at sample heights.
use velodag_core.Prelude.{◌≡◌, arith, refl, [], ◌∷◌}
use velodag_core.Types.{Transaction}
use velodag_core.Block.Encoding.{FitsFields, transaction_payload-injective}
use velodag_core.Fixtures.{toy_sha3, payment}
use velodag_core.Block.{
  transaction_payload, transaction_merkle_root, calculate_subsidy_split, apply_dev_tax_split,
}
use velodag_core.Block.Merkle.{transaction_merkle_root-doubled}

first_reward : calculate_subsidy_split 0 ≡ (79_077, 4_161)
unfolding calculate_subsidy_split apply_dev_tax_split
first_reward = refl

second_reward : calculate_subsidy_split 126_144_000 ≡ (39_539, 2_080)
unfolding calculate_subsidy_split apply_dev_tax_split
second_reward = refl

transaction_merkle_root-doubled_example :
    transaction_merkle_root toy_sha3 (payment ∷ payment ∷ payment ∷ payment ∷ [])
    ≡ transaction_merkle_root toy_sha3 (payment ∷ payment ∷ payment ∷ [])
transaction_merkle_root-doubled_example =
    transaction_merkle_root-doubled toy_sha3 0 (payment ∷ payment ∷ []) payment refl

payment-fits : FitsFields payment
payment-fits = record {
  sender = omega arith;
  recipient = omega arith;
  amount = omega arith;
  nonce = omega arith;
}

abbrev signed_payment : Transaction
signed_payment = record payment { signature = 5 ∷ [] }

signed_payment-fits : FitsFields signed_payment
signed_payment-fits = record {
  sender = omega arith;
  recipient = omega arith;
  amount = omega arith;
  nonce = omega arith;
}

signed_payment-payload : transaction_payload payment ≡ transaction_payload signed_payment
unfolding transaction_payload
signed_payment-payload = refl

transaction_payload-injective_example :
    (payment.sender ≡ signed_payment.sender)
    × (payment.recipient ≡ signed_payment.recipient)
    × (payment.amount ≡ signed_payment.amount)
    × (payment.nonce ≡ signed_payment.nonce)
transaction_payload-injective_example =
    transaction_payload-injective payment signed_payment payment-fits signed_payment-fits
      signed_payment-payload
