-- ===== src/Crypto/Signing.antt =====
-- What a wallet signs, a node accepts, and only from the owner's address.
use velodag_core.Prelude.{◌≡◌, refl, true, some, ◌==◌, arith}
use velodag_core.Types.{Hash, Bytes, Transaction}
use velodag_core.Block.{transaction_payload}
use velodag_core.Crypto.{
  Scheme, VeloKeyPair, public_key_bytes, secret_key_bytes, from_bytes, derive_address, sign_message,
  verify_transaction_signature,
}

-- The signature library's promises for one key pair: what it prints it parses, and a signature of the
-- pair verifies.
pub record IsPair (scheme : Scheme) (pk : scheme.PublicKey) (sk : scheme.SecretKey) : Type 0 where
  pub parses_key : scheme.parse_key (scheme.key_bytes pk) ≡ some pk
  pub parses_secret : scheme.parse_secret (scheme.secret_bytes sk) ≡ some sk
  pub parses_signature :
      (m : Bytes)
      → scheme.parse_signature (scheme.signature_bytes (scheme.detached_sign m sk))
        ≡ some (scheme.detached_sign m sk)
  pub verifies : (m : Bytes) → scheme.verify_detached (scheme.detached_sign m sk) m pk ≡ true

module _ (scheme : Scheme) (sha3 : Bytes → Hash) where
  -- A transaction that carries its key pair's public key and the pair's signature of its payload
  -- passes the check exactly if its sender is the address of that key.
  pub verify_transaction_signature-sign_message :
      (tx : Transaction) (keys : VeloKeyPair scheme)
      → IsPair scheme keys.public_key keys.secret_key
      → tx.public_key ≡ public_key_bytes scheme keys
      → tx.signature ≡ sign_message scheme (transaction_payload tx) keys.secret_key
      → verify_transaction_signature scheme sha3 tx.sender tx.recipient tx.amount tx.nonce
          tx.public_key tx.signature
        ≡ (derive_address scheme sha3 keys.public_key == tx.sender)
  unfolding verify_transaction_signature public_key_bytes sign_message transaction_payload
  verify_transaction_signature-sign_message tx keys pair at_key at_signature = ground (
    arith,
    at_key,
    at_signature,
    pair.parses_key,
    pair.parses_signature (transaction_payload tx),
    pair.verifies (transaction_payload tx),
  )

-- A key pair that is written out and read back is the same.
pub from_bytes-public_key_bytes :
    (scheme : Scheme) (keys : VeloKeyPair scheme)
    → IsPair scheme keys.public_key keys.secret_key
    → from_bytes scheme (public_key_bytes scheme keys) (secret_key_bytes scheme keys) ≡ some keys
unfolding from_bytes public_key_bytes secret_key_bytes
from_bytes-public_key_bytes scheme keys pair =
    rw (pair.parses_key, pair.parses_secret, from_bytes) refl
