-- ===== src/Crypto.antt =====
-- vdag-crypto/src/lib.rs: addresses and the verification of signatures. Dilithium is the parameter
-- `scheme`, SHA3-256 the parameter `sha3`.
pub mod Signing
mod Tests
use velodag_core.Prelude.{ℕ, Bool, true, false, Option, none, some, ◌++◌, ◌==◌, if◌then◌else◌}
use velodag_core.Types.{Hash, Bytes}
use velodag_core.Block.{hash_bytes, to_le_bytes}

-- What the code takes from the signature library: the parsers, the bytes of a key, the verification.
pub record Scheme : Type 1 where
  pub PublicKey : Type 0
  pub Signature : Type 0
  pub SecretKey : Type 0
  pub parse_key : Bytes → Option PublicKey
  pub key_bytes : PublicKey → Bytes
  pub parse_secret : Bytes → Option SecretKey
  pub secret_bytes : SecretKey → Bytes
  pub parse_signature : Bytes → Option Signature
  pub signature_bytes : Signature → Bytes
  pub detached_sign : Bytes → SecretKey → Signature
  pub verify_detached : Signature → Bytes → PublicKey → Bool

module _ (scheme : Scheme) where
  pub record VeloKeyPair : Type 0 where
    pub public_key : scheme.PublicKey
    pub secret_key : scheme.SecretKey

  unfoldable pub public_key_bytes : VeloKeyPair → Bytes
  public_key_bytes keys = scheme.key_bytes keys.public_key

  unfoldable pub secret_key_bytes : VeloKeyPair → Bytes
  secret_key_bytes keys = scheme.secret_bytes keys.secret_key

  -- The error's text is left out.
  unfoldable pub from_bytes : Bytes → Bytes → Option VeloKeyPair
  from_bytes public_key secret_key = elim (scheme.parse_key public_key) [
    | none ↦ none
    | some pk ↦ elim (scheme.parse_secret secret_key) [
      | none ↦ none
      | some sk ↦ some (record { public_key = pk; secret_key = sk })
    ]
  ]

  unfoldable pub sign_message : Bytes → scheme.SecretKey → Bytes
  sign_message message sk = scheme.signature_bytes (scheme.detached_sign message sk)

  unfoldable pub verify_signature : Bytes → Bytes → scheme.PublicKey → Bool
  verify_signature message signature_bytes pk = elim (scheme.parse_signature signature_bytes) [
    | none ↦ false
    | some sig ↦ scheme.verify_detached sig message pk
  ]

  module _ (sha3 : Bytes → Hash) where
    unfoldable pub derive_address : scheme.PublicKey → Hash
    derive_address pk = sha3 (scheme.key_bytes pk)

    unfoldable pub verify_transaction_signature : Hash → Hash → ℕ → ℕ → Bytes → Bytes → Bool
    unfolding derive_address verify_signature
    verify_transaction_signature sender recipient amount nonce public_key_bytes signature_bytes =
        elim (scheme.parse_key public_key_bytes) [
          | none ↦ false
          | some public_key ↦
              if derive_address public_key == sender
              then verify_signature
                  (hash_bytes sender
                    ++ (hash_bytes recipient ++ (to_le_bytes 8 amount ++ to_le_bytes 8 nonce)))
                  signature_bytes public_key
              else false
        ]
