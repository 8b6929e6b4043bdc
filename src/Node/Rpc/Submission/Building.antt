-- ===== src/Node/Rpc/Submission/Building.antt =====
-- What `build_transaction` makes of the parameters of a request.
use velodag_core.Prelude.{◌<◌, ◌≡◌, ◌≢◌, Bool, false, not, ◌||◌, arith, ◌==◌, ok}
use Prim.Native.String.{String}
use velodag_core.Types.{Hash, Bytes, Transaction, hash_mod}
use velodag_core.Block.{transaction_payload, hash_bytes}
use velodag_core.Block.Encoding.{FitsFields}
use velodag_core.Crypto.{
  Scheme, VeloKeyPair, public_key_bytes, derive_address, sign_message, verify_transaction_signature,
}
use velodag_core.Crypto.Signing.{IsPair, verify_transaction_signature-sign_message}
use velodag_core.Node.Hex.{Hex, AreBytes, ReadsBack, hash_bytes-AreBytes, to_array-hash_bytes}
use velodag_core.Node.Rpc.{
  SubmitTransactionParams, parse_fixed_bytes, parse_bytes, build_transaction,
}

module _ (scheme : Scheme) (sha3 : Bytes → Hash) where
  -- The transaction's signature does not verify, or its amount is zero.
  abbrev pub is_bad : Transaction → Bool
  is_bad tx =
      tx.amount == 0
      || not (
          verify_transaction_signature scheme sha3 tx.sender tx.recipient tx.amount tx.nonce
            tx.public_key tx.signature)

module _ (hex : Hex) where
  -- What a wallet sends for a transaction: each array of bytes as hexadecimal text.
  abbrev pub params_of : Transaction → SubmitTransactionParams
  params_of tx = record {
    sender = hex.encode (hash_bytes tx.sender);
    recipient = hex.encode (hash_bytes tx.recipient);
    amount = tx.amount;
    nonce = tx.nonce;
    public_key = hex.encode tx.public_key;
    signature = hex.encode tx.signature;
  }

  pub parse_fixed_bytes-encode :
      (h : Hash) (field : String)
      → ReadsBack hex
      → h < hash_mod
      → parse_fixed_bytes hex (hex.encode (hash_bytes h)) field ≡ ok h
  unfolding parse_fixed_bytes
  parse_fixed_bytes-encode h field back fits =
      ground (arith, back (hash_bytes h) (hash_bytes-AreBytes h), to_array-hash_bytes h fits)

module _ (hex : Hex) (scheme : Scheme) (sha3 : Bytes → Hash) where
  -- What is built has a positive amount and a signature that verifies.
  pub build_transaction-good :
      (params : SubmitTransactionParams) (tx : Transaction)
      → build_transaction hex scheme sha3 params ≡ ok tx
      → is_bad scheme sha3 tx ≡ false
  unfolding build_transaction
  build_transaction-good params tx h = ground (arith, h)

  -- The server builds from what a wallet sends exactly the transaction that the wallet signed, if its
  -- amount is positive and its sender is the address of the wallet's key.
  pub build_transaction-params_of :
      (tx : Transaction) (keys : VeloKeyPair scheme)
      → ReadsBack hex
      → IsPair scheme keys.public_key keys.secret_key
      → FitsFields tx
      → AreBytes tx.public_key × AreBytes tx.signature
      → tx.amount ≢ 0
      → tx.sender ≡ derive_address scheme sha3 keys.public_key
      → tx.public_key ≡ public_key_bytes scheme keys
      → tx.signature ≡ sign_message scheme (transaction_payload tx) keys.secret_key
      → build_transaction hex scheme sha3 (params_of hex tx) ≡ ok tx
  unfolding build_transaction parse_bytes
  build_transaction-params_of tx keys back pair fits bytes positive own key signed =
      let verified =
        verify_transaction_signature-sign_message scheme sha3 tx keys pair key signed in
      ground (
        arith,
        positive,
        parse_fixed_bytes-encode hex tx.sender "sender" back fits.sender,
        parse_fixed_bytes-encode hex tx.recipient "recipient" back fits.recipient,
        back tx.public_key bytes.0,
        back tx.signature bytes.1,
        verified,
        own,
      )
