-- ===== src/Node/Wallet/Transfers.antt =====
-- The transfer that a wallet submits is the one that the RPC server builds.
use Prim.Native.String.{String}
use velodag_core.Prelude.{ℕ, ◌≡◌, ◌≢◌, refl, true, arith, ok}
use velodag_core.Types.{Hash, Transaction}
use velodag_core.Block.{transaction_payload}
use velodag_core.Block.Encoding.{FitsFields}
use velodag_core.Crypto.{VeloKeyPair, verify_transaction_signature}
use velodag_core.Crypto.Signing.{IsPair}
use velodag_core.Node.Hex.{AreBytes, ReadsBack}
use velodag_core.Node.Rpc.{SubmitTransactionParams, build_transaction}
use velodag_core.Node.Rpc.Submission.Building.{
  params_of, build_transaction-params_of, build_transaction-good,
}
use velodag_core.Node.Wallet.{Tools, load, parse_address, sign_with, submit_params, sign_transfer}

module _ (tools : Tools) where
  -- For a positive amount, a recipient that parses, and keys that load and are a pair of the signature
  -- scheme, where the transaction's fields fit their types, its key and signature are bytes, and
  -- hexadecimal text reads back, the parameters that `submit` sends make the server build exactly the
  -- transaction that `sign_transfer` prints, and its signature verifies.
  pub build_transaction-submit_params :
      (path recipient : String) (amount nonce : ℕ) (disk : tools.fs.Disk)
      (keys : VeloKeyPair (tools.scheme)) (to : Hash)
      → load tools path disk ≡ ok keys
      → parse_address tools recipient ≡ ok to
      → IsPair tools.scheme keys.public_key keys.secret_key
      → ReadsBack tools.hex
      → FitsFields (sign_with tools keys to amount nonce)
      → AreBytes (sign_with tools keys to amount nonce).public_key
        × AreBytes (sign_with tools keys to amount nonce).signature
      → amount ≢ 0
      → (params : SubmitTransactionParams) × (submit_params tools path recipient amount nonce disk
          ≡ ok params)
        × (tx : Transaction) × (sign_transfer tools path recipient amount nonce disk ≡ ok tx)
        × (build_transaction tools.hex tools.scheme tools.sha3 params ≡ ok tx)
        × (verify_transaction_signature tools.scheme tools.sha3 tx.sender tx.recipient tx.amount
              tx.nonce tx.public_key tx.signature
            ≡ true)
  unfolding submit_params sign_transfer sign_with transaction_payload
  build_transaction-submit_params path recipient amount nonce disk keys to loaded parsed pair back
        fits bytes positive =
      let tx = sign_with tools keys to amount nonce in
      let built =
        build_transaction-params_of tools.hex tools.scheme tools.sha3 tx keys back pair fits bytes
          positive refl refl refl in
      let good =
        build_transaction-good tools.hex tools.scheme tools.sha3 (params_of tools.hex tx) tx
          built in
      (
        params_of tools.hex tx,
        ground (arith, loaded, parsed),
        tx,
        ground (arith, loaded, parsed),
        built,
        ground (arith, good),
      )
