-- ===== src/Node/Wallet.antt =====
-- vdag-node/src/wallet.rs: the encrypted wallet file, and the transfers that it signs. The files, the
-- password hash with its cipher, JSON and hexadecimal text are parameters, and so are the random
-- bytes and keys that a call draws.
mod Outside
pub mod Sealing
pub mod Files
pub mod Transfers
mod Tests
use Prim.Native.String.{String}
use Prim.Native.Char.{code}
use velodag_core.Prelude.{
  ℕ, Bool, true, false, not, ◌&&◌, Option, none, some, List, [], ◌∷◌, ◌==◌, if◌then◌else◌, Result,
  ok, err,
}
use velodag_core.Types.{Hash, Bytes, Transaction}
use velodag_core.Block.{transaction_payload, hash_bytes}
use velodag_core.Crypto.{
  Scheme, VeloKeyPair, public_key_bytes, secret_key_bytes, from_bytes, sign_message, derive_address,
}
use velodag_core.Node.Hex.{Hex, to_array}
use velodag_core.Node.Rpc.{SubmitTransactionParams}
pub use velodag_core.Node.Wallet.Outside.{
  WalletFile, WalletPayload, Fs, Vault, WalletJson, WalletError, io, already_exists,
  unsupported_version, no_password, key_derivation_failed, encryption_failed, decryption_failed,
  bad_json, bad_hex, bad_keys, bad_address, Tools, Entropy,
}

-- `value.strip_prefix("0x").unwrap_or(value)`
unfoldable pub strip_0x : String → String
strip_0x (String.◌∷◌ a (String.◌∷◌ b rest)) =
    if code a == 48 && code b == 120 then rest else String.◌∷◌ a (String.◌∷◌ b rest)
strip_0x text = text

module _ (tools : Tools) where
  abbrev pub Error : Type 0
  Error = WalletError (tools.fs.Fault)

  -- `e?` on a pure result, and `o.ok_or(e)?`.
  abbrev pub and_then : {A B : Type 0} → Result Error A → (A → Result Error B) → Result Error B
  and_then (err e) f = err e
  and_then (ok a) f = f a

  abbrev pub required : {A : Type 0} → Option A → Error → Result Error A
  required none e = err e
  required (some a) e = ok a

  unfoldable pub encrypt : WalletPayload → String → Bytes → Bytes → Result Error WalletFile
  encrypt payload password salt nonce =
      and_then (required (tools.vault.hash_password password salt) key_derivation_failed) λ key.
        and_then (required (tools.json.payload_to_vec payload) bad_json) λ plaintext.
          and_then (required (tools.vault.encrypt_bytes key nonce plaintext) encryption_failed)
            λ ciphertext. ok (record {
              version = 1;
              salt = tools.hex.encode salt;
              nonce = tools.hex.encode nonce;
              ciphertext = tools.hex.encode ciphertext;
            })

  unfoldable pub decrypt : WalletFile → String → Result Error WalletPayload
  decrypt wallet password =
      if not (wallet.version == 1)
      then err (unsupported_version wallet.version)
      else and_then (required (tools.hex.decode wallet.salt) bad_hex) λ salt.
        and_then (required (tools.hex.decode wallet.nonce) bad_hex) λ nonce.
          and_then (required (tools.hex.decode wallet.ciphertext) bad_hex) λ ciphertext.
            and_then (required (tools.vault.hash_password password salt) key_derivation_failed)
              λ key.
                and_then
                  (required (tools.vault.decrypt_bytes key nonce ciphertext) decryption_failed)
                  λ plaintext. required (tools.json.payload_from_slice plaintext) bad_json

  -- The bytes of a new wallet file: the payload, its encryption and its JSON.
  unfoldable pub seal : Entropy (tools.scheme) → Result Error Bytes
  seal drawn =
      let payload : WalletPayload = record {
        public_key = tools.hex.encode (public_key_bytes tools.scheme drawn.keys);
        secret_key = tools.hex.encode (secret_key_bytes tools.scheme drawn.keys);
      } in
      and_then (required tools.password_variable no_password) λ password.
        and_then (encrypt payload password drawn.salt drawn.nonce)
          λ wallet. required (tools.json.wallet_to_vec wallet) bad_json

  -- Without a version the file is read as a payload in plain text.
  unfoldable pub payload_of : tools.json.Value → Result Error WalletPayload
  payload_of value =
      if tools.json.has_version value
      then (and_then (required (tools.json.wallet_of_value value) bad_json) λ wallet.
          and_then (required tools.password_variable no_password)
            λ password. decrypt wallet password)
      else required (tools.json.payload_of_value value) bad_json

  -- `load` behind the reading of the file.
  unfoldable pub open_bytes : Bytes → Result Error (VeloKeyPair (tools.scheme))
  open_bytes bytes = and_then (required (tools.json.from_slice bytes) bad_json) λ value.
      and_then (payload_of value) λ payload.
        and_then (required (tools.hex.decode payload.public_key) bad_hex) λ public_key.
          and_then (required (tools.hex.decode payload.secret_key) bad_hex)
            λ secret_key. required (from_bytes tools.scheme public_key secret_key) bad_keys

  unfoldable pub load : String → tools.fs.Disk → Result Error (VeloKeyPair (tools.scheme))
  load path disk = elim (tools.fs.read path disk) [
    | err e ↦ err (io e)
    | ok bytes ↦ open_bytes bytes
  ]

  abbrev pub Changed : Type 0 → Type 0
  Changed A = tools.fs.Disk × Result Error A

  -- A call on the disk, and what follows if it succeeds.
  abbrev pub then_do :
      {A : Type 0}
      → tools.fs.Disk × Result (tools.fs.Fault) Unit
      → (tools.fs.Disk → Changed A)
      → Changed A
  then_do (disk, err e) rest = (disk, err (io e))
  then_do (disk, ok _) rest = rest disk

  -- `std::fs::write(path, …)?; set_private_permissions(path)?`
  unfoldable pub write_private : String → Bytes → tools.fs.Disk → Changed Unit
  write_private path bytes disk =
      then_do (tools.fs.write path bytes disk)
        λ written. then_do (tools.fs.set_permissions path written) λ done. (done, ok tt)

  -- A new wallet at a path; the result is the key pair.
  unfoldable pub generate_at :
      String → Entropy (tools.scheme) → tools.fs.Disk → Changed (VeloKeyPair (tools.scheme))
  generate_at path drawn disk = elim (seal drawn) [
    | err e ↦ (disk, err e)
    | ok bytes ↦
        let written = write_private path bytes disk in
        (written.0, elim written.1 [ err e ↦ err e | ok _ ↦ ok drawn.keys ])
  ]

  unfoldable pub create :
      String → Entropy (tools.scheme) → tools.fs.Disk → Changed (VeloKeyPair (tools.scheme))
  create path drawn disk =
      if tools.fs.exists path disk
      then (disk, err (already_exists path))
      else generate_at path drawn disk

  unfoldable pub load_or_create :
      String → Entropy (tools.scheme) → tools.fs.Disk → Changed (VeloKeyPair (tools.scheme))
  load_or_create path drawn disk =
      if tools.fs.exists path disk then (disk, load path disk) else generate_at path drawn disk

  -- What `address` and `verify` print.
  unfoldable pub address : String → tools.fs.Disk → Result Error Hash
  address path disk =
      and_then (load path disk) λ keys. ok (derive_address tools.scheme tools.sha3 keys.public_key)

  unfoldable pub copy_private : String → String → tools.fs.Disk → Changed Unit
  copy_private source destination disk =
      then_do (tools.fs.copy source destination disk)
        λ copied. then_do (tools.fs.set_permissions destination copied) λ done. (done, ok tt)

  unfoldable pub backup : String → String → tools.fs.Disk → Changed Unit
  backup source destination disk = elim (load source disk) [
    | err e ↦ (disk, err e)
    | ok _ ↦
        if tools.fs.exists destination disk
        then (disk, err (already_exists destination))
        else copy_private source destination disk
  ]

  -- A restored wallet is loaded once more at the end.
  unfoldable pub restore : String → String → tools.fs.Disk → Changed Unit
  restore backup_path destination disk =
      let copied = backup backup_path destination disk in
      elim copied.1 [
        | err e ↦ (copied.0, err e)
        | ok _ ↦ (copied.0, and_then (load destination copied.0) λ keys. ok tt)
      ]

  unfoldable pub parse_address : String → Result Error Hash
  parse_address value =
      and_then (required (tools.hex.decode (strip_0x value)) bad_hex)
        λ bytes. required (to_array bytes) bad_address

  -- The signed transaction of `sign_transfer` and `submit`.
  unfoldable pub sign_with : VeloKeyPair (tools.scheme) → Hash → ℕ → ℕ → Transaction
  sign_with keys recipient amount nonce =
      let unsigned : Transaction = record {
        sender = derive_address tools.scheme tools.sha3 keys.public_key;
        recipient = recipient;
        amount = amount;
        nonce = nonce;
        public_key = public_key_bytes tools.scheme keys;
        signature = [];
      } in
      record unsigned {
        signature = sign_message tools.scheme (transaction_payload unsigned) keys.secret_key;
      }

  unfoldable pub sign_transfer : String → String → ℕ → ℕ → tools.fs.Disk → Result Error Transaction
  sign_transfer path recipient amount nonce disk =
      and_then (load path disk)
        λ keys. and_then (parse_address recipient) λ to. ok (sign_with keys to amount nonce)

  -- The parameters of the request that `submit` sends.
  unfoldable pub submit_params :
      String → String → ℕ → ℕ → tools.fs.Disk → Result Error SubmitTransactionParams
  submit_params path recipient amount nonce disk = and_then (load path disk) λ keys.
      and_then (parse_address recipient) λ to.
        let transaction = sign_with keys to amount nonce in
        ok (record {
          sender = tools.hex.encode (hash_bytes transaction.sender);
          recipient = tools.hex.encode (hash_bytes transaction.recipient);
          amount = transaction.amount;
          nonce = transaction.nonce;
          public_key = tools.hex.encode transaction.public_key;
          signature = tools.hex.encode transaction.signature;
        })
