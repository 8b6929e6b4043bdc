-- ===== src/Node/Wallet/Outside.antt =====
-- vdag-node/src/wallet.rs: the files of a wallet, and what the wallet takes from outside.
use Prim.Native.String.{String}
use velodag_core.Prelude.{ℕ, Bool, Option, Result}
use velodag_core.Types.{Hash, Bytes}
use velodag_core.Crypto.{Scheme, VeloKeyPair}
use velodag_core.Node.Hex.{Hex}

pub record WalletFile : Type 0 where
  pub version : ℕ
  pub salt : String
  pub nonce : String
  pub ciphertext : String

pub record WalletPayload : Type 0 where
  pub public_key : String
  pub secret_key : String

-- `std::fs` on one disk.
pub record Fs : Type 1 where
  pub Disk : Type 0
  pub Fault : Type 0
  pub exists : String → Disk → Bool
  pub read : String → Disk → Result Fault Bytes
  pub write : String → Bytes → Disk → Disk × Result Fault Unit
  pub copy : String → String → Disk → Disk × Result Fault Unit
  pub set_permissions : String → Disk → Disk × Result Fault Unit

-- Argon2, and ChaCha20-Poly1305 under a key and a nonce.
pub record Vault : Type 0 where
  pub hash_password : String → Bytes → Option Bytes
  pub encrypt_bytes : Bytes → Bytes → Bytes → Option Bytes
  pub decrypt_bytes : Bytes → Bytes → Bytes → Option Bytes

-- `serde_json` on wallets; `has_version` is `value.get("version").is_some()`.
pub record WalletJson : Type 1 where
  pub Value : Type 0
  pub from_slice : Bytes → Option Value
  pub has_version : Value → Bool
  pub wallet_of_value : Value → Option WalletFile
  pub payload_of_value : Value → Option WalletPayload
  pub wallet_to_vec : WalletFile → Option Bytes
  pub payload_to_vec : WalletPayload → Option Bytes
  pub payload_from_slice : Bytes → Option WalletPayload

pub data WalletError (Fault : Type 0) : Type 0 where
  io : Fault → WalletError Fault
  already_exists : String → WalletError Fault
  unsupported_version : ℕ → WalletError Fault
  no_password key_derivation_failed encryption_failed decryption_failed : WalletError Fault
  bad_json bad_hex bad_keys bad_address : WalletError Fault

-- All that the wallet takes from outside, and the value of `VDAG_WALLET_PASSWORD`.
pub record Tools : Type 1 where
  pub fs : Fs
  pub vault : Vault
  pub json : WalletJson
  pub hex : Hex
  pub scheme : Scheme
  pub sha3 : Bytes → Hash
  pub password_variable : Option String

-- What a call draws at random.
pub record Entropy (scheme : Scheme) : Type 0 where
  pub keys : VeloKeyPair scheme
  pub salt : Bytes
  pub nonce : Bytes
