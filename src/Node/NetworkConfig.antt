-- ===== src/Node/NetworkConfig.antt =====
-- vdag-node/src/network_config.rs: which network a node joins, and its signed list of seeds. Ed25519,
-- the JSON text of a configuration and the files are parameters.
pub mod Signatures
mod Tests
use Prim.Native.String.{String, char_at, ◌++◌ as str_append}
use Prim.Native.Char.{Char, code}
use text.Mathlib.Text.{◌==◌ as str_eq}
use velodag_core.Prelude.{
  ℕ, ◌+◌, ◌-◌, Bool, true, false, ◌&&◌, ◌||◌, Option, none, some, List, [], ◌∷◌, ◌==◌, leb,
  if◌then◌else◌, length, Result, ok, err,
}
use velodag_core.Types.{Hash, Bytes, devnet_network_id, testnet_network_id, mainnet_network_id}
use velodag_core.Block.{fixed_genesis_hash_for_network, hash_bytes}
use velodag_core.Node.Hex.{Hex}

pub record BootstrapConfig : Type 0 where
  pub network : String
  pub network_id : ℕ
  pub genesis_hash : String
  pub seeds : List String
  pub signing_key : String
  pub signature : String

-- What the code takes from `ed25519_dalek`; a verifying key is read from 32 bytes.
pub record Ed25519 : Type 1 where
  pub SigningKey : Type 0
  pub VerifyingKey : Type 0
  pub Signature : Type 0
  pub verifying_key : SigningKey → VerifyingKey
  pub key_to_bytes : VerifyingKey → Bytes
  pub key_from_bytes : Bytes → Option VerifyingKey
  pub sign : Bytes → SigningKey → Signature
  pub signature_to_bytes : Signature → Bytes
  pub signature_from_slice : Bytes → Option Signature
  pub verify : VerifyingKey → Bytes → Signature → Bool

-- `serde_json` on configurations; writing one does not fail.
pub record ConfigJson : Type 0 where
  pub to_vec : BootstrapConfig → Bytes
  pub from_str : String → Result String BootstrapConfig

pub data ConfigError : Type 0 where
  failed_to_parse : String → String → ConfigError
  signature_verification_failed : String → ConfigError

is_empty : String → Bool
is_empty text = str_eq text ""

-- Signature and key are cleared before the configuration is written out.
unfoldable pub canonical_payload : ConfigJson → BootstrapConfig → Bytes
canonical_payload json config = json.to_vec (record config { signing_key = ""; signature = "" })

module _ (json : ConfigJson) (hex : Hex) (ed : Ed25519) where
  -- The key that the configuration itself names verifies its signature.
  unfoldable pub verify_signature : BootstrapConfig → Bool
  unfolding is_empty
  verify_signature config =
      if is_empty config.signing_key || is_empty config.signature
      then false
      else elim (hex.decode config.signing_key) [
        | none ↦ false
        | some signing_key ↦ elim (hex.decode config.signature) [
          | none ↦ false
          | some signature_bytes ↦
              if length signing_key == 32
              then elim (ed.key_from_bytes signing_key) [
                | none ↦ false
                | some verifying_key ↦ elim (ed.signature_from_slice signature_bytes) [
                  | none ↦ false
                  | some signature ↦
                      ed.verify verifying_key (canonical_payload json config) signature
                ]
              ]
              else false
        ]
      ]

  unfoldable pub with_signature : ed.SigningKey → BootstrapConfig → BootstrapConfig
  with_signature secret_key config =
      let keyed = record config {
        signing_key = hex.encode (ed.key_to_bytes (ed.verifying_key secret_key));
      } in
      record keyed {
        signature =
            hex.encode (ed.signature_to_bytes (ed.sign (canonical_payload json keyed) secret_key));
      }

-- `to_ascii_lowercase`
pub lower_char : Char → Char
lower_char c =
    if leb 65 (code c) && leb (code c) 90
    then char_at "abcdefghijklmnopqrstuvwxyz" (code c - 65)
    else c

unfoldable pub to_ascii_lowercase : String → String
unfolding lower_char
to_ascii_lowercase String.[] = String.[]
to_ascii_lowercase (String.◌∷◌ c s) = String.◌∷◌ (lower_char c) (to_ascii_lowercase s)

-- The argument is the value of `VDAG_NETWORK`.
unfoldable pub resolve_network_environment : Option String → String
resolve_network_environment none = to_ascii_lowercase "devnet"
resolve_network_environment (some name) = to_ascii_lowercase name

unfoldable pub resolve_network_id : String → ℕ
resolve_network_id network_name =
    if str_eq network_name "devnet"
    then devnet_network_id
    else if str_eq network_name "testnet"
    then testnet_network_id
    else if str_eq network_name "mainnet"
    then mainnet_network_id
    else devnet_network_id

unfoldable pub default_seeds : String → List String
default_seeds network_name =
    if str_eq network_name "devnet"
    then "/ip4/127.0.0.1/tcp/4001" ∷ []
    else if str_eq network_name "testnet"
    then "/ip4/127.0.0.1/tcp/4001" ∷ "/ip4/127.0.0.1/tcp/4002" ∷ []
    else []

-- The argument is the value of `VDAG_BOOTSTRAP_CONFIG`.
unfoldable pub bootstrap_config_path : Option String → String → String
bootstrap_config_path none network_name = str_append "bootstrap." (str_append network_name ".json")
bootstrap_config_path (some path) network_name = path

module _ (sha3 : Bytes → Hash) where
  unfoldable pub genesis_hash_of_name : String → Hash
  genesis_hash_of_name network_name =
      fixed_genesis_hash_for_network sha3 (resolve_network_id network_name)

  module _ (hex : Hex) where
    unfoldable pub default_bootstrap_config : String → BootstrapConfig
    default_bootstrap_config network_name = record {
      network = network_name;
      network_id = resolve_network_id network_name;
      genesis_hash = hex.encode (hash_bytes (genesis_hash_of_name network_name));
      seeds = default_seeds network_name;
      signing_key = "";
      signature = "";
    }

    module _ (json : ConfigJson) (ed : Ed25519) where
      -- `files` reads a file, if it can be read.
      unfoldable pub load_bootstrap_config_from_path :
          (String → Option String) → String → String → Result ConfigError BootstrapConfig
      load_bootstrap_config_from_path files path network_name = elim (files path) [
        | none ↦ ok (default_bootstrap_config network_name)
        | some contents ↦ elim (json.from_str contents) [
          | err text ↦ err (failed_to_parse path text)
          | ok config ↦
              if verify_signature json hex ed config
              then ok config
              else err (signature_verification_failed path)
        ]
      ]

      unfoldable pub load_bootstrap_config :
          (String → Option String) → Option String → String → Result ConfigError BootstrapConfig
      load_bootstrap_config files variable network_name =
          load_bootstrap_config_from_path files (bootstrap_config_path variable network_name)
            network_name

      -- `unwrap_or_else(|_| default_bootstrap_config(network_name))`
      unfoldable pub config_or_default :
          (String → Option String) → Option String → String → BootstrapConfig
      config_or_default files variable network_name =
          elim (load_bootstrap_config files variable network_name) [
            | err _ ↦ default_bootstrap_config network_name
            | ok config ↦ config
          ]

      unfoldable pub seed_addresses_for_environment :
          (String → Option String) → Option String → String → List String
      seed_addresses_for_environment files variable network_name =
          (config_or_default files variable network_name).seeds
