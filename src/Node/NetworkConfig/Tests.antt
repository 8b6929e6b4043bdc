-- ===== src/Node/NetworkConfig/Tests.antt =====
-- A signed configuration, in a toy scheme of signatures.
use velodag_core.Prelude.{◌≡◌, refl, true, none, some, [], ◌∷◌, arith, length, ok, err, ap}
use velodag_core.Types.{Bytes}
use velodag_core.Fixtures.{toy_sha3}
use velodag_core.Node.HexSamples.{toy_hex, toy_hex-ReadsBack, toy_hex-PrintsSome}
use velodag_core.Node.NetworkConfig.{
  BootstrapConfig, Ed25519, ConfigJson, with_signature, load_bootstrap_config, config_or_default,
  resolve_network_environment, resolve_network_id, to_ascii_lowercase, lower_char,
}
use velodag_core.Node.NetworkConfig.Signatures.{IsKey, load_bootstrap_config-any_key}

lowered : resolve_network_id (resolve_network_environment (some "TestNet")) ≡ 2
unfolding resolve_network_id resolve_network_environment to_ascii_lowercase lower_char
lowered = refl

-- 32 bytes for the one key, one byte for each signature.
abbrev toy_key : Bytes
toy_key =
    1 ∷ 2 ∷ 3 ∷ 4 ∷ 5 ∷ 6 ∷ 7 ∷ 8 ∷ 1 ∷ 2 ∷ 3 ∷ 4 ∷ 5 ∷ 6 ∷ 7 ∷ 8 ∷ 1 ∷ 2 ∷ 3 ∷ 4 ∷ 5 ∷ 6 ∷ 7 ∷ 8
    ∷ 1 ∷ 2 ∷ 3 ∷ 4 ∷ 5 ∷ 6 ∷ 7 ∷ 8 ∷ []

abbrev toy_ed : Ed25519
toy_ed = record {
  SigningKey = Unit;
  VerifyingKey = Unit;
  Signature = Unit;
  verifying_key = λ k. k;
  key_to_bytes = λ k. toy_key;
  key_from_bytes = λ b. some tt;
  sign = λ m k. tt;
  signature_to_bytes = λ s. 9 ∷ [];
  signature_from_slice = λ b. some tt;
  verify = λ k m s. true;
}

toy_ed-IsKey : IsKey toy_ed tt
toy_ed-IsKey = record {
  key_length = refl;
  key_bytes = ground arith;
  reads_key = refl;
  signature_bytes = λ m. (omega arith, tt);
  signature_some = λ m e. absurd (omega (arith, ap length e));
  reads_signature = λ m. refl;
  verifies = λ m. refl;
}

abbrev mainnet_config : BootstrapConfig
mainnet_config = record {
  network = "mainnet";
  network_id = 3;
  genesis_hash = "";
  seeds = [];
  signing_key = "";
  signature = "";
}

abbrev toy_json : ConfigJson
toy_json = record {
  to_vec = λ c. [];
  from_str = λ text. ok (
      with_signature (record { to_vec = λ c. []; from_str = λ t. err t }) toy_hex toy_ed tt
        mainnet_config);
}

signed_text :
    toy_json.from_str "text" ≡ ok (with_signature toy_json toy_hex toy_ed tt mainnet_config)
unfolding with_signature
signed_text = refl

-- A mainnet file is taken for devnet.
load_bootstrap_config-any_key_example :
    load_bootstrap_config toy_sha3 toy_hex toy_json toy_ed
      (λ p. some "text")
      (some "a.json")
      "devnet"
    ≡ ok (with_signature toy_json toy_hex toy_ed tt mainnet_config)
load_bootstrap_config-any_key_example =
    load_bootstrap_config-any_key toy_json toy_hex toy_ed toy_hex-ReadsBack toy_hex-PrintsSome
      toy_sha3 (λ p. some "text") "a.json" "text" "devnet" tt mainnet_config toy_ed-IsKey refl
      signed_text

abbrev chosen : BootstrapConfig
chosen = config_or_default toy_sha3 toy_hex toy_json toy_ed (λ p. some "text") none "devnet"
