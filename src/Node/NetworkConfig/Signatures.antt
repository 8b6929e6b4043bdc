-- ===== src/Node/NetworkConfig/Signatures.antt =====
-- Which configurations are taken, and by whose signature.
use Prim.Native.String.{String}
use text.Mathlib.Text.{◌==◌ as str_eq}
use text.Mathlib.TextEquality.{eq_iff}
use velodag_core.Prelude.{
  ◌≡◌, ◌≢◌, sym, ap, ◌∙◌, ◌⊎◌, inl, inr, true, false, Option, some, [], arith, length, ok,
  Option-cases, Result-cases, Bool-cases,
}
use velodag_core.Types.{Hash, Bytes}
use velodag_core.Node.Hex.{Hex, AreBytes, ReadsBack}
use velodag_core.Node.NetworkConfig.{
  BootstrapConfig, Ed25519, ConfigJson, is_empty, canonical_payload, verify_signature,
  with_signature, default_bootstrap_config, bootstrap_config_path, load_bootstrap_config_from_path,
  load_bootstrap_config, config_or_default,
}

-- What is documented of the signatures, for one key: keys and signatures are bytes that are read back,
-- a key has 32 of them, a signature some, and what the key signs verifies.
pub record IsKey (ed : Ed25519) (sk : ed.SigningKey) : Type 0 where
  pub key_length : length (ed.key_to_bytes (ed.verifying_key sk)) ≡ 32
  pub key_bytes : AreBytes (ed.key_to_bytes (ed.verifying_key sk))
  pub reads_key :
      ed.key_from_bytes (ed.key_to_bytes (ed.verifying_key sk)) ≡ some (ed.verifying_key sk)
  pub signature_bytes : (m : Bytes) → AreBytes (ed.signature_to_bytes (ed.sign m sk))
  pub signature_some : (m : Bytes) → ed.signature_to_bytes (ed.sign m sk) ≢ []
  pub reads_signature :
      (m : Bytes)
      → ed.signature_from_slice (ed.signature_to_bytes (ed.sign m sk)) ≡ some (ed.sign m sk)
  pub verifies : (m : Bytes) → ed.verify (ed.verifying_key sk) m (ed.sign m sk) ≡ true

-- The text of no bytes is empty, and that of some is not.
abbrev pub PrintsSome : Hex → Type 0
PrintsSome hex = (bytes : Bytes) → hex.encode bytes ≡ "" → bytes ≡ []

module _ (json : ConfigJson) (hex : Hex) (ed : Ed25519) (back : ReadsBack hex)
    (prints : PrintsSome hex) where
  encode-IsNonempty : (bytes : Bytes) → bytes ≢ [] → is_empty (hex.encode bytes) ≡ false
  unfolding is_empty
  encode-IsNonempty bytes filled = elim (Bool-cases (str_eq (hex.encode bytes) "")) [
    | inl blank ↦ absurd (filled (prints bytes ((eq_iff (hex.encode bytes) "").0 blank)))
    | inr fine ↦ fine
  ]

  -- A configuration verifies after `with_signature`, whatever key and signature it had before.
  pub verify_signature-with_signature :
      (sk : ed.SigningKey) (config : BootstrapConfig)
      → IsKey ed sk
      → verify_signature json hex ed (with_signature json hex ed sk config) ≡ true
  unfolding verify_signature with_signature canonical_payload
  verify_signature-with_signature sk config k =
      let payload = canonical_payload json config in
      let key = ed.key_to_bytes (ed.verifying_key sk) in
      let sig = ed.signature_to_bytes (ed.sign payload sk) in
      let key_some : key ≢ [] = λ e. absurd (omega (arith, k.key_length, ap length e)) in
      ground (
        arith,
        encode-IsNonempty key key_some,
        encode-IsNonempty sig (k.signature_some payload),
        back key k.key_bytes,
        back sig (k.signature_bytes payload),
        k.key_length,
        k.reads_key,
        k.reads_signature payload,
        k.verifies payload,
      )

  -- A file with a configuration of any network is taken for every network, whoever's key has signed
  -- it: neither the network, its number nor the genesis hash is compared with the node's.
  pub load_bootstrap_config-any_key :
      (sha3 : Bytes → Hash) (files : String → Option String) (path contents network_name : String)
      (sk : ed.SigningKey) (config : BootstrapConfig)
      → IsKey ed sk
      → files path ≡ some contents
      → json.from_str contents ≡ ok (with_signature json hex ed sk config)
      → load_bootstrap_config sha3 hex json ed files (some path) network_name
        ≡ ok (with_signature json hex ed sk config)
  unfolding load_bootstrap_config load_bootstrap_config_from_path bootstrap_config_path
  load_bootstrap_config-any_key sha3 files path contents network_name sk config k there read =
      ground (arith, there, read, verify_signature-with_signature sk config k)

-- What the node goes by is the default of its network or a configuration whose signature verifies; the
-- second only if the file can be read and parsed to it.
pub config_or_default-Verified :
    (json : ConfigJson) (hex : Hex) (ed : Ed25519) (sha3 : Bytes → Hash)
    (files : String → Option String) (variable : Option String) (network_name : String)
    → let chosen = config_or_default sha3 hex json ed files variable network_name in
      (chosen ≡ default_bootstrap_config sha3 hex network_name)
      ⊎ (verify_signature json hex ed chosen ≡ true)
        × (contents : String) × (files (bootstrap_config_path variable network_name)
            ≡ some contents)
        × (json.from_str contents ≡ ok chosen)
unfolding config_or_default load_bootstrap_config load_bootstrap_config_from_path
config_or_default-Verified json hex ed sha3 files variable network_name =
    let path = bootstrap_config_path variable network_name in
    elim (Option-cases (files path)) [
      | inl missing ↦ inl (ground (arith, missing))
      | inr (contents, there) ↦ elim (Result-cases (json.from_str contents)) [
        | inr (text, bad) ↦ inl (ground (arith, there, bad))
        | inl (config, read) ↦ elim (Bool-cases (verify_signature json hex ed config)) [
          | inr forged ↦ inl (ground (arith, there, read, forged))
          | inl good ↦
              let taken : config_or_default sha3 hex json ed files variable network_name ≡ config =
                ground (arith, there, read, good) in
              inr (
                ap (verify_signature json hex ed) taken ∙ good,
                contents,
                there,
                read ∙ ap ok (sym taken),
              )
        ]
      ]
    ]
