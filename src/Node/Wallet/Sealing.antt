-- ===== src/Node/Wallet/Sealing.antt =====
-- What was sealed with a password is opened with it.
use Prim.Native.String.{String}
use velodag_core.Prelude.{◌≡◌, true, some, arith, ok, Result-cases, Option-cases, inl, inr}
use velodag_core.Types.{Bytes}
use velodag_core.Crypto.{public_key_bytes, secret_key_bytes}
use velodag_core.Crypto.Signing.{IsPair, from_bytes-public_key_bytes}
use velodag_core.Node.Hex.{AreBytes, ReadsBack}
use velodag_core.Node.Wallet.{
  WalletFile, WalletPayload, Tools, Entropy, encrypt, decrypt, seal, payload_of, open_bytes,
}

module _ (tools : Tools) where
  -- What is documented of the cipher, JSON and hexadecimal text: what they write they read.
  pub record ReadsWallets : Type 0 where
    pub reads_hex : ReadsBack tools.hex
    pub decrypts :
        (key nonce plaintext ciphertext : Bytes)
        → tools.vault.encrypt_bytes key nonce plaintext ≡ some ciphertext
        → (tools.vault.decrypt_bytes key nonce ciphertext ≡ some plaintext) × AreBytes ciphertext
    pub reads_payload :
        (payload : WalletPayload) (bytes : Bytes)
        → tools.json.payload_to_vec payload ≡ some bytes
        → tools.json.payload_from_slice bytes ≡ some payload
    pub reads_wallet :
        (wallet : WalletFile) (bytes : Bytes)
        → tools.json.wallet_to_vec wallet ≡ some bytes
        → (value : tools.json.Value) × (tools.json.from_slice bytes ≡ some value)
          × (tools.json.has_version value ≡ true)
          × (tools.json.wallet_of_value value ≡ some wallet)

  -- What is drawn is bytes, and a key pair that prints as bytes.
  pub record IsDrawn (drawn : Entropy (tools.scheme)) : Type 0 where
    pub salt : AreBytes drawn.salt
    pub nonce : AreBytes drawn.nonce
    pub public_key : AreBytes (public_key_bytes tools.scheme drawn.keys)
    pub secret_key : AreBytes (secret_key_bytes tools.scheme drawn.keys)
    pub pair : IsPair tools.scheme (drawn.keys.public_key) (drawn.keys.secret_key)

  -- A wallet that was encrypted, and from what.
  record Encrypted (payload : WalletPayload) (password : String) (salt nonce : Bytes)
      (wallet : WalletFile) : Type 0 where
    key : Bytes
    plaintext : Bytes
    ciphertext : Bytes
    hashed : tools.vault.hash_password password salt ≡ some key
    printed : tools.json.payload_to_vec payload ≡ some plaintext
    encrypted : tools.vault.encrypt_bytes key nonce plaintext ≡ some ciphertext
    shape : wallet ≡ record {
      version = 1;
      salt = tools.hex.encode salt;
      nonce = tools.hex.encode nonce;
      ciphertext = tools.hex.encode ciphertext;
    }

  encrypt-Encrypted :
      (payload : WalletPayload) (password : String) (salt nonce : Bytes) (wallet : WalletFile)
      → encrypt tools payload password salt nonce ≡ ok wallet
      → Encrypted payload password salt nonce wallet
  unfolding encrypt
  encrypt-Encrypted payload password salt nonce wallet done =
      elim (Option-cases (tools.vault.hash_password password salt)) [
        | inl no_key ↦ absurd (ground (arith, done, no_key))
        | inr (key, hashed) ↦ elim (Option-cases (tools.json.payload_to_vec payload)) [
          | inl no_text ↦ absurd (ground (arith, done, hashed, no_text))
          | inr (plaintext, printed) ↦
              elim (Option-cases (tools.vault.encrypt_bytes key nonce plaintext)) [
                | inl no_cipher ↦ absurd (ground (arith, done, hashed, printed, no_cipher))
                | inr (ciphertext, encrypted) ↦ record {
                  key = key;
                  plaintext = plaintext;
                  ciphertext = ciphertext;
                  hashed = hashed;
                  printed = printed;
                  encrypted = encrypted;
                  shape = ground (arith, done, hashed, printed, encrypted);
                }
              ]
        ]
      ]

  module _ (reads : ReadsWallets) where
    decrypt-encrypt :
        (payload : WalletPayload) (password : String) (salt nonce : Bytes) (wallet : WalletFile)
        → AreBytes salt
        → AreBytes nonce
        → encrypt tools payload password salt nonce ≡ ok wallet
        → decrypt tools wallet password ≡ ok payload
    unfolding decrypt
    decrypt-encrypt payload password salt nonce wallet hs hn done =
        let e = encrypt-Encrypted payload password salt nonce wallet done in
        let (decrypted, bytes) = reads.decrypts e.key nonce e.plaintext e.ciphertext e.encrypted in
        ground (
          arith,
          e.shape,
          reads.reads_hex salt hs,
          reads.reads_hex nonce hn,
          reads.reads_hex e.ciphertext bytes,
          e.hashed,
          decrypted,
          reads.reads_payload payload e.plaintext e.printed,
        )

    -- What is sealed is opened to the same keys.
    pub open_bytes-seal :
        (drawn : Entropy (tools.scheme)) (bytes : Bytes)
        → IsDrawn drawn
        → seal tools drawn ≡ ok bytes
        → open_bytes tools bytes ≡ ok drawn.keys
    unfolding seal open_bytes payload_of
    open_bytes-seal drawn bytes d done =
        let payload : WalletPayload = record {
          public_key = tools.hex.encode (public_key_bytes tools.scheme drawn.keys);
          secret_key = tools.hex.encode (secret_key_bytes tools.scheme drawn.keys);
        } in
        elim (Option-cases tools.password_variable) [
          | inl unset ↦ absurd (ground (arith, done, unset))
          | inr (password, set) ↦
              elim (Result-cases (encrypt tools payload password drawn.salt drawn.nonce)) [
                | inr (e, failed) ↦ absurd (ground (arith, done, set, failed))
                | inl (wallet, made) ↦
                    let printed : tools.json.wallet_to_vec wallet ≡ some bytes =
                      ground (arith, done, set, made) in
                    let (value, parsed, versioned, read) =
                      reads.reads_wallet wallet bytes printed in
                    ground (
                      arith,
                      set,
                      parsed,
                      versioned,
                      read,
                      decrypt-encrypt payload password drawn.salt drawn.nonce wallet d.salt d.nonce
                          made,
                      reads.reads_hex (public_key_bytes tools.scheme drawn.keys) d.public_key,
                      reads.reads_hex (secret_key_bytes tools.scheme drawn.keys) d.secret_key,
                      from_bytes-public_key_bytes tools.scheme drawn.keys d.pair,
                    )
              ]
        ]
