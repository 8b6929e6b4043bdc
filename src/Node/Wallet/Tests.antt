-- ===== src/Node/Wallet/Tests.antt =====
-- A wallet on a toy disk: written, loaded, backed up, and used to sign.
use velodag_core.Block.{to_le_bytes}
use velodag_core.Crypto.{verify_transaction_signature, from_bytes}
use Prim.Native.String.{String}
use text.Mathlib.Text.{◌==◌ as str_eq}
use text.Mathlib.TextEquality.{eq_iff}
use text.Mathlib.TextPositions.{eq_refl}
use velodag_core.Prelude.{
  ◌≡◌, refl, ap, Bool, true, false, ◌&&◌, Option, none, some, [], ◌∷◌, arith, ◌==◌, if◌then◌else◌,
  Result, ok, err,
}
use velodag_core.Types.{Bytes, Transaction}
use velodag_core.Block.{hash_bytes}
use velodag_core.Block.Encoding.{FitsFields}
use velodag_core.Fixtures.{toy_sha3, toy_scheme}
use velodag_core.Crypto.{Scheme, public_key_bytes, secret_key_bytes, derive_address, sign_message}
use velodag_core.Crypto.Signing.{IsPair}
use velodag_core.Node.Hex.{AreBytes, to_array}
use velodag_core.Node.HexSamples.{toy_hex, toy_hex-ReadsBack}
use velodag_core.Node.Rpc.{SubmitTransactionParams, build_transaction}
use velodag_core.Node.Wallet.{
  WalletFile, WalletPayload, Fs, Vault, WalletJson, Tools, Entropy, create, load, load_or_create,
  backup, parse_address, sign_with, submit_params, sign_transfer, strip_0x, seal, encrypt,
  generate_at, write_private, copy_private, open_bytes, payload_of, decrypt,
}
use velodag_core.Node.Wallet.Sealing.{ReadsWallets, IsDrawn}
use velodag_core.Node.Wallet.Files.{KeepsFiles, load-create}
use velodag_core.Node.Wallet.Transfers.{build_transaction-submit_params}

-- A disk as a function from paths to contents.
abbrev Files : Type 0
Files = String → Option Bytes

abbrev holds : Option Bytes → Bool
holds none = false
holds (some _) = true

abbrev read_some : Option Bytes → Result Unit Bytes
read_some none = err tt
read_some (some bytes) = ok bytes

abbrev put_at : String → Option Bytes → Files → Files
put_at path content files asked = if str_eq asked path then content else files asked

abbrev toy_fs : Fs
toy_fs = record {
  Disk = Files;
  Fault = Unit;
  exists = λ path files. holds (files path);
  read = λ path files. read_some (files path);
  write = λ path bytes files. (put_at path (some bytes) files, ok tt);
  copy = λ source destination files. (put_at destination (files source) files, ok tt);
  set_permissions = λ path files. (files, ok tt);
}

-- The stand-in encrypts nothing but the empty text.
abbrev toy_vault : Vault
toy_vault = record {
  hash_password = λ password salt. some salt;
  encrypt_bytes = λ key nonce plaintext. elim plaintext [ [] ↦ some (1 ∷ []) | _ ∷ _ ↦ none ];
  decrypt_bytes = λ key nonce ciphertext. some [];
}

abbrev toy_payload : WalletPayload
toy_payload = record {
  public_key = toy_hex.encode (1 ∷ 2 ∷ []);
  secret_key = toy_hex.encode (3 ∷ []);
}

abbrev toy_wallet : WalletFile
toy_wallet = record {
  version = 1;
  salt = toy_hex.encode (4 ∷ []);
  nonce = toy_hex.encode (5 ∷ []);
  ciphertext = toy_hex.encode (1 ∷ []);
}

-- It writes no other payload and no other wallet than these.
abbrev toy_json : WalletJson
toy_json = record {
  Value = Unit;
  from_slice = λ bytes. some tt;
  has_version = λ value. true;
  wallet_of_value = λ value. some toy_wallet;
  payload_of_value = λ value. none;
  wallet_to_vec = λ w.
      if w.version == 1
        && (str_eq w.salt toy_wallet.salt
            && (str_eq w.nonce toy_wallet.nonce && str_eq w.ciphertext toy_wallet.ciphertext))
      then some (8 ∷ [])
      else none;
  payload_to_vec = λ p.
      if str_eq p.public_key toy_payload.public_key && str_eq p.secret_key toy_payload.secret_key
      then some []
      else none;
  payload_from_slice = λ bytes. some toy_payload;
}

abbrev silent_scheme : Scheme
silent_scheme = record toy_scheme { detached_sign = λ m sk. [] }

abbrev tools : Tools
tools = record {
  fs = toy_fs;
  vault = toy_vault;
  json = toy_json;
  hex = toy_hex;
  scheme = silent_scheme;
  sha3 = toy_sha3;
  password_variable = some "sesame";
}

toy_fs-KeepsFiles : KeepsFiles tools
toy_fs-KeepsFiles = record {
  reads_written =
      λ path bytes disk e. ap (λ c. read_some (if c then some bytes else disk path)) (eq_refl path);
  reads_copied = λ source destination disk e.
      ap (λ c. read_some (if c then disk source else disk destination)) (eq_refl destination);
  keeps_content = λ path asked disk. refl;
}

tools-ReadsWallets : ReadsWallets tools
tools-ReadsWallets = record {
  reads_hex = toy_hex-ReadsBack;
  decrypts = λ key nonce plaintext ciphertext e. ground (arith, e);
  reads_payload = λ payload bytes e. ground (
    arith,
    e,
    eq_iff payload.public_key toy_payload.public_key,
    eq_iff payload.secret_key toy_payload.secret_key,
  );
  reads_wallet = λ wallet bytes e. (
    tt,
    refl,
    refl,
    ground (
      arith,
      e,
      eq_iff wallet.salt toy_wallet.salt,
      eq_iff wallet.nonce toy_wallet.nonce,
      eq_iff wallet.ciphertext toy_wallet.ciphertext,
    ),
  );
}

abbrev drawn : Entropy silent_scheme
drawn = record {
  keys = record { public_key = 1 ∷ 2 ∷ []; secret_key = 3 ∷ [] };
  salt = 4 ∷ [];
  nonce = 5 ∷ [];
}

drawn-IsPair : IsPair silent_scheme (drawn.keys.public_key) (drawn.keys.secret_key)
drawn-IsPair = record {
  parses_key = refl;
  parses_secret = refl;
  parses_signature = λ m. refl;
  verifies = λ m. refl;
}

drawn-IsDrawn : IsDrawn tools drawn
unfolding public_key_bytes secret_key_bytes
drawn-IsDrawn = record {
  salt = (omega arith, tt);
  nonce = (omega arith, tt);
  public_key = (omega arith, (omega arith, tt));
  secret_key = (omega arith, tt);
  pair = drawn-IsPair;
}

abbrev blank : Files
blank = λ path. none

abbrev with_wallet : Files
with_wallet = put_at "a" (some (8 ∷ [])) blank

created : create tools "a" drawn blank ≡ (with_wallet, ok drawn.keys)
unfolding create generate_at seal encrypt public_key_bytes secret_key_bytes write_private
created = refl

created_key : (create tools "a" drawn blank).1 ≡ ok drawn.keys
created_key = ap (λ r. r.1) created

load-create_example :
    (◌≡◌ {A = Bool} false false)
    × (drawn.keys ≡ drawn.keys)
    × (load tools "a" (create tools "a" drawn blank).0 ≡ ok drawn.keys)
load-create_example =
    load-create tools tools-ReadsWallets toy_fs-KeepsFiles "a" drawn blank drawn.keys drawn-IsDrawn
      created_key

remade : load_or_create tools "a" drawn blank ≡ (with_wallet, ok drawn.keys)
unfolding load_or_create generate_at seal encrypt public_key_bytes secret_key_bytes write_private
remade = refl

stands : toy_fs.exists "a" (load_or_create tools "a" drawn blank).0 ≡ true
unfolding load_or_create generate_at seal encrypt public_key_bytes secret_key_bytes write_private
stands = refl

backed_up : (backup tools "a" "b" with_wallet).1 ≡ ok tt
unfolding backup load open_bytes payload_of decrypt from_bytes copy_private
backed_up = refl

loaded : load tools "a" with_wallet ≡ ok drawn.keys
unfolding load open_bytes payload_of decrypt from_bytes
loaded = refl

abbrev bob_text : String
bob_text = String.◌∷◌ "0" (String.◌∷◌ "x" (toy_hex.encode (hash_bytes 2)))

bob_parsed : parse_address tools bob_text ≡ ok 2
unfolding parse_address strip_0x hash_bytes to_le_bytes to_array
bob_parsed = refl

transfer-FitsFields : FitsFields (sign_with tools drawn.keys 2 5 0)
unfolding sign_with derive_address
transfer-FitsFields = record {
  sender = omega arith;
  recipient = omega arith;
  amount = omega arith;
  nonce = omega arith;
}

transfer-AreBytes :
    AreBytes (sign_with tools drawn.keys 2 5 0).public_key
    × AreBytes (sign_with tools drawn.keys 2 5 0).signature
unfolding sign_with public_key_bytes sign_message
transfer-AreBytes = ((omega arith, (omega arith, tt)), tt)

build_transaction-submit_params_example :
    (params : SubmitTransactionParams) × (submit_params tools "a" bob_text 5 0 with_wallet
      ≡ ok params)
    × (tx : Transaction) × (sign_transfer tools "a" bob_text 5 0 with_wallet ≡ ok tx)
    × (build_transaction toy_hex silent_scheme toy_sha3 params ≡ ok tx)
    × (verify_transaction_signature silent_scheme toy_sha3 tx.sender tx.recipient tx.amount tx.nonce
          tx.public_key tx.signature
        ≡ true)
build_transaction-submit_params_example =
    build_transaction-submit_params tools "a" bob_text 5 0 with_wallet drawn.keys 2 loaded
      bob_parsed drawn-IsPair toy_hex-ReadsBack transfer-FitsFields transfer-AreBytes (omega arith)
