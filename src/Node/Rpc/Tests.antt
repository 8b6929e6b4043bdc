-- ===== src/Node/Rpc/Tests.antt =====
-- The RPC server at concrete inputs.
use Prim.Native.String.{String}
use velodag_core.Prelude.{
  ℕ, ◌+◌, ◌*◌, ◌≤◌, ◌<◌, ◌≡◌, ◌≢◌, refl, sym, ap, ◌∙◌, ◌&&◌, ltb, Option, none, some, List, [], ◌∷◌,
  length, arith, if◌then◌else◌, lookup, lookup_or, insert, any_b, contains_key, ok, err,
}
use velodag_core.Types.{Bytes, Transaction, hash_mod}
use velodag_core.Block.{transaction_id, hash_bytes}
use velodag_core.Block.Encoding.{FitsFields}
use velodag_core.Fixtures.{toy_sha3, toy_scheme, bob}
use velodag_core.Crypto.{Scheme, VeloKeyPair, derive_address, public_key_bytes, sign_message}
use velodag_core.Crypto.Signing.{IsPair}
use velodag_core.Ledger.{empty_ledger, has_confirmed}
use velodag_core.Mempool.{new_mempool, add_transaction}
use velodag_core.Mempool.Waiting.{NoneWaits}
use velodag_core.Node.PeerGuard.{IpAddr}
use velodag_core.Node.HexSamples.{toy_hex, toy_hex-ReadsBack}
use velodag_core.Node.Rpc.{
  SubmitTransactionParams, Json, RpcRequest, Shared, accepted_as, status_is, confirmed, pending,
  build_transaction, read_params, submit_transaction, transaction_status, dispatch,
  handle_connection, authorized, run_method,
}
use velodag_core.Node.Rpc.Limiter.{new_limiter, check_limit, allowed, allowed-le-twice}
use velodag_core.Node.Rpc.Connections.{
  Server, new_server, accept, started, joined, Represents, occurrences, Serves-Represents,
}
use velodag_core.Node.Rpc.Submission.{
  handle_connection-good, dispatch-authorized, submit_transaction-status,
}
use velodag_core.Node.Rpc.Submission.Building.{is_bad, params_of, build_transaction-params_of}

-- A limiter of one request a second lets two through in two nanoseconds.
abbrev late : List ℕ
late = 999_999_999 ∷ 1_000_000_000 ∷ []

late-allowed : allowed late (new_limiter 0 1) ≡ 2
unfolding allowed check_limit new_limiter
late-allowed = refl

allowed-le-twice_example : allowed late (new_limiter 0 1) ≤ 2 * 1
unfolding new_limiter
allowed-le-twice_example =
    allowed-le-twice late 999_999_999 (new_limiter 0 1)
      (omega arith, omega arith, (omega arith, omega arith, tt)) (omega arith)

abbrev served_from : List IpAddr
served_from = 5 ∷ []

abbrev served : Server
served = (accept 5 new_server).0

Serves-Represents_example :
    Represents served served_from
    × (length served_from ≤ 256)
    × ((accept 5 served).1 ≡ (ltb (length served_from) 256 && ltb (occurrences 5 served_from) 16))
unfolding accept lookup_or
Serves-Represents_example = Serves-Represents served served_from 5 (joined 5 started)

abbrev keys : VeloKeyPair toy_scheme
keys = record { public_key = 1 ∷ 2 ∷ []; secret_key = 3 ∷ [] }

keys-IsPair : IsPair toy_scheme (keys.public_key) (keys.secret_key)
keys-IsPair = record {
  parses_key = refl;
  parses_secret = refl;
  parses_signature = λ m. refl;
  verifies = λ m. refl;
}

-- The stand-in signs with the message, which does not depend on the signature.
abbrev unsigned : Transaction
unsigned = record {
  sender = 1 + 257 * (2 + 257 * 7);
  recipient = bob;
  amount = 5;
  nonce = 0;
  public_key = 1 ∷ 2 ∷ [];
  signature = [];
}

abbrev silent_scheme : Scheme
silent_scheme = record toy_scheme { detached_sign = λ m sk. [] }

abbrev silent_keys : VeloKeyPair silent_scheme
silent_keys = record { public_key = 1 ∷ 2 ∷ []; secret_key = 3 ∷ [] }

silent_keys-IsPair : IsPair silent_scheme (silent_keys.public_key) (silent_keys.secret_key)
silent_keys-IsPair = record {
  parses_key = refl;
  parses_secret = refl;
  parses_signature = λ m. refl;
  verifies = λ m. refl;
}

unsigned-FitsFields : FitsFields unsigned
unsigned-FitsFields = record {
  sender = omega arith;
  recipient = omega arith;
  amount = omega arith;
  nonce = omega arith;
}

unsigned-sender : unsigned.sender ≡ derive_address silent_scheme toy_sha3 (silent_keys.public_key)
unfolding derive_address
unsigned-sender = refl

built : build_transaction toy_hex silent_scheme toy_sha3 (params_of toy_hex unsigned) ≡ ok unsigned
unfolding public_key_bytes sign_message
built =
    build_transaction-params_of toy_hex silent_scheme toy_sha3 unsigned silent_keys
      toy_hex-ReadsBack silent_keys-IsPair unsigned-FitsFields
      ((omega arith, (omega arith, tt)), tt) (omega arith) unsigned-sender refl refl

-- Every line is a request that submits the transaction, and every value says so or asks for it.
abbrev submission : RpcRequest Unit
submission = record {
  id = none;
  method = "submit_transaction";
  params = some tt;
  token = some "sesame";
}

abbrev id_text : String
id_text = toy_hex.encode (hash_bytes (transaction_id toy_sha3 unsigned))

abbrev toy_json : Json
toy_json = record {
  Value = Unit;
  null = tt;
  read_request = λ line. ok submission;
  read_submit = λ v. ok (params_of toy_hex unsigned);
  read_address = λ v. err "no address";
  read_status = λ v. ok (record { tx_id = id_text });
}

abbrev fresh : Shared
fresh = record { mempool = new_mempool; ledger_state = empty_ledger }

handle_connection-good_example :
    NoneWaits
      (is_bad silent_scheme toy_sha3)
      (handle_connection toy_json toy_hex silent_scheme toy_sha3
        (some "sesame")
        0
        ((5, ok "a line") ∷ [])
        fresh).0.mempool.pending_transactions
    × ((handle_connection toy_json toy_hex silent_scheme toy_sha3
          (some "sesame")
          0
          ((5, ok "a line") ∷ [])
          fresh).0.ledger_state
        ≡ empty_ledger)
unfolding any_b
handle_connection-good_example =
    handle_connection-good toy_json toy_hex silent_scheme toy_sha3 (some "sesame") 0
      ((5, ok "a line") ∷ []) fresh refl

abbrev submitted : Shared
submitted = record fresh { mempool = (add_transaction toy_sha3 unsigned new_mempool).0 }

submitted-accepted :
    submit_transaction toy_json toy_hex silent_scheme toy_sha3 (some tt) fresh
    ≡ (submitted, ok (accepted_as id_text))
unfolding submit_transaction read_params add_transaction contains_key lookup
submitted-accepted = rw (built, submit_transaction) refl

dispatch-moves :
    (dispatch toy_json toy_hex silent_scheme toy_sha3 (some "sesame") submission fresh).0 ≢ fresh
unfolding dispatch authorized run_method add_transaction contains_key lookup insert
dispatch-moves same =
    let moved : submitted ≡ fresh = sym (ap (λ r. r.0) submitted-accepted) ∙ same in
    absurd (omega (arith, ap (λ (s : Shared). length s.mempool.pending_transactions) moved))

dispatch-authorized_example :
    (◌≡◌ {A = Option String} (some "sesame") (some "sesame"))
    × (◌≡◌ {A = String} "submit_transaction" "submit_transaction")
dispatch-authorized_example =
    dispatch-authorized toy_json toy_hex silent_scheme toy_sha3 "sesame" submission fresh
      dispatch-moves

toy_sha3-lt : (b : Bytes) → toy_sha3 b < hash_mod
toy_sha3-lt [] = omega arith
toy_sha3-lt (x ∷ xs) = omega arith

submit_transaction-status_example :
    (p : SubmitTransactionParams) × (read_params toy_json toy_json.read_submit (some tt) ≡ ok p)
    × (tx : Transaction) × (build_transaction toy_hex silent_scheme toy_sha3 p ≡ ok tx)
    × (id_text ≡ toy_hex.encode (hash_bytes (transaction_id toy_sha3 tx)))
    × (lookup (transaction_id toy_sha3 tx) submitted.mempool.pending_transactions ≡ some tx)
    × (transaction_status toy_json toy_hex (some tt) submitted
        ≡ ok (
            status_is (
              if has_confirmed submitted.ledger_state (transaction_id toy_sha3 tx)
              then confirmed
              else pending)))
unfolding read_params
submit_transaction-status_example =
    submit_transaction-status toy_json toy_hex silent_scheme toy_sha3 (some tt) (some tt) fresh
      submitted id_text toy_hex-ReadsBack toy_sha3-lt submitted-accepted refl
