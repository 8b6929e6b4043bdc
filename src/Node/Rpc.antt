-- ===== src/Node/Rpc.antt =====
-- vdag-node/src/rpc.rs: the RPC server's requests and answers. The readers of JSON and hexadecimal
-- text are parameters; an answer is a value of the types below in place of JSON.
mod Protocol
pub mod Limiter
pub mod Connections
pub mod Submission
mod Tests
use Prim.Native.String.{String}
use text.Mathlib.Text.{◌==◌ as str_eq}
use velodag_core.Prelude.{
  ℕ, Bool, true, false, not, Option, none, some, List, [], ◌∷◌, ◌==◌, if◌then◌else◌, length,
  contains_key, Result, ok, err,
}
use velodag_core.Types.{Hash, Bytes, Transaction}
use velodag_core.Block.{transaction_id, hash_bytes}
use velodag_core.Ledger.{LedgerState, balance, has_confirmed}
use velodag_core.Mempool.{Mempool, add_transaction}
use velodag_core.Crypto.{Scheme, verify_transaction_signature}
use velodag_core.Node.Hex.{Hex, to_array}
use velodag_core.Node.PeerGuard.{Instant}
use velodag_core.Node.Rpc.Limiter.{RateLimiter, new_limiter, check_limit}
pub use velodag_core.Node.Rpc.Protocol.{
  RpcRequest, SubmitTransactionParams, AddressParams, TransactionStatusParams, Json, RpcError,
  amount_not_positive, invalid_signature, invalid_hex, wrong_length, unauthorized,
  missing_parameters, duplicate_transaction, rate_limited, invalid_parameters, invalid_request,
  framing_error, unknown_method, Status, confirmed, pending, unknown, Answer, version_is,
  accepted_as, size_is, balance_is, status_is, Response, Shared,
}

abbrev pub rpc_api_version : String
rpc_api_version = "1.0.0"

abbrev pub max_requests_per_second_per_connection : ℕ
max_requests_per_second_per_connection = 50

-- `parse_fixed_bytes::<32>`
unfoldable pub parse_fixed_bytes : Hex → String → String → Result RpcError Hash
parse_fixed_bytes hex value field = elim (hex.decode value) [
  | none ↦ err (invalid_hex field)
  | some bytes ↦ elim (to_array bytes) [ none ↦ err (wrong_length field) | some h ↦ ok h ]
]

-- `hex::decode(value).map_err(…)`
unfoldable pub parse_bytes : Hex → String → String → Result RpcError Bytes
parse_bytes hex value field = elim (hex.decode value) [
  | none ↦ err (invalid_hex field)
  | some bytes ↦ ok bytes
]

-- `e?` on a pure result.
abbrev pub and_then :
    {A B : Type 0} → Result RpcError A → (A → Result RpcError B) → Result RpcError B
and_then (err e) f = err e
and_then (ok a) f = f a

module _ (hex : Hex) (scheme : Scheme) (sha3 : Bytes → Hash) where
  unfoldable pub build_transaction : SubmitTransactionParams → Result RpcError Transaction
  build_transaction params =
      if params.amount == 0
      then err amount_not_positive
      else and_then (parse_fixed_bytes hex params.sender "sender") λ sender.
        and_then (parse_fixed_bytes hex params.recipient "recipient") λ recipient.
          and_then (parse_bytes hex params.public_key "public_key") λ public_key.
            and_then (parse_bytes hex params.signature "signature") λ signature.
              if verify_transaction_signature scheme sha3 sender recipient params.amount
                params.nonce public_key signature
              then ok (record {
                sender = sender;
                recipient = recipient;
                amount = params.amount;
                nonce = params.nonce;
                public_key = public_key;
                signature = signature;
              })
              else err invalid_signature

module _ (json : Json) where
  -- `match request.params { Some(params) => from_value(params), None => … }`
  unfoldable pub read_params :
      {P : Type 0} → (json.Value → Result String P) → Option json.Value → Result RpcError P
  read_params read none = err missing_parameters
  read_params read (some value) = elim (read value) [
    | err text ↦ err (invalid_parameters text)
    | ok params ↦ ok params
  ]

  -- Only `version` is answered without the token, where one is configured.
  unfoldable pub authorized : Option String → RpcRequest json.Value → Bool
  authorized auth_token request =
      if str_eq request.method "version" then true else elim auth_token [
        | none ↦ true
        | some expected ↦ elim request.token [ none ↦ false | some token ↦ str_eq token expected ]
      ]

  -- `request.id.clone().unwrap_or(Value::Null)`
  unfoldable pub id_or_null : Option json.Value → json.Value
  id_or_null none = json.null
  id_or_null (some id) = id

  unfoldable pub error_response : Option json.Value → RpcError → Response json.Value
  error_response id error = record { id = id_or_null id; body = err error }

  module _ (hex : Hex) where
    unfoldable pub get_balance : Option json.Value → Shared → Result RpcError Answer
    get_balance params s = and_then (read_params json.read_address params) λ p.
        and_then (parse_fixed_bytes hex p.address "address")
          λ address. ok (balance_is (balance s.ledger_state address))

    unfoldable pub transaction_status : Option json.Value → Shared → Result RpcError Answer
    transaction_status params s = and_then (read_params json.read_status params) λ p.
        and_then (parse_fixed_bytes hex p.tx_id "tx_id") λ tx_id. ok (
          status_is (
            if has_confirmed s.ledger_state tx_id
            then confirmed
            else if contains_key tx_id s.mempool.pending_transactions
            then pending
            else unknown))

    module _ (scheme : Scheme) (sha3 : Bytes → Hash) where
      -- A transaction that is not accepted leaves the mempool as it was.
      unfoldable pub submit_transaction :
          Option json.Value → Shared → Shared × Result RpcError Answer
      submit_transaction params s =
          elim (and_then (read_params json.read_submit params)
            (build_transaction hex scheme sha3)) [
              | err e ↦ (s, err e)
              | ok transaction ↦
                  let added = add_transaction sha3 transaction s.mempool in
                  (
                    record s { mempool = added.0 },
                    if added.1
                        then ok (
                            accepted_as (hex.encode (hash_bytes (transaction_id sha3 transaction))))
                        else err duplicate_transaction,
                  )
            ]

      unfoldable pub run_method : RpcRequest json.Value → Shared → Shared × Result RpcError Answer
      run_method request s =
          if str_eq request.method "version"
          then (s, ok (version_is rpc_api_version))
          else if str_eq request.method "submit_transaction"
          then submit_transaction request.params s
          else if str_eq request.method "mempool_size"
          then (s, ok (size_is (length s.mempool.pending_transactions)))
          else if str_eq request.method "get_balance"
          then (s, get_balance request.params s)
          else if str_eq request.method "transaction_status"
          then (s, transaction_status request.params s)
          else (s, err (unknown_method request.method))

      unfoldable pub dispatch :
          Option String → RpcRequest json.Value → Shared → Shared × Response json.Value
      dispatch auth_token request s =
          let id = id_or_null request.id in
          if authorized auth_token request
          then (let done = run_method request s in (done.0, record { id = id; body = done.1 }))
          else (s, error_response (some id) unauthorized)

      -- One line of a connection, or what the framing made of it, read at an instant.
      unfoldable pub handle_line :
          Option String
          → Instant
          → Result String String
          → RateLimiter × Shared
          → (RateLimiter × Shared) × Response json.Value
      handle_line auth_token now (err text) (limiter, s) =
          ((limiter, s), error_response none (framing_error text))
      handle_line auth_token now (ok line) (limiter, s) =
          let checked = check_limit now limiter in
          if checked.1
          then elim (json.read_request line) [
            | err text ↦ ((checked.0, s), error_response none (invalid_request text))
            | ok request ↦ let done = dispatch auth_token request s in ((checked.0, done.0), done.1)
          ]
          else ((checked.0, s), error_response none rate_limited)

      -- `while let Some(line_result) = lines.next().await`, with the responses in order.
      unfoldable pub handle_lines :
          Option String
          → List (Instant × Result String String)
          → RateLimiter × Shared
          → (RateLimiter × Shared) × List (Response json.Value)
      handle_lines auth_token [] s = (s, [])
      handle_lines auth_token ((now, line) ∷ rest) s =
          let done = handle_line auth_token now line s in
          let later = handle_lines auth_token rest done.0 in (later.0, done.1 ∷ later.1)

      unfoldable pub handle_connection :
          Option String
          → Instant
          → List (Instant × Result String String)
          → Shared
          → Shared × List (Response json.Value)
      handle_connection auth_token opened lines s =
          let done =
            handle_lines auth_token lines
              (new_limiter opened max_requests_per_second_per_connection, s) in
          (done.0.1, done.1)
