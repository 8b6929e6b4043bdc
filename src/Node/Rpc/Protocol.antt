-- ===== src/Node/Rpc/Protocol.antt =====
-- vdag-node/src/rpc.rs: requests, parameters, answers and errors.
use Prim.Native.String.{String}
use velodag_core.Prelude.{ℕ, Option, Result}
use velodag_core.Ledger.{LedgerState}
use velodag_core.Mempool.{Mempool}

-- `Value` is serde_json's.
pub record RpcRequest (Value : Type 0) : Type 0 where
  pub id : Option Value
  pub method : String
  pub params : Option Value
  pub token : Option String

pub record SubmitTransactionParams : Type 0 where
  pub sender : String
  pub recipient : String
  pub amount : ℕ
  pub nonce : ℕ
  pub public_key : String
  pub signature : String

pub record AddressParams : Type 0 where
  pub address : String

pub record TransactionStatusParams : Type 0 where
  pub tx_id : String

-- What is read with serde_json, with the text of its errors.
pub record Json : Type 1 where
  pub Value : Type 0
  pub null : Value
  pub read_request : String → Result String (RpcRequest Value)
  pub read_submit : Value → Result String SubmitTransactionParams
  pub read_address : Value → Result String AddressParams
  pub read_status : Value → Result String TransactionStatusParams

-- The messages of errors; a field stands by its name.
pub data RpcError : Type 0 where
  amount_not_positive invalid_signature : RpcError
  invalid_hex wrong_length : String → RpcError
  unauthorized missing_parameters duplicate_transaction rate_limited : RpcError
  invalid_parameters invalid_request framing_error unknown_method : String → RpcError

pub data Status : Type 0 where
  confirmed pending unknown : Status

pub data Answer : Type 0 where
  version_is : String → Answer
  accepted_as : String → Answer
  size_is balance_is : ℕ → Answer
  status_is : Status → Answer

pub record Response (Value : Type 0) : Type 0 where
  pub id : Value
  pub body : Result RpcError Answer

-- The two locks that the server shares with the main loop.
pub record Shared : Type 0 where
  pub mempool : Mempool
  pub ledger_state : LedgerState
