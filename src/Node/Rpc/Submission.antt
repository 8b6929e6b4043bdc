-- ===== src/Node/Rpc/Submission.antt =====
-- What the server lets into the mempool, and that it accepts what a wallet signs.
pub mod Building
use velodag_core.Prelude.{
  ◌<◌, ◌≡◌, ◌≢◌, refl, ap, ◌∙◌, Bool, false, not, ◌||◌, Option, some, List, [], ◌∷◌, arith, ◌==◌,
  if◌then◌else◌, contains_key, lookup, insert, lookup-insert, Option-cases, Result, ok, err,
  Result-cases, Bool-cases, inl, inr,
}
use Prim.Native.String.{String}
use text.Mathlib.Text.{◌==◌ as str_eq}
use text.Mathlib.TextEquality.{eq_iff}
use velodag_core.Types.{Hash, Bytes, Transaction, hash_mod}
use velodag_core.Block.{transaction_id, transaction_payload, hash_bytes}
use velodag_core.Block.Encoding.{FitsFields}
use velodag_core.Crypto.{
  Scheme, VeloKeyPair, public_key_bytes, derive_address, sign_message, verify_transaction_signature,
}
use velodag_core.Crypto.Signing.{IsPair, verify_transaction_signature-sign_message}
use velodag_core.Ledger.{has_confirmed}
use velodag_core.Mempool.{add_transaction}
use velodag_core.Mempool.Waiting.{NoneWaits, add_transaction-NoneWaits}
use velodag_core.Node.Hex.{Hex, AreBytes, ReadsBack, hash_bytes-AreBytes, to_array-hash_bytes}
use velodag_core.Node.PeerGuard.{Instant}
use velodag_core.Node.Rpc.Limiter.{RateLimiter, new_limiter, check_limit}
use velodag_core.Node.Rpc.{
  handle_line, handle_lines, handle_connection, max_requests_per_second_per_connection, accepted_as,
  status_is, confirmed, pending, Json, RpcRequest, SubmitTransactionParams, Shared, RpcError,
  and_then, parse_fixed_bytes, parse_bytes, build_transaction, read_params, authorized,
  submit_transaction, run_method, dispatch, transaction_status,
}
use velodag_core.Node.Rpc.Submission.Building.{
  build_transaction-good, is_bad, parse_fixed_bytes-encode,
}

and_then-ok :
    {A B : Type 0} (r : Result RpcError A) (f : A → Result RpcError B) (b : B)
    → and_then r f ≡ ok b
    → (a : A) × (r ≡ ok a) × (f a ≡ ok b)
and_then-ok (ok a) f b h = (a, refl, h)
and_then-ok (err e) f b h = absurd (ground (arith, h))

module _ (json : Json) (hex : Hex) (scheme : Scheme) (sha3 : Bytes → Hash) where
  submit_transaction-good :
      (params : Option json.Value) (s : Shared)
      → NoneWaits (is_bad scheme sha3) s.mempool.pending_transactions
      → NoneWaits
          (is_bad scheme sha3)
          (submit_transaction json hex scheme sha3 params s).0.mempool.pending_transactions
  unfolding submit_transaction
  submit_transaction-good params s good =
      elim (Result-cases
        (and_then (read_params json json.read_submit params) (build_transaction hex scheme sha3))) [
          | inr (e, at) ↦ rw (at, submit_transaction) good
          | inl (tx, at) ↦
              let (params', _, built) =
                and_then-ok (read_params json json.read_submit params)
                  (build_transaction hex scheme sha3) tx at in
              rw (at, submit_transaction)
                (add_transaction-NoneWaits (is_bad scheme sha3) sha3 tx s.mempool good
                  (build_transaction-good hex scheme sha3 params' tx built))
        ]

  submit_transaction-ledger :
      (params : Option json.Value) (s : Shared)
      → (submit_transaction json hex scheme sha3 params s).0.ledger_state ≡ s.ledger_state
  unfolding submit_transaction
  submit_transaction-ledger params s = ground arith

  -- What every step of a connection keeps: the ledger, and that all that waits is well signed.
  abbrev pub Keeps : Shared → Shared → Type 0
  Keeps s t =
      (NoneWaits (is_bad scheme sha3) s.mempool.pending_transactions
        → NoneWaits (is_bad scheme sha3) t.mempool.pending_transactions)
      × (t.ledger_state ≡ s.ledger_state)

  run_method-Keeps :
      (request : RpcRequest json.Value) (s : Shared)
      → Keeps s (run_method json hex scheme sha3 request s).0
  unfolding run_method
  run_method-Keeps request s = (
    λ good. ground (arith, good, submit_transaction-good request.params s good),
    ground (arith, submit_transaction-ledger request.params s),
  )

  pub dispatch-Keeps :
      (auth_token : Option String) (request : RpcRequest json.Value) (s : Shared)
      → Keeps s (dispatch json hex scheme sha3 auth_token request s).0
  unfolding dispatch
  dispatch-Keeps auth_token request s = elim (Bool-cases (authorized json auth_token request)) [
    | inl yes_ ↦ rw (yes_, dispatch) (run_method-Keeps request s)
    | inr no_ ↦ rw (no_, dispatch) (λ good. good, refl)
  ]

  handle_line-Keeps :
      (auth_token : Option String) (now : Instant) (line : Result String String) (l : RateLimiter)
      (s : Shared)
      → Keeps s (handle_line json hex scheme sha3 auth_token now line (l, s)).0.1
  unfolding handle_line
  handle_line-Keeps auth_token now (err text) l s = (λ good. good, refl)
  handle_line-Keeps auth_token now (ok line) l s = elim (Bool-cases (check_limit now l).1) [
    | inr no_ ↦ rw (no_, handle_line) (λ good. good, refl)
    | inl yes_ ↦ elim (Result-cases (json.read_request line)) [
      | inl (request, at) ↦ rw (yes_, handle_line, at) (dispatch-Keeps auth_token request s)
      | inr (text, at) ↦ rw (yes_, handle_line, at) (λ good. good, refl)
    ]
  ]

  handle_lines-Keeps :
      (auth_token : Option String) (lines : List (Instant × Result String String)) (l : RateLimiter)
      (s : Shared)
      → Keeps s (handle_lines json hex scheme sha3 auth_token lines (l, s)).0.1
  unfolding handle_lines
  handle_lines-Keeps auth_token [] l s = (λ good. good, refl)
  handle_lines-Keeps auth_token ((now, line) ∷ rest) l s =
      let first = handle_line-Keeps auth_token now line l s in
      let done = (handle_line json hex scheme sha3 auth_token now line (l, s)).0 in
      let later = handle_lines-Keeps auth_token rest done.0 done.1 in
      (λ good. later.0 (first.0 good), later.1 ∙ first.1)

  -- Whatever a client sends, if all that waits in the mempool is well signed and of a positive amount,
  -- this holds after the connection too, and the ledger is as it was.
  pub handle_connection-good :
      (auth_token : Option String) (opened : Instant)
      (lines : List (Instant × Result String String)) (s : Shared)
      → NoneWaits (is_bad scheme sha3) s.mempool.pending_transactions
      → let t = (handle_connection json hex scheme sha3 auth_token opened lines s).0 in
        NoneWaits (is_bad scheme sha3) t.mempool.pending_transactions
        × (t.ledger_state ≡ s.ledger_state)
  unfolding handle_connection
  handle_connection-good auth_token opened lines s good =
      let kept =
        handle_lines-Keeps auth_token lines
          (new_limiter opened max_requests_per_second_per_connection) s in
      (kept.0 good, kept.1)

  -- Where a token is configured, only a request for `submit_transaction` that carries it changes
  -- anything.
  pub dispatch-authorized :
      (expected : String) (request : RpcRequest json.Value) (s : Shared)
      → (dispatch json hex scheme sha3 (some expected) request s).0 ≢ s
      → (request.token ≡ some expected) × (request.method ≡ "submit_transaction")
  unfolding dispatch run_method authorized
  dispatch-authorized expected request s moved = elim (Option-cases request.token) [
    | inl absent ↦ absurd (moved (ground (arith, absent)))
    | inr (token, at) ↦ elim (Bool-cases (str_eq token expected)) [
      | inr differs ↦ absurd (moved (ground (arith, at, differs)))
      | inl same ↦ elim (Bool-cases (str_eq request.method "submit_transaction")) [
        | inl submits ↦ (
          at ∙ ap some ((eq_iff token expected).0 same),
          (eq_iff request.method "submit_transaction").0 submits,
        )
        | inr other ↦ absurd (moved (ground (arith, at, same, other)))
      ]
    ]
  ]

  -- Where hexadecimal text reads back and hashes fit 32 bytes: when a submission is accepted, its
  -- parameters build a transaction, the text that the client gets is that transaction's id, it waits
  -- in the mempool under this id, and a query with this text reports it as confirmed if it is
  -- confirmed already, and else as pending.
  pub submit_transaction-status :
      (params query : Option json.Value) (s t : Shared) (text : String)
      → ReadsBack hex
      → ((b : Bytes) → sha3 b < hash_mod)
      → submit_transaction json hex scheme sha3 params s ≡ (t, ok (accepted_as text))
      → read_params json json.read_status query ≡ ok (record { tx_id = text })
      → (submitted : SubmitTransactionParams) × (read_params json json.read_submit params
          ≡ ok submitted)
        × (tx : Transaction) × (build_transaction hex scheme sha3 submitted ≡ ok tx)
        × (text ≡ hex.encode (hash_bytes (transaction_id sha3 tx)))
        × (lookup (transaction_id sha3 tx) t.mempool.pending_transactions ≡ some tx)
        × (transaction_status json hex query t
            ≡ ok (
                status_is (
                  if has_confirmed t.ledger_state (transaction_id sha3 tx)
                  then confirmed
                  else pending)))
  unfolding submit_transaction transaction_status parse_fixed_bytes add_transaction contains_key
  submit_transaction-status params query s t text back range done asked =
      elim (Result-cases
        (and_then (read_params json json.read_submit params) (build_transaction hex scheme sha3))) [
          | inr (e, at) ↦ absurd (ground (arith, at, done))
          | inl (tx, at) ↦
              let id = transaction_id sha3 tx in
              let new : contains_key id s.mempool.pending_transactions ≡ false =
                ground (arith, at, done) in
              let stored : t.mempool.pending_transactions
                  ≡ insert id tx s.mempool.pending_transactions =
                ground (arith, at, done, new) in
              let printed : text ≡ hex.encode (hash_bytes id) = ground (arith, at, done, new) in
              let found : lookup id t.mempool.pending_transactions ≡ some tx =
                ground (arith, stored, lookup-insert id id tx s.mempool.pending_transactions) in
              let read : parse_fixed_bytes hex text "tx_id" ≡ ok id =
                ap (λ x. parse_fixed_bytes hex x "tx_id") printed
                ∙ parse_fixed_bytes-encode hex id "tx_id" back (unfold transaction_id in range _) in
              let (submitted, received, built) =
                and_then-ok (read_params json json.read_submit params)
                  (build_transaction hex scheme sha3) tx at in
              (submitted, received, tx, built, printed, found, ground (arith, asked, read, found))
        ]
