-- ===== src/Node/MainLoop.antt =====
-- vdag-node/src/main.rs, the start-up and the `loop` around `tokio::select!`, with the RPC server's task beside it: the
-- block timer, the events of the network and the clients' requests come in any order.
pub mod Invariant
pub mod FirstStart
mod Tests
use Prim.Native.String.{String}
use velodag_core.Prelude.{ℕ, Option, List, [], ◌∷◌, Result, ok, err}
use velodag_core.Types.{Hash}
use velodag_core.Storage.{BlockchainStorage}
use velodag_core.Mempool.{new_mempool}
use velodag_core.Node.Startup.{start_up}
use velodag_core.Node.Hex.{Hex}
use velodag_core.Node.Rpc.{Json, RpcRequest, Shared, dispatch}
use velodag_core.Node.Network.{
  Env, NodeState, NodeError, Outcome, storage_fault, panicked, out_of_fuel,
}
use velodag_core.Node.Network.Events.{SwarmEvent, handle_p2p_events}
use velodag_core.Node.Miner.{MinerState, Ticked, tick}

-- What happens next. A tick has so many rounds for its nonce; a request holds the locks that it takes
-- until it is answered.
pub data Turn (Value : Type 0) : Type 0 where
  block_timer : ℕ → Turn Value
  network_event : SwarmEvent → Turn Value
  rpc_request : RpcRequest Value → Turn Value

module _ (env : Env) where
  -- `let _ = handle_p2p_events(…)`: an error is dropped, while a panic ends the node.
  unfoldable pub keep_going : MinerState env → Outcome env Unit → Ticked env
  keep_going s (n, ok _) = (record s { node = n }, ok tt)
  keep_going s (n, err (storage_fault _)) = (record s { node = n }, ok tt)
  keep_going s (n, err panicked) = (record s { node = n }, err panicked)
  keep_going s (n, err out_of_fuel) = (record s { node = n }, err out_of_fuel)

  module _ (json : Json) (hex : Hex) (auth_token : Option String) (miner_address : Hash) where
    unfoldable pub take_turn : Turn json.Value → MinerState env → Ticked env
    take_turn (block_timer fuel) s = tick env miner_address fuel s
    take_turn (network_event event) s = keep_going s (handle_p2p_events env event s.node)
    take_turn (rpc_request request) s =
        let shared =
          (dispatch json hex env.scheme env.sha3 auth_token request
            (record { mempool = s.mempool; ledger_state = s.node.ledger_state })).0 in
        (
          record s {
            node = record (s.node) { ledger_state = shared.ledger_state };
            mempool = shared.mempool;
          },
          ok tt,
        )

    -- The loop, until a turn panics.
    unfoldable pub main_loop : List (Turn json.Value) → MinerState env → Ticked env
    main_loop [] s = (s, ok tt)
    main_loop (turn ∷ rest) s =
        let done = take_turn turn s in
        let later = main_loop rest done.0 in elim done.1 [ err e ↦ (done.0, err e) | ok _ ↦ later ]

    -- The start-up and then the loop; a panic of the start-up ends the node. The miner's wallet is loaded
    -- between the two, and its address is a parameter.
    unfoldable pub run_node : List (Turn json.Value) → BlockchainStorage env.backend → Ticked env
    run_node turns storage =
        let started = start_up env storage in
        let s : MinerState env = record {
          node = started.0;
          mempool = new_mempool;
          published = [];
        } in
        let run = main_loop turns s in elim started.1 [ err e ↦ (s, err e) | ok _ ↦ run ]
