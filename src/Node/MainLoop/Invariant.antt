-- ===== src/Node/MainLoop/Invariant.antt =====
-- What every turn of the main loop keeps, in whatever order the turns come.
use Prim.Native.String.{String}
use velodag_core.Prelude.{◌≡◌, Option, List, [], ◌∷◌, contains, ok, err, Result-cases, inl, inr}
use velodag_core.Types.{Hash}
use velodag_core.Mempool.Waiting.{NoneWaits}
use velodag_core.Node.Hex.{Hex}
use velodag_core.Node.Rpc.{Json, Shared}
use velodag_core.Node.Rpc.Submission.{dispatch-Keeps}
use velodag_core.Node.Rpc.Submission.Building.{is_bad}
use velodag_core.Node.Network.{Env, Outcome, storage_fault, panicked, out_of_fuel}
use velodag_core.Node.Network.Events.{handle_p2p_events}
use velodag_core.Node.Network.Closure.{handle_p2p_events-Closed}
use velodag_core.Node.Network.Closure.Block.{Closed}
use velodag_core.Node.Miner.{MinerState}
use velodag_core.Node.MainLoop.{
  Turn, block_timer, network_event, rpc_request, keep_going, take_turn, main_loop,
}
use velodag_core.Node.Miner.Soundness.{IsSound, tick-IsSound}

module _ (env : Env)
    (keeps : (h : Hash) (ks : List Hash) → contains h (env.key_order ks) ≡ contains h ks) where
  keep_going-IsSound :
      (s : MinerState env) (r : Outcome env Unit)
      → NoneWaits (is_bad env.scheme env.sha3) s.mempool.pending_transactions
      → Closed env r.0
      → IsSound env keeps (keep_going env s r).0
  unfolding keep_going
  keep_going-IsSound s (n, ok _) signed c = record { closed = c; signed = signed }
  keep_going-IsSound s (n, err (storage_fault _)) signed c = record { closed = c; signed = signed }
  keep_going-IsSound s (n, err panicked) signed c = record { closed = c; signed = signed }
  keep_going-IsSound s (n, err out_of_fuel) signed c = record { closed = c; signed = signed }

  module _ (json : Json) (hex : Hex) (auth_token : Option String) (miner_address : Hash) where
    take_turn-IsSound :
        (turn : Turn json.Value) (s : MinerState env)
        → IsSound env keeps s
        → IsSound env keeps (take_turn env json hex auth_token miner_address turn s).0
    unfolding take_turn
    take_turn-IsSound (block_timer fuel) s sound = tick-IsSound env keeps miner_address fuel s sound
    take_turn-IsSound (network_event event) s sound =
        keep_going-IsSound s (handle_p2p_events env event s.node) sound.signed
          (handle_p2p_events-Closed env event s.node sound.closed)
    take_turn-IsSound (rpc_request request) s sound =
        let shared : Shared = record { mempool = s.mempool; ledger_state = s.node.ledger_state } in
        let (signed, _) = dispatch-Keeps json hex env.scheme env.sha3 auth_token request shared in
        record { closed = sound.closed; signed = signed sound.signed }

    -- However ticks, events of the network and requests of clients follow one another, and whatever
    -- peers and clients send: every block of the graph stands under its own hash, with all its parents
    -- and its data, the genesis is there, and every transaction that waits in the mempool is well
    -- signed and of a positive amount, if this holds at the start.
    pub main_loop-IsSound :
        (turns : List (Turn json.Value)) (s : MinerState env)
        → IsSound env keeps s
        → IsSound env keeps (main_loop env json hex auth_token miner_address turns s).0
    unfolding main_loop
    main_loop-IsSound [] s sound = sound
    main_loop-IsSound (turn ∷ rest) s sound =
        let done = take_turn env json hex auth_token miner_address turn s in
        let kept = take_turn-IsSound turn s sound in
        elim (Result-cases done.1) [
          | inr (_, at) ↦ rw (at, main_loop) kept
          | inl (_, at) ↦ rw (at, main_loop) (main_loop-IsSound rest done.0 kept)
        ]
