-- ===== src/Lib.antt =====
-- VeloDAG: a proof-of-work block graph with a GHOSTDAG order, a ledger of balances, and a node that
-- takes part in a peer-to-peer network.
--
-- The program's parts, and the files that model them:
--
-- - Types: the constants and structs of vdag-consensus/src/lib.rs. A `[u8; 32]` is the number whose
--   big-endian bytes it is, a `u64` a number whose wrap-around is written out.
-- - Block: `impl VeloBlock` of vdag-consensus/src/lib.rs, that is encodings, identifiers, the Merkle
--   commitment, subsidy and fee, and the fixed genesis.
-- - Ledger: `LedgerState` of vdag-consensus/src/lib.rs. A step mutates scratch copies and may return
--   an error; what was written before the error stays in the copies, which `apply_block` drops.
-- - Mempool and Storage: `Mempool` and `BlockchainStorage` of vdag-consensus/src/lib.rs.
-- - Pow, Daa, Ghostdag: vdag-consensus/src/pow.rs, daa.rs and ghostdag.rs.
-- - Crypto: vdag-crypto/src/lib.rs.
-- - Node/PeerGuard, Node/Sync, Node/DifficultyLog, Node/Network: the files of these names in
--   vdag-node/src. Network has the state that the handlers share, Network/Checks the checks of a
--   block, Network/Ingest `validate_and_ingest`, Network/Events the events of the swarm.
-- - Node/Startup, Node/Miner and Node/MainLoop: the start-up, the mining tick and the loop of
--   vdag-node/src/main.rs. The loop takes ticks, events of the network and requests of clients in any
--   order. Node/Graph says what a closed graph is.
-- - Node/Rpc: vdag-node/src/rpc.rs. Limiter has the rate limit, Connections the accept loop of `serve`,
--   Rpc itself the dispatch of requests; Node/Hex is the hexadecimal text that it shares with
--   Node/Wallet, which is vdag-node/src/wallet.rs.
-- - Node/NetworkConfig: vdag-node/src/network_config.rs.
-- - Prelude has what the parts share, Fixtures the sample data of the Tests modules.
--
-- How they interact: a node's handler checks a block (Checks), applies it to the ledger, puts it into
-- the graph and the database, replays the ledger in the order of the canonical tip, computes the next
-- target from that order, and wakes the orphans that waited for the block (Ingest). The tick drains
-- the mempool that the RPC server fills, drafts a block on the canonical tip, and treats the mined
-- block as the handler treats one that arrives. A restart rebuilds the graph from the database.
--
-- Outside the repository, and so parameters: SHA3-256 (`sha3`), the signature scheme (`Scheme`), the
-- database and the binary encoding (`Backend`), the order in which a hash map yields its keys
-- (`key_order`), the readings of the clocks; and for the node's edges JSON, hexadecimal text, Ed25519,
-- the wallet's cipher, the files, random draws and environment variables. Hash maps are association lists in which the first
-- entry of a key counts. Error texts are constructors. Log lines are left out, and requests to the
-- swarm are a list in the state.
--
-- Fuel: the searches of Ghostdag visit each parent that a stored block names at most once, so the
-- number of these bounds the rounds; the selected-parent chain has at most one round for each unit of
-- score; the Merkle loop has at most one round for each entry; `validate_and_ingest` recurses at most
-- as deep as blocks wait, and once more. `mine_block` takes the number of rounds as an argument;
-- `tick` passes this number on, and its theorem says how many rounds are enough.
--
-- Not modelled: the swarm's set-up and the command line (vdag-node/src/main.rs), since they only call
-- the peer-to-peer library and print; the block explorer's output and the identity file, for the same
-- reason; sockets, so that a connection's lines are a list, and a failed write, which ends a connection
-- early, does not occur; vdag-network/src/lib.rs, which nothing calls; deployment scripts; key
-- generation, whose result is an argument.
mod Prelude
mod Fixtures
pub mod Types
pub mod Block
pub mod Ledger
pub mod Mempool
pub mod Pow
pub mod Crypto
pub mod Storage
pub mod Daa
pub mod Ghostdag
pub mod Node
