-- ===== src/Node.antt =====
-- vdag-node/src: the parts of the node around the consensus library.
mod Samples
mod HexSamples
pub mod PeerGuard
pub mod Sync
pub mod DifficultyLog
pub mod Network
pub mod Graph
pub mod Miner
pub mod MainLoop
pub mod Startup
pub mod Hex
pub mod Rpc
pub mod NetworkConfig
pub mod Wallet
