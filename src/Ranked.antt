-- ===== src/Ranked.antt =====
-- ranked_state.go: the ratings of the ranked competitions and the store that keeps them.
pub mod Stats
pub mod Valid
pub mod Laws
pub mod Json
pub mod Store
pub mod Consensus
pub mod Standing
pub mod Restart
pub mod Again
