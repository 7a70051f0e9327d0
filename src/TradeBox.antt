-- ===== src/TradeBox.antt =====
-- trade_box.go: the surprise-trade service of Scarlet and Violet, with its messages.
pub mod Message
pub mod Parse
pub mod Marshal
pub mod Bounds
pub mod Encoding
pub mod RoundTrip
pub mod Server
pub mod Heap
pub mod Invariant
pub mod Ready
pub mod Pairing
pub mod Placing
pub mod Preserve
pub mod History
pub mod Swap
pub mod Trade
pub mod Stream
