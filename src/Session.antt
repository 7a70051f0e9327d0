-- ===== src/Session.antt =====
-- matchmaking.go, session_registry.go and session_service.go: rooms, their members and tickets.
pub mod Message
pub mod Config
pub mod Room
pub mod Matchmaker
pub mod Raid
pub mod Ticket
pub mod Registry
pub mod Aligned
pub mod Members
pub mod Choice
pub mod Host
pub mod Leave
pub mod Complete
pub mod RoomCode
pub mod CodeChars
pub mod AliasCalls
pub mod Alias
pub mod Service
pub mod Access
