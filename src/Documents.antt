-- ===== src/Documents.antt =====
-- gamesync_store.go and gamesync_reads.go: the documents of the game sessions.
pub mod Message
pub mod Field
pub mod Path
pub mod Battle
pub mod Writable
pub mod Transform
pub mod Batch
pub mod Server
pub mod Order
pub mod Commit
pub mod Expire
pub mod Reads
pub mod FieldLaws
pub mod Increment
pub mod Step
pub mod View
pub mod Refine
pub mod Refusal
pub mod Protect
pub mod Marked
pub mod Departure
pub mod Expiry
pub mod Sorted
pub mod Paging
pub mod Collection
pub mod Listing
pub mod ReadMany
pub mod Typed
pub mod Families
pub mod Schema
pub mod TypeKept
pub mod Join
pub mod Token
pub mod Watch
pub mod Sequence
pub mod Life
pub mod Quiet
pub mod Steps
