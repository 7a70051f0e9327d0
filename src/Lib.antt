-- ===== src/Lib.antt =====
-- The game server of alyeri/pokemon-violet: the parts that keep state of their own.
--
-- The server speaks gRPC with the game. This development models the ranked store, the trade-box
-- service, the documents and streams of game sync, matchmaking and the signing of parties for
-- trades, in Go's terms: an operation under a lock is a function from the state to the next state
-- and a reply, an error is a status code, and a string is its list of bytes. The parts meet in the
-- game-sync server: it asks the session registry who is a member, tells it of departures and of
-- the room's control document, hands matching battle reports to the ranked store, and sends each
-- change of a document through the delivery queue of every stream that watches it.
--
-- - Base: natural numbers and lists, tests, machine integers with their wrap-around, byte
--   strings, maps as association lists, and results with the status codes.
-- - Ranked (ranked_state.go): Ranked.Stats is applyRankedResult, Ranked.Store the store with
--   recordConsensus, stats, battleStats, persistLocked and newRankedStore, and
--   validRankedCompetitionIDString of gamesync_store.go. The file system is a parameter of each
--   call: what fails (Fault), and what the file holds (File), which is the state that its JSON
--   says: Ranked.Json has what encoding/json keeps of strings and of the keys of maps, and keeps
--   numbers and flags as they are. Ranked.Valid, Ranked.Laws, Ranked.Consensus,
--   Ranked.Standing, Ranked.Again and Ranked.Restart hold the proofs.
-- - Wire: the operations of protowire that the code calls, as a record, with what the code
--   relies on as the record WireLaws; Wire.Loop is the parsing loop that the parsers share.
-- - TradeBox (trade_box.go): Message has the types, Parse and Marshal the wire formats, Server
--   the state and its operations under the lock, Stream the RPC handlers and TrackTradeBox as a
--   state machine on the entry that it follows. An entry is shared by the map and the streams,
--   so entries live in a heap and the map keeps positions. Bounds, Encoding, RoundTrip, Heap,
--   Invariant, Ready, Pairing, Placing, Preserve, History, Swap and Trade hold the proofs.
-- - Delivery (gamesync_delivery.go): Queue has Send, stop and the writer goroutine as steps, in
--   any interleaving; History, Kept, Order and Failure hold the proofs. proto.Size is the
--   parameter `size`.
-- - Session (matchmaking.go, session_registry.go, session_service.go): Message has the messages,
--   Config the names and limits, Room one room with its pooled members, Matchmaker the state,
--   Raid the choice of a room, Ticket the life of a ticket, Registry what the streams do to the
--   rooms, RoomCode (session_alias.go) the codes of rooms, Service reads and joins. Game sessions
--   and pooled sessions are shared by several maps, so each kind lives in a heap. Aligned,
--   Members, Choice, Host, Complete, CodeChars, AliasCalls, Alias, Leave and Access hold the
--   proofs. Minting a token, formatting a number, proto.Equal and the environment are the record
--   Settings. A range over a Go map meets the entries in the order of the list.
-- - Documents (gamesync.go, gamesync_store.go, gamesync_reads.go): Message has the messages, Path
--   documentPath, Field the field paths, masks, readField and setField, Battle the checks of
--   ranked documents, Writable writableDocument, Transform applyFieldTransform, Batch the loop of
--   WriteDocuments over copies of the room's maps, Commit the rest of it, Server the state, the
--   session of a caller and publishing, Reads the three reads and the snapshot of a target, Order
--   the sorting of names, Expire the stream counts, timers and expireSession, Join
--   rememberSession, Token IssueToken and initializeFixedData, Watch the targets and
--   KeepUserSession as a step for each request. A MapValue is an association list, and a map
--   value holds its fields as a type of its own, since values nest. Subscribers and timers are
--   pointers in Go and numbers here. A session that authorizedSession has found may be stale when
--   the locks are taken, so the parts under the locks take any session. View is a room as a
--   function of the name; Refine, Step, Refusal, Protect, Typed, Families, Schema, TypeKept,
--   FieldLaws, Increment, Marked, Departure, Expiry, Sorted, Paging, Collection, Listing,
--   ReadMany, Sequence, Life, Quiet and Steps hold the proofs.
-- - Validation (trade_validation.go): the request parser, the key version, the replies; Shape
--   and Reply hold the proofs. The key's encoding and digest and the signature are parameters.
-- - Tests: runs on concrete inputs, a wire format that satisfies WireLaws, and witnesses.
--
-- The parsing loops run on fuel, which is the length of the input: every round reads a tag of at
-- least one byte. The error code `diverges` stands for spent fuel and is no status of the
-- server. A client that follows the pages of a listing has fuel for one page more than there are
-- documents, since every page but the last holds at least one.
--
-- Clocks, fresh identifiers, callers' identities and send errors are arguments. Logging is left
-- out, and so are the sockets, tokens, certificates, dashboards and generated messages.
pub mod Base
pub mod Ranked
pub mod Wire
pub mod Delivery
pub mod TradeBox
pub mod Validation
pub mod Session
pub mod Documents
pub mod Tests
