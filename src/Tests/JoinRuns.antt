-- ===== src/Tests/JoinRuns.antt =====
-- Two members join a room: runs and witnesses.
use pokemon_violet.Base.{◌≡◌, refl, Option, none, some, [], ◌∷◌, arith, nat_eq, bytes_beq, bytes_eq}
use pokemon_violet.Base.Dict.{lookup, insert}
use pokemon_violet.Base.Int.{pos, ◌+ℤ◌, int_eq, wrap64}
use pokemon_violet.Base.Text.{text}
use pokemon_violet.Documents.Server.{GamesyncServer, map_values, publish}
use pokemon_violet.TradeBox.Server.{last_resource_segment}
use pokemon_violet.Documents.Join.{
  remember_session, trim_left, trim_right, observed_user_session_document, bound_session,
  next_sequences,
}
use pokemon_violet.Documents.Steps.{
  Reachable-Numbered, SameRoom, CounterLeft, joins, Reachable, starts, goes_on,
}
use pokemon_violet.Documents.Sequence.{Numbered, numbers_of}
use pokemon_violet.Tests.ToyRoom.{bare_server, ann, noon, later, bob, message_size}

abbrev nobody : GamesyncServer
nobody = record bare_server { sessions = []; next_sequence = [] }

abbrev or_nobody : Option GamesyncServer → GamesyncServer
or_nobody none = nobody
or_nobody (some g) = g

abbrev ann_in : GamesyncServer
ann_in = or_nobody (remember_session message_size noon ann nobody)

abbrev both_in : GamesyncServer
both_in = or_nobody (remember_session message_size later bob ann_in)

ann_enters : remember_session message_size noon ann nobody ≡ some ann_in
unfolding remember_session observed_user_session_document bound_session next_sequences trim_left
    trim_right lookup insert bytes_beq last_resource_segment wrap64 ◌+ℤ◌ publish map_values
ann_enters = refl

bob_enters : remember_session message_size later bob ann_in ≡ some both_in
unfolding remember_session observed_user_session_document bound_session next_sequences trim_left
    trim_right lookup insert bytes_beq last_resource_segment wrap64 ◌+ℤ◌ publish map_values
bob_enters = refl

both_numbers : both_in.next_sequence ≡ (text "r", pos 2) ∷ []
unfolding remember_session observed_user_session_document bound_session next_sequences trim_left
    trim_right lookup insert bytes_beq last_resource_segment wrap64 ◌+ℤ◌ publish map_values
both_numbers = refl

ann_new : SameRoom ann nobody
unfolding lookup
ann_new previous known = cc

ann_counted : CounterLeft ann nobody
unfolding lookup
ann_counted = (0, refl, omega arith)

bob_new : SameRoom bob ann_in
unfolding remember_session observed_user_session_document bound_session next_sequences trim_left
    trim_right lookup insert bytes_beq last_resource_segment wrap64 ◌+ℤ◌ publish map_values
bob_new previous known = cc

bob_counted : CounterLeft bob ann_in
unfolding remember_session observed_user_session_document bound_session next_sequences trim_left
    trim_right lookup insert bytes_beq last_resource_segment wrap64 ◌+ℤ◌ publish map_values
bob_counted = (1, refl, omega arith)

both-Reachable : Reachable message_size both_in
both-Reachable =
    goes_on (goes_on (starts refl) (joins noon ann ann_new ann_counted ann_enters))
      (joins later bob bob_new bob_counted bob_enters)

Reachable-Numbered_example : Numbered (numbers_of both_in)
Reachable-Numbered_example = Reachable-Numbered message_size both-Reachable
