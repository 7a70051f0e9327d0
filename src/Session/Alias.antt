-- ===== src/Session/Alias.antt =====
-- session_alias.go: a room code that was given out leads back to its alias.
use pokemon_violet.Base.{nat_eq, bytes_eq}
use pokemon_violet.Base.Int.{int_eq}
use pokemon_violet.Base.Result.{Result}
use pokemon_violet.Session.Matchmaker.{Matchmaker}
