-- ===== src/Documents/Expire.antt =====
-- gamesync_store.go: the count of a session's streams, the timer of its disconnection, and what
-- the timer does. A timer is its number; time.AfterFunc may call expire_session at any later time.
use pokemon_violet.Base.{
  ℕ, ◌+◌, Bool, true, false, ◌&&◌, ◌||◌, not, none, some, List, [], ◌∷◌, ◌++◌, if◌then◌else◌, ◌==◌,
  nat_eq, bytes_eq,
}
use pokemon_violet.Base.Dict.{Dict, lookup, delete, insert}
use pokemon_violet.Base.Int.{ℤ, pos, ◌+ℤ◌, ◌-ℤ◌, ltb_ℤ, int_eq}
use pokemon_violet.Base.Result.{is_ok}
use pokemon_violet.Base.Text.{Bytes, text}
use pokemon_violet.TradeBox.Message.{Time}
use pokemon_violet.Session.Message.{boolean_value}
use pokemon_violet.Session.Registry.{update_room_control, depart, raid_needs_reopen}
use pokemon_violet.Documents.Message.{
  Document, WriteOperation, delete_document, Deferment, GamesyncSession,
}
use pokemon_violet.Documents.Writable.{owner_of}
use pokemon_violet.Documents.Batch.{check_precondition}
use pokemon_violet.Documents.Server.{
  GamesyncServer, KeepUserSessionResponse, GamesyncSubscriber, map_at, map_values, publish,
  publish_deleted,
}
use pokemon_violet.Documents.Commit.{control_name}

abbrev pub count_at : Bytes → Dict Bytes ℤ → ℤ
count_at id m = elim (lookup id m) [ none ↦ pos 0 | some n ↦ n ]

unfoldable pub stream_started : Bytes → GamesyncServer → GamesyncServer
stream_started id g = record g {
  stream_counts = insert id (count_at id g.stream_counts +ℤ pos 1) g.stream_counts;
  disconnect_timers = delete id g.disconnect_timers;
}

-- The new timer takes the place of an old one, which is stopped.
unfoldable pub schedule_disconnect : Bytes → GamesyncServer → GamesyncServer
schedule_disconnect id g = if ltb_ℤ (pos 0) (count_at id g.stream_counts) then g else record g {
  disconnect_timers = insert id g.next_timer g.disconnect_timers;
  next_timer = g.next_timer + 1;
}

-- The first half of streamEnded, under the lock; whether this was the last stream.
unfoldable pub count_down : Bytes → GamesyncServer → GamesyncServer × Bool
count_down id g =
    let left = count_at id g.stream_counts -ℤ pos 1 in
    (record g { stream_counts = insert id left g.stream_counts }, not (ltb_ℤ (pos 0) left))

unfoldable pub stream_ended : Bytes → GamesyncServer → GamesyncServer
stream_ended id g =
    if (count_down id g).1 then schedule_disconnect id (count_down id g).0 else (count_down id g).0

-- One round of the loop over a deferment's writes.
unfoldable pub cleanup_name :
    Bytes
    → Dict Bytes Bytes
    → Dict Bytes Document
    → WriteOperation
    → Dict Bytes Bool
    → Dict Bytes Bool
cleanup_name id owners documents (delete_document name condition) deleted =
    if owner_of owners name == id && is_ok (check_precondition condition (lookup name documents))
    then insert name true deleted
    else deleted
cleanup_name id owners documents _ deleted = deleted

unfoldable pub cleanup_names :
    Bytes
    → Dict Bytes Bytes
    → Dict Bytes Document
    → List WriteOperation
    → Dict Bytes Bool
    → Dict Bytes Bool
cleanup_names id owners documents [] deleted = deleted
cleanup_names id owners documents (write ∷ writes) deleted =
    cleanup_names id owners documents writes (cleanup_name id owners documents write deleted)

unfoldable pub deferred_names :
    Bytes
    → Dict Bytes Bytes
    → Dict Bytes Document
    → Dict Bytes Deferment
    → Dict Bytes Bool
    → Dict Bytes Bool
deferred_names id owners documents [] deleted = deleted
deferred_names id owners documents ((_, d) ∷ rest) deleted =
    deferred_names id owners documents rest
      (cleanup_names id owners documents d.write_operations deleted)

-- The loop over the owners.
unfoldable pub owned_names : Bytes → Dict Bytes Bytes → Dict Bytes Bool → Dict Bytes Bool
owned_names id [] deleted = deleted
owned_names id ((name, owner) ∷ rest) deleted =
    owned_names id rest (if owner == id then insert name true deleted else deleted)

abbrev pub own_record : Bytes → Bytes
own_record id = text "docs/__us/" ++ id

-- The names whose documents go with the session.
unfoldable pub deleted_names : Bytes → GamesyncSession → GamesyncServer → Dict Bytes Bool
deleted_names id session g =
    let owners = map_at session.game_session g.owners in
    let documents = map_at session.game_session g.documents in
    owned_names id owners
      (deferred_names id owners documents (map_at id g.deferments) ((own_record id, true) ∷ []))

unfoldable pub delete_all {ℓ} : {A : Type ℓ} → Dict Bytes Bool → Dict Bytes A → Dict Bytes A
delete_all [] m = m
delete_all ((name, _) ∷ names) m = delete_all names (delete name m)

-- The part under the lock.
unfoldable pub removed : Bytes → GamesyncSession → GamesyncServer → GamesyncServer
removed id session g =
    let game = session.game_session in
    let names = deleted_names id session g in
    record g {
      documents = insert game (delete_all names (map_at game g.documents)) g.documents;
      owners = insert game (delete_all names (map_at game g.owners)) g.owners;
      sessions = delete id g.sessions;
      deferments = delete id g.deferments;
      disconnect_timers = delete id g.disconnect_timers;
      stream_counts = delete id g.stream_counts;
    }

abbrev reopened : Document → Time → Document
reopened control now = record control {
  fields = insert (text "ebf") (boolean_value false) (
      insert (text "ip") (boolean_value true)
        (insert (text "cp") (boolean_value true) control.fields));
  update_time = now;
}

-- The subscribers of a room change alike.
abbrev pub tell :
    Bytes → (GamesyncSubscriber → GamesyncSubscriber) → GamesyncServer → GamesyncServer
tell game change g = record g {
  subscribers = insert game (map_values change (map_at game g.subscribers)) g.subscribers;
}

-- g.streamCounts[id] > 0 || g.disconnectTimers[id] != timer
abbrev pub timer_stale : Bytes → ℕ → GamesyncServer → Bool
timer_stale id timer g =
    ltb_ℤ (pos 0) (count_at id g.stream_counts)
    || not (elim (lookup id g.disconnect_timers) [ none ↦ false | some t ↦ t == timer ])

module _ (size : KeepUserSessionResponse → ℕ) where
  -- The control document of a raid whose guest has left opens the room again.
  reopen_control : Bytes → Time → Document → GamesyncServer → GamesyncServer
  reopen_control game now control g =
      let open_again = reopened control now in
      tell game (publish size open_again) (record g {
        documents =
            insert game (insert control.name open_again (map_at game g.documents)) g.documents;
        registry = update_room_control g.registry game open_again.fields;
      })

  unfoldable pub reopen_raid : Bytes → Time → GamesyncServer → GamesyncServer
  unfolding reopen_control
  reopen_raid game now g =
      if raid_needs_reopen g.registry game
      then elim (lookup control_name (map_at game g.documents)) [
        | none ↦ g
        | some control ↦ reopen_control game now control g
      ]
      else g

  unfoldable pub tell_deleted : Bytes → Dict Bytes Bool → GamesyncServer → GamesyncServer
  tell_deleted game [] g = g
  tell_deleted game ((name, _) ∷ names) g =
      tell_deleted game names (tell game (publish_deleted size name) g)

  -- The member leaves its room, and the subscribers learn what was deleted.
  unfoldable pub left : Bytes → GamesyncSession → Time → GamesyncServer → GamesyncServer
  left id session now g =
      let game = session.game_session in
      let without = removed id session g in
      tell_deleted game (deleted_names id session g) (
        reopen_raid game now
          (record without { registry = depart without.registry game session.user_session }))

  unfoldable pub expire_session : Bytes → ℕ → Time → GamesyncServer → GamesyncServer
  expire_session id timer now g =
      if timer_stale id timer g
      then g
      else elim (lookup id g.sessions) [ none ↦ g | some session ↦ left id session now g ]
