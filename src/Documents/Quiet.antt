-- ===== src/Documents/Quiet.antt =====
-- gamesync.go and gamesync_store.go: the operations that leave the sessions and their numbers alone.
use pokemon_violet.Base.{
  ℕ, ◌≡◌, refl, sym, ap, ◌∙◌, inl, inr, ◌||◌, Option, none, some, [], Bool-cases, Option-cases,
  ◌==◌, nat_eq, bytes_eq,
}
use pokemon_violet.Base.Dict.{lookup}
use pokemon_violet.Base.Int.{ℤ, pos, ltb_ℤ, int_eq}
use pokemon_violet.Base.Result.{Code, plain, err, ok, Result-cases, ok-inj}
use pokemon_violet.Base.Text.{Bytes}
use pokemon_violet.TradeBox.Message.{Time}
use pokemon_violet.Session.Message.{GameSession}
use pokemon_violet.Documents.Message.{GamesyncSession}
use pokemon_violet.Documents.Writable.{is_some}
use pokemon_violet.Documents.Server.{
  GamesyncServer, KeepUserSessionResponse, AccessClaims, authorized_session, GamesyncSubscriber,
  map_at,
}
use pokemon_violet.Documents.Expire.{
  count_at, stream_started, schedule_disconnect, count_down, stream_ended,
}
use pokemon_violet.Documents.Token.{initialize_fixed_data, fixed_name, with_fixed_data}
use pokemon_violet.Documents.Reads.{committed_snapshot}
use pokemon_violet.Documents.Watch.{
  keep_user_session_step, add_subscriber, remove_subscriber, RequestType, KeepUserSessionRequest,
  OpenStream, serve_request, keep_user_session_open, keep_user_session_close, install_target,
  delete_target, send_echo, echo_request, update_target_request, delete_target_request,
  empty_request, change_subscriber,
}
use pokemon_violet.Documents.Sequence.{numbers_of}

pub prepares-numbers :
    (seed_size : ℤ) (seed : ℤ → Option Bytes) (gs : GameSession) (now : Time)
    (g after : GamesyncServer)
    → initialize_fixed_data seed_size seed gs now g ≡ ok after
    → numbers_of after ≡ numbers_of g
unfolding initialize_fixed_data
prepares-numbers seed_size seed gs now g after done =
    elim (Bool-cases (is_some (lookup fixed_name (map_at gs.name g.documents)))) [
      | inl there ↦
          let step : initialize_fixed_data seed_size seed gs now g ≡ ok g = rw there refl in
          ap numbers_of (sym (ok-inj (sym step ∙ done)))
      | inr absent ↦ elim (Bool-cases (ltb_ℤ seed_size (pos 16) || ltb_ℤ (pos 64) seed_size)) [
        | inl odd ↦
            let step : initialize_fixed_data seed_size seed gs now g ≡ err plain =
              rw absent (rw odd refl) in
            cc
        | inr even ↦ elim (Option-cases (seed seed_size)) [
          | inl failed ↦
              let step : initialize_fixed_data seed_size seed gs now g ≡ err plain =
                rw absent (rw even (rw (failed, initialize_fixed_data) refl)) in
              cc
          | inr (bytes, drawn) ↦
              let step : initialize_fixed_data seed_size seed gs now g
                  ≡ ok (with_fixed_data gs bytes now g) =
                rw absent (rw even (rw (drawn, initialize_fixed_data) refl)) in
              ap numbers_of (sym (ok-inj (sym step ∙ done)))
        ]
      ]
    ]

pub schedule-numbers :
    (id : Bytes) (g : GamesyncServer) → numbers_of (schedule_disconnect id g) ≡ numbers_of g
unfolding schedule_disconnect
schedule-numbers id g = elim (Bool-cases (ltb_ℤ (pos 0) (count_at id g.stream_counts))) [
  | inl busy ↦ rw busy refl
  | inr idle ↦ rw idle refl
]

pub open-numbers :
    (number : ℕ) (caller : Option AccessClaims) (g : GamesyncServer)
    → numbers_of (keep_user_session_open number caller g).0 ≡ numbers_of g
unfolding keep_user_session_open add_subscriber stream_started
open-numbers number caller g = elim (Result-cases (authorized_session g caller [])) [
  | inl (c, refused) ↦ rw (refused, keep_user_session_open) refl
  | inr (session, allowed) ↦ rw (allowed, keep_user_session_open) refl
]

pub close-numbers :
    (s : OpenStream) (g : GamesyncServer) → numbers_of (keep_user_session_close s g) ≡ numbers_of g
unfolding keep_user_session_close remove_subscriber stream_ended count_down
close-numbers s g = elim (Bool-cases (count_down s.user_session_id g).1) [
  | inl last ↦ rw last (schedule-numbers s.user_session_id (count_down s.user_session_id g).0)
  | inr more ↦ rw more refl
]

pub change-numbers :
    (size : KeepUserSessionResponse → ℕ) (s : OpenStream)
    (change : GamesyncSubscriber → GamesyncSubscriber × Option Code) (g : GamesyncServer)
    → numbers_of (change_subscriber size s change g).0 ≡ numbers_of g
unfolding add_subscriber
change-numbers size s change g =
    elim (Option-cases (lookup s.number (map_at s.game g.subscribers))) [
      | inl closed ↦ rw (closed, change_subscriber) refl
      | inr (subscriber, found) ↦ rw (found, change_subscriber) refl
    ]

pub serve-numbers :
    (size : KeepUserSessionResponse → ℕ) (s : OpenStream) (session : GamesyncSession)
    (request : RequestType) (g : GamesyncServer)
    → numbers_of (serve_request size s session request g).0 ≡ numbers_of g
serve-numbers size s session (echo_request words) g = elim (Bool-cases (words == [])) [
  | inl silent ↦ rw silent refl
  | inr loud ↦ rw loud (change-numbers size s (send_echo size words) g)
]
serve-numbers size s session (update_target_request (some target)) g =
    change-numbers size s (install_target size target (committed_snapshot g session target)) g
serve-numbers size s session (update_target_request none) g = refl
serve-numbers size s session (delete_target_request name) g =
    change-numbers size s (delete_target size name) g
serve-numbers size s session empty_request g = refl

pub step-numbers :
    (size : KeepUserSessionResponse → ℕ) (s : OpenStream) (caller : Option AccessClaims)
    (request : KeepUserSessionRequest) (g : GamesyncServer)
    → numbers_of (keep_user_session_step size s caller request g).0 ≡ numbers_of g
unfolding keep_user_session_step
step-numbers size s caller request g =
    elim (Result-cases (authorized_session g caller request.name)) [
      | inl (c, refused) ↦ rw (refused, keep_user_session_step) refl
      | inr (session, allowed) ↦
          rw (allowed, keep_user_session_step) (serve-numbers size s session request.request_type g)
    ]
