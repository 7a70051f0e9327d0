-- ===== src/TradeBox/Stream.antt =====
-- trade_box.go: the RPC handlers, and the stream of TrackTradeBox as steps on its entry.
-- The caller's identity and application come from the token, as arguments; logging is left out.
use pokemon_violet.Base.{
  ℕ, ◌≡◌, ◌≢◌, Bool, true, false, ◌&&◌, not, Option, none, some, List, [], ◌∷◌, arith,
  if◌then◌else◌, get_elem?,
}
use pokemon_violet.Base.Result.{Code, canceled, Result, err, ok, ◌>>=◌}
use pokemon_violet.Base.Text.{Bytes, Lacks}
use pokemon_violet.Wire.{Wire}
use pokemon_violet.TradeBox.Message.{Time, TimberTradeBox, CreateTradeBoxRequest}
use pokemon_violet.TradeBox.Parse.{parse_create_trade_box_request, parse_proto_string_message}
use pokemon_violet.TradeBox.Marshal.{marshal_timber_trade_box, marshal_track_trade_box_response}
use pokemon_violet.TradeBox.Server.{
  Entry, Server, create_for_owner_app, entry_at, is_dead, traded, track_for_owner_app,
  cancel_for_owner_app,
}
use pokemon_violet.TradeBox.Invariant.{Inv}
use pokemon_violet.TradeBox.Ready.{Among}
use pokemon_violet.TradeBox.Trade.{create_swaps}

-- What a stream meets next: the end of its context with the context's error, a signal, which can
-- come only while the entry's channel holds one, or the ticker.
pub data StreamEvent : Type 0 where
  context_done : Code → StreamEvent
  notified ticked : StreamEvent

-- The messages sent, and the handler's return if it returns.
pub record StreamStep : Type 0 where
  pub entry : Entry
  pub sent : List Bytes
  pub returned : Option (Result (Unit {0}))

module _ (w : Wire) where
  -- CreateTradeBox
  unfoldable pub create_trade_box :
      Server → Result Bytes → Bytes → Bytes → Option Bytes → Time → Server × Result Bytes
  create_trade_box s (err c) app_id message fresh now = (s, err c)
  create_trade_box s (ok owner) app_id message fresh now =
      elim (parse_create_trade_box_request w message) [
        | err c ↦ (s, err c)
        | ok req ↦
            let (t, made) = create_for_owner_app s owner app_id req fresh now in
            (t, made >>= λ box. ok (marshal_timber_trade_box w box))
      ]

  -- DeleteTradeBox with `remove`, CancelTradeBox without; the reply is an empty message.
  unfoldable pub cancel_trade_box :
      Server → Result Bytes → Bytes → Bytes → Bool → Server × Result Bytes
  cancel_trade_box s (err c) app_id message remove = (s, err c)
  cancel_trade_box s (ok owner) app_id message remove =
      elim (parse_proto_string_message w message) [
        | err c ↦ (s, err c)
        | ok name ↦
            let (t, done) = cancel_for_owner_app s owner app_id name remove in
            (t, done >>= λ _. ok [])
      ]

  -- The start of TrackTradeBox: the entry to follow.
  unfoldable pub track_trade_box : Server → Result Bytes → Bytes → Bytes → Server × Result ℕ
  track_trade_box s (err c) app_id message = (s, err c)
  track_trade_box s (ok owner) app_id message = elim (parse_proto_string_message w message) [
    | err c ↦ (s, err c)
    | ok name ↦ track_for_owner_app s owner app_id name
  ]

  -- The first argument is the error of SendMsg, if it fails:
  -- if err := stream.SendMsg(...); err != nil { return err }
  send : Option Code → Entry → Bytes → StreamStep
  send none e message = record { entry = e; sent = message ∷ []; returned = none }
  send (some c) e message = record { entry = e; sent = []; returned = some (err c) }

  -- return stream.SendMsg(...)
  send_last : Option Code → Entry → Bytes → StreamStep
  send_last none e message = record { entry = e; sent = message ∷ []; returned = some (ok tt) }
  send_last (some c) e message = record { entry = e; sent = []; returned = some (err c) }

  -- The first message of the stream.
  unfoldable pub open_stream : Option Code → Entry → StreamStep
  unfolding send send_last
  open_stream failure e =
      if e.created && e.matched
      then send_last failure e (marshal_track_trade_box_response w (some e.result) false 0)
      else if e.created
      then send failure e (marshal_track_trade_box_response w (some e.box) false 0)
      else send failure e (marshal_track_trade_box_response w none true 0)

  -- One round of the stream's loop.
  unfoldable pub stream_event : Option Code → StreamEvent → Entry → StreamStep
  unfolding send send_last
  stream_event failure (context_done c) e = record { entry = e; sent = []; returned = some (err c) }
  stream_event failure notified e =
      let taken = record e { notify = false } in
      if not e.notify
      then record { entry = e; sent = []; returned = none }
      else if e.canceled && not e.matched
      then record { entry = taken; sent = []; returned = some (err canceled) }
      else if e.matched
      then send_last failure taken (marshal_track_trade_box_response w (some e.result) false 0)
      else if e.created
      then send failure taken (marshal_track_trade_box_response w (some e.box) false 0)
      else record { entry = taken; sent = []; returned = none }
  stream_event failure ticked e = send failure e (marshal_track_trade_box_response w none false 60)

  -- The partner hears of the trade, under the conditions of create_swaps: some box of another
  -- owner stands in the new heap such that the next round of a stream that follows it and is
  -- signaled sends the traded box, with the payload and signature of the new box, and ends the
  -- stream, as long as the connection is up; the signal is there to be taken. A stream that opens
  -- on it later sends the same.
  pub partner_notified :
      (s : Server) (owner app_id : Bytes) (req : CreateTradeBoxRequest) (fresh : Option Bytes)
      (now : Time) (k : Bytes) (p : ℕ) (e : Entry) (t : Server) (b : TimberTradeBox)
      → Inv s
      → Lacks 0 owner
      → Among k s.waiting
      → entry_at k s.boxes s.heap ≡ some (p, e)
      → is_dead e ≡ false
      → e.owner ≢ owner
      → create_for_owner_app s owner app_id req fresh now ≡ (t, ok b)
      → (q : ℕ) × (c : Entry) × (d : Entry) × (get_elem? s.heap q ≡ some c)
        × (c.owner ≢ owner)
        × (get_elem? t.heap q ≡ some d)
        × (stream_event none notified d ≡ record {
          entry = record d { notify = false };
          sent = marshal_track_trade_box_response w (some (traded c.box b now)) false 0 ∷ [];
          returned = some (ok tt);
        })
        × ((open_stream none d).sent
            ≡ marshal_track_trade_box_response w (some (traded c.box b now)) false 0 ∷ [])
  unfolding stream_event open_stream traded
  partner_notified s owner app_id req fresh now k p e t b v clean here found live foreign done =
      let (swapped, _, _, _) =
        create_swaps s owner app_id req fresh now k p e t b v clean here found live foreign done in
      let (_, _, q, c, d, _, _, _, _, _, at, live_c, apart, at_d, m, r, n, made) = swapped in
      (q, c, d, at, apart, at_d, ground (arith, m, n, r, made), ground (arith, m, made, r))
