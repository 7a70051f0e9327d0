-- ===== src/Tests/TradeBoxRuns.antt =====
-- Runs and witnesses of the trade-box service: ann waits with a box, and bob comes with another.
use pokemon_violet.Base.{
  ℕ, ◌≤◌, ◌≡◌, refl, sym, subst, ◌≢◌, inl, inr, true, false, none, some, List, [], ◌∷◌, arith,
  ==_iff, nat_eq, bytes_beq, bytes_eq, length, get_elem?,
}
use pokemon_violet.Base.Dict.{lookup, insert}
use pokemon_violet.Base.Int.{pos, int_eq}
use pokemon_violet.Base.Result.{Code, invalid_argument, diverges, err, ok}
use pokemon_violet.Base.Text.{Bytes, text, Lacks}
use pokemon_violet.TradeBox.Message.{
  Time, TimberTradeBox, zero_box, CreateTradeBoxRequest, zero_request, trade_box_trading,
  max_trade_box_request, max_trade_box_payload, max_trade_box_signature,
}
use pokemon_violet.Wire.Loop.{parse_fields}
use pokemon_violet.TradeBox.Parse.{
  parse_timestamp, parse_proto_string_message, box_case, parse_timber_trade_box, create_case,
  check_create, parse_create_trade_box_request,
}
use pokemon_violet.TradeBox.Marshal.{marshal_timber_trade_box, marshal_track_trade_box_response}
use pokemon_violet.TradeBox.Bounds.{parsers_return, IsBoxBounded, parse_create_bounds}
use pokemon_violet.TradeBox.Encoding.{IsTime}
use pokemon_violet.TradeBox.RoundTrip.{parse-marshal_trade_box}
use pokemon_violet.TradeBox.Server.{
  Entry, Server, trade_box_storage_key_for_app, new_trade_box_server, valid_trade_box_parent,
  valid_trade_box_id, entry_at, traded, pair_entry, pair_waiting, fill_entry, empty_entry,
  place_box, new_box, create_for_owner_app, cancel_for_owner_app,
}
use pokemon_violet.TradeBox.Ready.{Among}
use pokemon_violet.TradeBox.Invariant.{Inv, new-Inv}
use pokemon_violet.TradeBox.History.{
  run, Call, creates, cancels, step, run-Good, waiting_one_owner, matched_settled,
}
use pokemon_violet.TradeBox.Trade.{create_swaps, create_error_unchanged, cancel_others}
use pokemon_violet.TradeBox.Swap.{Swapped}
use pokemon_violet.TradeBox.Stream.{stream_event, notified, open_stream, partner_notified}
use pokemon_violet.Tests.ToyWire.{toy, toy_laws}

abbrev ann : Bytes
ann = 97 ∷ []

abbrev bob : Bytes
bob = 98 ∷ []

abbrev users_parent : Bytes
users_parent = text "tenants/current/users/current"

abbrev now_time : Time
now_time = record { seconds = pos 1700000000; nanos = 5 }

abbrev box_of : Bytes → TimberTradeBox
box_of payload = record {
  name = text "b";
  state = 1;
  timestamp = now_time;
  payload = payload;
  signature = 7 ∷ payload;
}

abbrev request_of : Bytes → CreateTradeBoxRequest
request_of payload = record {
  parent = users_parent;
  trade_box = box_of payload;
  trade_box_id = 120 ∷ [];
}

abbrev ann_creates : Call
ann_creates = creates ann [] (request_of (1 ∷ [])) none now_time

abbrev bob_creates : Call
bob_creates = creates bob [] (request_of (2 ∷ [])) none now_time

abbrev request_second : Bytes → CreateTradeBoxRequest
request_second payload = record (request_of payload) { trade_box_id = 121 ∷ [] }

abbrev ann_creates_second : Call
ann_creates_second = creates ann [] (request_second (3 ∷ [])) none now_time

abbrev second_key : Bytes
second_key = trade_box_storage_key_for_app ann [] (121 ∷ [])

abbrev ann_box : TimberTradeBox
ann_box = new_box (request_of (1 ∷ [])) (120 ∷ []) now_time

abbrev bob_box : TimberTradeBox
bob_box = new_box (request_of (2 ∷ [])) (120 ∷ []) now_time

abbrev ann_key : Bytes
ann_key = trade_box_storage_key_for_app ann [] (120 ∷ [])

abbrev bob_key : Bytes
bob_key = trade_box_storage_key_for_app bob [] (120 ∷ [])

abbrev ann_entry : Entry
ann_entry = fill_entry (empty_entry ann [] zero_box) ann_box

abbrev waiting_server : Server
waiting_server = run new_trade_box_server (ann_creates ∷ [])

abbrev traded_server : Server
traded_server = run new_trade_box_server (ann_creates ∷ bob_creates ∷ [])

ann_clean : Lacks 0 ann
ann_clean = ((λ e. omega arith), tt)

bob_clean : Lacks 0 bob
bob_clean = ((λ e. omega arith), tt)

ann_waits :
    waiting_server
    ≡ record { heap = ann_entry ∷ []; boxes = (ann_key, 0) ∷ []; waiting = ann_key ∷ [] }
unfolding run step create_for_owner_app place_box pair_waiting valid_trade_box_parent
    valid_trade_box_id entry_at lookup insert bytes_beq new_trade_box_server
    trade_box_storage_key_for_app
ann_waits = refl

bob_trades :
    create_for_owner_app waiting_server bob [] (request_of (2 ∷ [])) none now_time
    ≡ (traded_server, ok bob_box)
unfolding run step create_for_owner_app place_box pair_waiting valid_trade_box_parent
    valid_trade_box_id entry_at lookup insert bytes_beq new_trade_box_server
    trade_box_storage_key_for_app
bob_trades = refl

ann_found : entry_at ann_key waiting_server.boxes waiting_server.heap ≡ some (0, ann_entry)
unfolding run step create_for_owner_app place_box pair_waiting valid_trade_box_parent
    valid_trade_box_id entry_at lookup insert bytes_beq new_trade_box_server
    trade_box_storage_key_for_app
ann_found = refl

ann-Among : Among ann_key waiting_server.waiting
unfolding run step create_for_owner_app place_box pair_waiting valid_trade_box_parent
    valid_trade_box_id entry_at lookup insert bytes_beq new_trade_box_server
    trade_box_storage_key_for_app
ann-Among = inl refl

ann_not_bob : ann ≢ bob
unfolding bytes_beq
ann_not_bob e = let same : bytes_beq ann bob ≡ true = (==_iff ann bob).1 e in cc

ann_matched : (e : Entry) × (get_elem? traded_server.heap 0 ≡ some e) × (e.matched ≡ true)
unfolding run step create_for_owner_app place_box pair_waiting valid_trade_box_parent
    valid_trade_box_id entry_at lookup insert bytes_beq new_trade_box_server
    trade_box_storage_key_for_app
ann_matched = (pair_entry ann_entry bob_box now_time, refl, refl)

waiting-Inv : Inv waiting_server
waiting-Inv = (run-Good new_trade_box_server (ann_creates ∷ []) new-Inv (ann_clean, tt)).inv

parsers_return_example :
    (parse_proto_string_message toy (1 ∷ 2 ∷ []) ≢ err diverges)
    × (parse_timestamp toy (1 ∷ 2 ∷ []) ≢ err diverges)
    × (parse_timber_trade_box toy (1 ∷ 2 ∷ []) ≢ err diverges)
    × (parse_create_trade_box_request toy (1 ∷ 2 ∷ []) ≢ err diverges)
parsers_return_example = parsers_return toy toy_laws (1 ∷ 2 ∷ [])

abbrev request_bytes : Bytes
request_bytes = 1 ∷ 2 ∷ 1 ∷ 47 ∷ 2 ∷ 2 ∷ 8 ∷ 4 ∷ 2 ∷ 1 ∷ 9 ∷ 5 ∷ 2 ∷ 1 ∷ 7 ∷ []

abbrev parsed_request : CreateTradeBoxRequest
parsed_request = record {
  parent = 47 ∷ [];
  trade_box = record zero_box { payload = 9 ∷ []; signature = 7 ∷ [] };
  trade_box_id = [];
}

request_parsed : parse_create_trade_box_request toy request_bytes ≡ ok parsed_request
unfolding parse_create_trade_box_request check_create parse_fields create_case
    parse_timber_trade_box box_case toy bytes_beq
request_parsed = refl

parse_create_bounds_example :
    (length request_bytes ≤ max_trade_box_request)
    × ((1 ≤ length parsed_request.parent)
        × (length parsed_request.parent ≤ 512)
        × (length parsed_request.trade_box_id ≤ 128)
        × (1 ≤ length parsed_request.trade_box.payload)
        × (length parsed_request.trade_box.payload ≤ max_trade_box_payload)
        × (1 ≤ length parsed_request.trade_box.signature)
        × (length parsed_request.trade_box.signature ≤ max_trade_box_signature)
        × (length parsed_request.trade_box.name ≤ 512)
        × (parsed_request.trade_box.state ≤ trade_box_trading))
parse_create_bounds_example = parse_create_bounds toy request_bytes parsed_request request_parsed

ann-IsBoxBounded : IsBoxBounded (box_of (1 ∷ []))
ann-IsBoxBounded = omega arith

now-IsTime : IsTime now_time
now-IsTime = omega arith

parse-marshal_trade_box_example :
    parse_timber_trade_box toy (marshal_timber_trade_box toy (box_of (1 ∷ [])))
    ≡ ok (box_of (1 ∷ []))
parse-marshal_trade_box_example =
    parse-marshal_trade_box toy toy_laws (box_of (1 ∷ [])) ann-IsBoxBounded now-IsTime (omega arith)

abbrev second_entry : Entry
second_entry =
    fill_entry (empty_entry ann [] zero_box) (new_box (request_second (3 ∷ [])) (121 ∷ []) now_time)

both_wait :
    let s = run new_trade_box_server (ann_creates ∷ ann_creates_second ∷ []) in
    (s.waiting ≡ ann_key ∷ second_key ∷ [])
    × (entry_at ann_key s.boxes s.heap ≡ some (0, ann_entry))
    × (entry_at second_key s.boxes s.heap ≡ some (1, second_entry))
unfolding run step create_for_owner_app place_box pair_waiting valid_trade_box_parent
    valid_trade_box_id entry_at lookup insert bytes_beq new_trade_box_server
    trade_box_storage_key_for_app
both_wait = (refl, refl, refl)

waiting_one_owner_example : ann_entry.owner ≡ second_entry.owner
waiting_one_owner_example =
    waiting_one_owner (ann_creates ∷ ann_creates_second ∷ []) ann_key second_key 0 1 ann_entry
      second_entry (ann_clean, (ann_clean, tt))
      (subst (λ (ks : List Bytes). Among ann_key ks) (sym both_wait.0) (inl refl))
      (subst (λ (ks : List Bytes). Among second_key ks) (sym both_wait.0) (inr (inl refl)))
      both_wait.1 both_wait.2

matched_settled_example :
    (f : Entry) × (get_elem? (run traded_server (cancels ann [] (120 ∷ []) true ∷ [])).heap 0
      ≡ some f)
    × (f.matched ≡ true)
    × (f.result ≡ ann_matched.0.result)
    × (f.box ≡ ann_matched.0.box)
matched_settled_example =
    matched_settled (ann_creates ∷ bob_creates ∷ []) (cancels ann [] (120 ∷ []) true ∷ []) 0
      ann_matched.0 (ann_clean, (bob_clean, tt)) (ann_clean, tt) ann_matched.1 ann_matched.2

create_swaps_example :
    Swapped waiting_server.heap traded_server.heap bob bob_box now_time
    × (bob_box.payload ≡ 2 ∷ [])
    × (bob_box.signature ≡ 7 ∷ 2 ∷ [])
    × (bob_box.state ≡ trade_box_trading)
create_swaps_example =
    create_swaps waiting_server bob [] (request_of (2 ∷ [])) none now_time ann_key 0 ann_entry
      traded_server bob_box waiting-Inv bob_clean ann-Among ann_found refl ann_not_bob bob_trades

no_parent :
    (create_for_owner_app waiting_server bob [] zero_request none now_time).1 ≡ err invalid_argument
unfolding create_for_owner_app valid_trade_box_parent bytes_beq
no_parent = refl

create_error_unchanged_example :
    (create_for_owner_app waiting_server bob [] zero_request none now_time).0 ≡ waiting_server
create_error_unchanged_example =
    create_error_unchanged waiting_server bob [] zero_request none now_time invalid_argument
      no_parent

ann_stands : get_elem? waiting_server.heap 0 ≡ some ann_entry
unfolding run step create_for_owner_app place_box pair_waiting valid_trade_box_parent
    valid_trade_box_id entry_at lookup insert bytes_beq new_trade_box_server
    trade_box_storage_key_for_app
ann_stands = refl

cancel_others_example :
    let (t, reply) = cancel_for_owner_app waiting_server bob [] (120 ∷ []) true in
    ((k : Bytes) (q : ℕ) (f : Entry)
      → entry_at k waiting_server.boxes waiting_server.heap ≡ some (q, f)
      → f.owner ≢ bob
      → entry_at k t.boxes t.heap ≡ some (q, f))
    × ((q : ℕ) (f : Entry)
        → get_elem? waiting_server.heap q ≡ some f
        → f.owner ≢ bob
        → get_elem? t.heap q ≡ some f)
    × (t.waiting ≡ waiting_server.waiting)
    × ((c : Code) → reply ≡ err c → t ≡ waiting_server)
cancel_others_example = cancel_others waiting_server bob [] (120 ∷ []) true

partner_notified_example :
    (q : ℕ) × (c : Entry) × (d : Entry) × (get_elem? waiting_server.heap q ≡ some c)
    × (c.owner ≢ bob)
    × (get_elem? traded_server.heap q ≡ some d)
    × (stream_event toy none notified d ≡ record {
      entry = record d { notify = false };
      sent =
          marshal_track_trade_box_response toy (some (traded c.box bob_box now_time)) false 0 ∷ [];
      returned = some (ok tt);
    })
    × ((open_stream toy none d).sent
        ≡ marshal_track_trade_box_response toy (some (traded c.box bob_box now_time)) false 0 ∷ [])
partner_notified_example =
    partner_notified toy waiting_server bob [] (request_of (2 ∷ [])) none now_time ann_key 0
      ann_entry traded_server bob_box waiting-Inv bob_clean ann-Among ann_found refl ann_not_bob
      bob_trades
