-- ===== src/TradeBox/Server.antt =====
-- trade_box.go: the server's state and its operations under the lock.
-- An entry is shared by the map and by the streams that follow it, so entries live in a heap and
-- the map holds their positions. The clock and the fresh id are arguments.
use pokemon_violet.Base.{
  ℕ, Bool, true, false, ◌&&◌, ◌||◌, not, Option, none, some, List, [], ◌∷◌, ◌++◌, leb,
  if◌then◌else◌, ◌==◌, nat_eq, bytes_eq, length, get_elem?, set, exists,
}
use pokemon_violet.Base.Dict.{Dict, lookup, delete, insert}
use pokemon_violet.Base.Int.{int_eq}
use pokemon_violet.Base.Result.{
  invalid_argument, not_found, already_exists, permission_denied, internal, Result, err, ok,
}
use pokemon_violet.Base.Text.{Bytes, text, trim_suffix, split_slash}
use pokemon_violet.TradeBox.Message.{
  Time, TimberTradeBox, zero_box, CreateTradeBoxRequest, trade_box_trading, trade_box_traded,
}

-- `notify` says whether the channel of capacity 1 holds a signal.
pub record Entry : Type 0 where
  pub owner : Bytes
  pub app_id : Bytes
  pub box : TimberTradeBox
  pub result : TimberTradeBox
  pub created : Bool
  pub matched : Bool
  pub canceled : Bool
  pub notify : Bool

pub record Server : Type 0 where
  pub heap : List Entry
  pub boxes : Dict Bytes ℕ
  pub waiting : List Bytes

abbrev pub npln_tenant_id : Bytes
npln_tenant_id = text "t-50e39f8f-lp1"

unfoldable pub trade_box_storage_key_for_app : Bytes → Bytes → Bytes → Bytes
trade_box_storage_key_for_app owner app_id id = owner ++ (0 ∷ (app_id ++ (0 ∷ id)))

unfoldable pub new_trade_box_server : Server
new_trade_box_server = record { heap = []; boxes = []; waiting = [] }

valid_parent_parts : List Bytes → Bytes → Bool
valid_parent_parts (a ∷ b ∷ c ∷ d ∷ []) owner =
    a == text "tenants"
    && c == text "users"
    && (b == text "current" || b == npln_tenant_id)
    && (d == text "current" || d == owner)
valid_parent_parts _ owner = false

unfoldable pub valid_trade_box_parent : Bytes → Bytes → Bool
unfolding valid_parent_parts
valid_trade_box_parent parent owner =
    valid_parent_parts (split_slash (trim_suffix parent (text "/tradeBoxes"))) owner

id_byte : ℕ → Bool
id_byte c =
    (leb b'a' c && leb c b'z')
    || (leb b'A' c && leb c b'Z')
    || (leb b'0' c && leb c b'9')
    || c == b'-'
    || c == b'_'

unfoldable pub valid_trade_box_id : Bytes → Bool
unfolding id_byte
valid_trade_box_id [] = true
valid_trade_box_id (c ∷ value) = id_byte c && valid_trade_box_id value

-- select { case entry.notify <- struct{}{}: default: }
abbrev pub signal_locked : Entry → Entry
signal_locked e = record e { notify = true }

-- The entry behind a map key, with its position: a missing key gives nil.
unfoldable pub entry_at : Bytes → Dict Bytes ℕ → List Entry → Option (ℕ × Entry)
entry_at key boxes heap = elim (lookup key boxes) [
  | none ↦ none
  | some p ↦ elim (get_elem? heap p) [ none ↦ none | some e ↦ some (p, e) ]
]

-- candidate == nil || !candidate.created || candidate.canceled || candidate.matched
abbrev pub is_dead : Entry → Bool
is_dead e = not e.created || e.canceled || e.matched

-- The result of one side: its own box, with the other side's payload and signature.
unfoldable pub traded : TimberTradeBox → TimberTradeBox → Time → TimberTradeBox
traded own other now = record own {
  state = trade_box_traded;
  timestamp = now;
  payload = other.payload;
  signature = other.signature;
}

abbrev pub pair_entry : Entry → TimberTradeBox → Time → Entry
pair_entry e other now =
    signal_locked (record e { result = traded e.box other now; matched = true })

pub record Pairing : Type 0 where
  pub heap : List Entry
  pub waiting : List Bytes
  pub paired : Bool

-- The loop over the waiting list: `me` is the new entry at position `mine`.
unfoldable pub pair_waiting :
    Bytes → Dict Bytes ℕ → List Entry → Bytes → ℕ → Entry → Time → List Bytes → Pairing
pair_waiting owner boxes heap key mine me now [] = record {
  heap = heap;
  waiting = key ∷ [];
  paired = false;
}
pair_waiting owner boxes heap key mine me now (candidate_id ∷ rest) =
    let skipped = pair_waiting owner boxes heap key mine me now rest in
    elim (entry_at candidate_id boxes heap) [
      | none ↦ skipped
      | some (p, candidate) ↦
          if is_dead candidate
          then skipped
          else if candidate.owner == owner
          then record { heap = heap; waiting = rest ++ (candidate_id ∷ key ∷ []); paired = false }
          else record {
            heap =
                set (set heap p (pair_entry candidate me.box now)) mine
                  (pair_entry me candidate.box now);
            waiting = rest;
            paired = true;
          }
    ]

-- The entry that is filled in: the tracked one of the key, or a new one.
abbrev pub fill_entry : Entry → TimberTradeBox → Entry
fill_entry e box = signal_locked (record e { box = box; created = true })

abbrev pub empty_entry : Bytes → Bytes → TimberTradeBox → Entry
empty_entry owner app_id box = record {
  owner = owner;
  app_id = app_id;
  box = box;
  result = zero_box;
  created = false;
  matched = false;
  canceled = false;
  notify = false;
}

-- The entry exists already if it was created or canceled; else it is placed and paired.
unfoldable pub place_box :
    Server → Bytes → Bytes → Bytes → TimberTradeBox → Time → Server × Result TimberTradeBox
place_box s owner app_id key box now = elim (entry_at key s.boxes s.heap) [
  | none ↦
      let mine = length s.heap in
      let me = fill_entry (empty_entry owner app_id zero_box) box in
      let boxes = insert key mine s.boxes in
      let out = pair_waiting owner boxes (s.heap ++ (me ∷ [])) key mine me now s.waiting in
      (record { heap = out.heap; boxes = boxes; waiting = out.waiting }, ok box)
  | some (mine, e) ↦
      if e.created || e.canceled
      then (s, err already_exists)
      else let me = fill_entry e box in
        let out = pair_waiting owner s.boxes (set s.heap mine me) key mine me now s.waiting in
        (record { heap = out.heap; boxes = s.boxes; waiting = out.waiting }, ok box)
]

-- The id of the request, or a fresh one; `none` is a failure of the random source.
abbrev pub chosen_id : Bytes → Option Bytes → Option Bytes
chosen_id id fresh = if id == [] then fresh else some id

-- The box as it is stored: its name, state and time are the server's.
abbrev pub new_box : CreateTradeBoxRequest → Bytes → Time → TimberTradeBox
new_box req id now = record (req.trade_box) {
  name = trim_suffix req.parent (text "/tradeBoxes") ++ (text "/tradeBoxes/" ++ id);
  state = trade_box_trading;
  timestamp = now;
}

unfoldable pub create_for_owner_app :
    Server
    → Bytes
    → Bytes
    → CreateTradeBoxRequest
    → Option Bytes
    → Time
    → Server × Result TimberTradeBox
create_for_owner_app s owner app_id req fresh now =
    let placed : Server × Result TimberTradeBox = elim (chosen_id req.trade_box_id fresh) [
      | none ↦ (s, err internal)
      | some id ↦
          place_box s owner app_id (trade_box_storage_key_for_app owner app_id id)
            (new_box req id now) now
    ] in
    if not (valid_trade_box_parent req.parent owner)
    then (s, err invalid_argument)
    else if not (valid_trade_box_id req.trade_box_id)
    then (s, err invalid_argument)
    else placed

-- strings.LastIndexByte(name, '/')
unfoldable pub last_resource_segment : Bytes → Bytes
last_resource_segment [] = []
last_resource_segment (c ∷ s) =
    if exists (λ b. b == b'/') (c ∷ s) then last_resource_segment s else c ∷ s

unfoldable pub lookup_owned_for_app : Server → Bytes → Bytes → Bytes → Result (ℕ × Entry)
lookup_owned_for_app s owner app_id name =
    elim (entry_at (trade_box_storage_key_for_app owner app_id (last_resource_segment name)) s.boxes
      s.heap) [
        | none ↦ err not_found
        | some (p, e) ↦
            if not e.created || e.canceled
            then err not_found
            else if not (e.owner == owner)
            then err permission_denied
            else ok (p, e)
      ]

valid_name_parts : List Bytes → Option (Bytes × Bytes)
valid_name_parts (a ∷ b ∷ c ∷ d ∷ e ∷ f ∷ []) =
    if a == text "tenants"
      && c == text "users"
      && e == text "tradeBoxes"
      && not (f == [])
      && (b == text "current" || b == npln_tenant_id)
    then some (d, f)
    else none
valid_name_parts _ = none

-- validateTradeBoxResourceName, with the two parts that the caller reads.
unfoldable pub validate_trade_box_resource_name : Bytes → Option (Bytes × Bytes)
unfolding valid_name_parts
validate_trade_box_resource_name name = valid_name_parts (split_slash name)

-- The entry of the key, or a new one in the place of a missing or canceled one.
unfoldable pub place_track : Server → Bytes → Bytes → Bytes → Bytes → Server × ℕ
place_track s owner app_id key name =
    let fresh : Server × ℕ = (
      record {
        heap = s.heap ++ (empty_entry owner app_id (record zero_box { name = name }) ∷ []);
        boxes = insert key (length s.heap) s.boxes;
        waiting = s.waiting;
      },
      length s.heap,
    ) in
    elim (entry_at key s.boxes s.heap) [
      | none ↦ fresh
      | some (p, e) ↦ if e.canceled then fresh else (s, p)
    ]

unfoldable pub track_for_owner_app : Server → Bytes → Bytes → Bytes → Server × Result ℕ
track_for_owner_app s owner app_id name = elim (validate_trade_box_resource_name name) [
  | none ↦ (s, err invalid_argument)
  | some (user, id) ↦
      let (t, p) =
        place_track s owner app_id (trade_box_storage_key_for_app owner app_id id) name in
      if not (user == text "current" || user == owner) || not (valid_trade_box_id id)
      then (s, err invalid_argument)
      else (t, ok p)
]

unfoldable pub cancel_for_owner_app :
    Server → Bytes → Bytes → Bytes → Bool → Server × Result (Unit {0})
cancel_for_owner_app s owner app_id name remove =
    let key = trade_box_storage_key_for_app owner app_id (last_resource_segment name) in
    elim (entry_at key s.boxes s.heap) [
      | none ↦ (s, if remove then ok tt else err not_found)
      | some (p, e) ↦ if not (e.owner == owner) then (s, err permission_denied) else (
        record {
          heap = set s.heap p (signal_locked (record e { canceled = true }));
          boxes = if remove then delete key s.boxes else s.boxes;
          waiting = s.waiting;
        },
        ok tt,
      )
    ]
