-- ===== src/TradeBox/History.antt =====
-- trade_box.go: any sequence of calls of the trade-box server.
use pokemon_violet.Base.{ℕ, ◌≡◌, sym, ◌∙◌, Bool, true, Option, some, List, [], ◌∷◌, get_elem?}
use pokemon_violet.Base.Text.{Bytes, Lacks}
use pokemon_violet.TradeBox.Message.{Time, CreateTradeBoxRequest}
use pokemon_violet.TradeBox.Server.{
  Entry, Server, entry_at, new_trade_box_server, create_for_owner_app, track_for_owner_app,
  cancel_for_owner_app,
}
use pokemon_violet.TradeBox.Heap.{Grows-trans}
use pokemon_violet.TradeBox.Invariant.{Inv, new-Inv, owner_of_entry}
use pokemon_violet.TradeBox.Ready.{Among, owner_of_Among}
use pokemon_violet.TradeBox.Preserve.{create-Good, track-Good, cancel-Good}
use pokemon_violet.TradeBox.Placing.{Good, Good-refl}

-- A call under the lock, with its caller, application, clock and random source.
pub data Call : Type 0 where
  creates : Bytes → Bytes → CreateTradeBoxRequest → Option Bytes → Time → Call
  tracks : Bytes → Bytes → Bytes → Call
  cancels : Bytes → Bytes → Bytes → Bool → Call

unfoldable pub step : Server → Call → Server
step s (creates owner app_id req fresh now) = (create_for_owner_app s owner app_id req fresh now).0
step s (tracks owner app_id name) = (track_for_owner_app s owner app_id name).0
step s (cancels owner app_id name remove) = (cancel_for_owner_app s owner app_id name remove).0

unfoldable pub run : Server → List Call → Server
unfolding step
run s [] = s
run s (c ∷ cs) = run (step s c) cs

-- The caller of a call, and that it holds no NUL byte, which separates the parts of a key.
abbrev pub caller : Call → Bytes
caller (creates owner _ _ _ _) = owner
caller (tracks owner _ _) = owner
caller (cancels owner _ _ _) = owner

abbrev pub Clean : Call → Type 0
Clean c = Lacks 0 (caller c)

abbrev pub AllClean : List Call → Type 0
AllClean [] = Unit {0}
AllClean (c ∷ cs) = Clean c × AllClean cs

step-Good : (s : Server) (c : Call) → Inv s → Clean c → Good s (step s c)
unfolding step
step-Good s (creates owner app_id req fresh now) v clean =
    create-Good s owner app_id req fresh now v clean
step-Good s (tracks owner app_id name) v clean = track-Good s owner app_id name v clean
step-Good s (cancels owner app_id name remove) v clean = cancel-Good s owner app_id name remove v

pub run-Good : (s : Server) (cs : List Call) → Inv s → AllClean cs → Good s (run s cs)
unfolding run
run-Good s [] v clean = Good-refl s v
run-Good s (c ∷ cs) v clean =
    let first = step-Good s c v clean.0 in
    let rest = run-Good (step s c) cs first.inv clean.1 in
    record { inv = rest.inv; grows = Grows-trans s.heap (step s c).heap _ first.grows rest.grows }

-- After any calls on a new server, by callers whose names hold no NUL byte, any two waiting keys
-- that the map leads to an entry have entries of the same owner.
pub waiting_one_owner :
    (cs : List Call) (k j : Bytes) (p q : ℕ) (e f : Entry)
    → AllClean cs
    → let s = run new_trade_box_server cs in
      Among k s.waiting
      → Among j s.waiting
      → entry_at k s.boxes s.heap ≡ some (p, e)
      → entry_at j s.boxes s.heap ≡ some (q, f)
      → e.owner ≡ f.owner
waiting_one_owner cs k j p q e f clean at_k at_j found_k found_j =
    let s = run new_trade_box_server cs in
    let v = (run-Good new_trade_box_server cs new-Inv clean).inv in
    owner_of_entry s v k p e found_k
    ∙ owner_of_Among v.single.0 k s.waiting v.single.1 at_k
    ∙ sym (owner_of_Among v.single.0 j s.waiting v.single.1 at_j)
    ∙ sym (owner_of_entry s v j q f found_j)

-- An entry that any calls on a new server left matched stays at its position, matched, with the
-- same result and the same box, whatever calls follow; the names of the callers hold no NUL byte.
pub matched_settled :
    (before_calls later_calls : List Call) (p : ℕ) (e : Entry)
    → AllClean before_calls
    → AllClean later_calls
    → let s = run new_trade_box_server before_calls in
      get_elem? s.heap p ≡ some e
      → e.matched ≡ true
      → (f : Entry) × (get_elem? (run s later_calls).heap p ≡ some f)
        × (f.matched ≡ true)
        × (f.result ≡ e.result)
        × (f.box ≡ e.box)
matched_settled before_calls later_calls p e clean clean' at m =
    let s = run new_trade_box_server before_calls in
    let v = (run-Good new_trade_box_server before_calls new-Inv clean).inv in
    let (f, at', kept) = (run-Good s later_calls v clean').grows p e at in
    (
      f,
      at',
      (kept.matched_kept m).0,
      (kept.matched_kept m).1,
      (kept.created_kept (v.sound p e at m)).1,
    )
