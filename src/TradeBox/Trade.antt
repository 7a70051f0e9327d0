-- ===== src/TradeBox/Trade.antt =====
-- trade_box.go: the trade that a successful create makes, and what calls leave alone.
use pokemon_violet.Base.{
  ℕ, ◌≡◌, refl, sym, ap, ◌∙◌, ◌≢◌, inl, inr, Bool, false, Option, some, arith, if◌then◌else◌,
  Bool-cases, Option-cases, ◌==◌, ==_iff, nat_eq, bytes_eq, get_elem?, set, get_elem?-set_ne,
}
use pokemon_violet.Base.Dict.{lookup, delete, lookup-delete_ne}
use pokemon_violet.Base.Int.{int_eq}
use pokemon_violet.Base.Result.{Code, err, ok}
use pokemon_violet.Base.Text.{Bytes, Lacks}
use pokemon_violet.TradeBox.Message.{Time, TimberTradeBox, CreateTradeBoxRequest, trade_box_trading}
use pokemon_violet.TradeBox.Server.{
  Entry, entry_at, is_dead, Server, trade_box_storage_key_for_app, place_box, new_box,
  create_for_owner_app, last_resource_segment, cancel_for_owner_app,
}
use pokemon_violet.TradeBox.Ready.{some_injective, Among}
use pokemon_violet.TradeBox.Invariant.{Inv, entry_at-found}
use pokemon_violet.TradeBox.Preserve.{create_cases}
use pokemon_violet.TradeBox.Placing.{key_owner-storage_key}
use pokemon_violet.TradeBox.Swap.{Swapped, place_box_swaps}

-- Where the invariant holds and the name of the caller has no NUL byte: whenever a live box of
-- another owner waits, a create that succeeds is matched at once. The new box and one such box get
-- the payload and signature of each other, in one step, and the reply is the new box, still
-- trading.
pub create_swaps :
    (s : Server) (owner app_id : Bytes) (req : CreateTradeBoxRequest) (fresh : Option Bytes)
    (now : Time) (k : Bytes) (p : ℕ) (e : Entry) (t : Server) (b : TimberTradeBox)
    → Inv s
    → Lacks 0 owner
    → Among k s.waiting
    → entry_at k s.boxes s.heap ≡ some (p, e)
    → is_dead e ≡ false
    → e.owner ≢ owner
    → create_for_owner_app s owner app_id req fresh now ≡ (t, ok b)
    → Swapped s.heap t.heap owner b now
      × (b.payload ≡ req.trade_box.payload)
      × (b.signature ≡ req.trade_box.signature)
      × (b.state ≡ trade_box_trading)
create_swaps s owner app_id req fresh now k p e t b v clean here found live foreign done =
    elim (create_cases s owner app_id req fresh now) [
      | inl (c, failed) ↦ ground arith
      | inr (id, _, placed) ↦
          let own = sym (key_owner-storage_key owner app_id id clean) in
          let (same, swapped) =
            place_box_swaps s owner app_id (trade_box_storage_key_for_app owner app_id id)
              (new_box req id now) now v own k p e here found live foreign t b
              (sym placed ∙ done) in
          rw same (swapped, refl, refl, refl)
    ]

-- A create that fails, for any reason, leaves the server as it was.
pub create_error_unchanged :
    (s : Server) (owner app_id : Bytes) (req : CreateTradeBoxRequest) (fresh : Option Bytes)
    (now : Time) (c : Code)
    → (create_for_owner_app s owner app_id req fresh now).1 ≡ err c
    → (create_for_owner_app s owner app_id req fresh now).0 ≡ s
unfolding place_box
create_error_unchanged s owner app_id req fresh now c failed =
    elim (create_cases s owner app_id req fresh now) [
      | inl (c', e) ↦ rw e
      | inr (id, _, e) ↦
          let key = trade_box_storage_key_for_app owner app_id id in
          elim (Option-cases (entry_at key s.boxes s.heap)) [
            | inl missing ↦ ground arith
            | inr ((mine, f), found) ↦ ground arith
          ]
    ]

-- An entry of another owner keeps its place when the entry under a key of the caller is replaced.
kept_entry :
    (s : Server) (owner key : Bytes) (p : ℕ) (e e' : Entry)
    → entry_at key s.boxes s.heap ≡ some (p, e)
    → e.owner ≡ owner
    → (q : ℕ) (f : Entry) → get_elem? s.heap q ≡ some f
    → f.owner ≢ owner
    → get_elem? (set s.heap p e') q ≡ some f
kept_entry s owner key p e e' found mine q f at foreign =
    get_elem?-set_ne s.heap e' (λ (same : p ≡ q). foreign (
      ap (λ (x : Entry). x.owner)
        (some_injective
          (sym at ∙ ap (get_elem? s.heap) (sym same) ∙ (entry_at-found s key p e found).1))
      ∙ mine))
    ∙ at

kept_key :
    (s : Server) (owner key : Bytes) (remove : Bool) (p : ℕ) (e e' : Entry)
    → entry_at key s.boxes s.heap ≡ some (p, e)
    → e.owner ≡ owner
    → (k : Bytes) (q : ℕ) (f : Entry) → entry_at k s.boxes s.heap ≡ some (q, f)
    → f.owner ≢ owner
    → entry_at k (if remove then delete key s.boxes else s.boxes) (set s.heap p e') ≡ some (q, f)
unfolding entry_at
kept_key s owner key remove p e e' found mine k q f at foreign =
    let (there, here) = entry_at-found s k q f at in
    let apart : key ≢ k = λ same.
      let both : some (q, f) ≡ some (p, e) =
        sym at ∙ ap (λ j. entry_at j s.boxes s.heap) (sym same) ∙ found in
      let one : f ≡ e = cc in foreign (ap (λ (x : Entry). x.owner) one ∙ mine) in
    let there' : lookup k (if remove then delete key s.boxes else s.boxes) ≡ some q =
      elim (Bool-cases remove) [
        | inl removed ↦ rw (removed, lookup-delete_ne key k s.boxes apart) there
        | inr stays ↦ rw stays there
      ] in
    rw (there', entry_at) (rw (kept_entry s owner key p e e' found mine q f here foreign) refl)

-- Canceling touches boxes of the caller alone. A box of another owner is found under its key as
-- before, with the same entry; an entry of another owner is the same even where no key leads to it;
-- the waiting list is the same; and a cancel that is refused leaves the whole server as it was.
pub cancel_others :
    (s : Server) (owner app_id name : Bytes) (remove : Bool)
    → let (t, reply) = cancel_for_owner_app s owner app_id name remove in
      ((k : Bytes) (q : ℕ) (f : Entry)
        → entry_at k s.boxes s.heap ≡ some (q, f)
        → f.owner ≢ owner
        → entry_at k t.boxes t.heap ≡ some (q, f))
      × ((q : ℕ) (f : Entry)
          → get_elem? s.heap q ≡ some f
          → f.owner ≢ owner
          → get_elem? t.heap q ≡ some f)
      × (t.waiting ≡ s.waiting)
      × ((c : Code) → reply ≡ err c → t ≡ s)
unfolding cancel_for_owner_app
cancel_others s owner app_id name remove =
    let key = trade_box_storage_key_for_app owner app_id (last_resource_segment name) in
    elim (Option-cases (entry_at key s.boxes s.heap)) [
      | inl missing ↦
          rw (missing, cancel_for_owner_app)
            ((λ k q f at foreign. at), (λ q f at foreign. at), refl, (λ c failed. refl))
      | inr ((p, e), found) ↦ elim (Bool-cases (e.owner == owner)) [
        | inr other ↦
            rw (found, cancel_for_owner_app)
              (rw other
                ((λ k q f at foreign. at), (λ q f at foreign. at), refl, (λ c failed. refl)))
        | inl own ↦
            let mine = (==_iff e.owner owner).0 own in
            rw (found, cancel_for_owner_app)
              (rw own (
                kept_key s owner key remove p e _ found mine,
                kept_entry s owner key p e _ found mine,
                refl,
                (λ c failed. absurd (ground (arith, failed))),
              ))
      ]
    ]
