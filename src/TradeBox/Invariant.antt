-- ===== src/TradeBox/Invariant.antt =====
-- trade_box.go: what holds of the server between two calls.
use pokemon_violet.Base.{
  ℕ, ◌≡◌, sym, ◌∙◌, subst, inl, inr, true, some, List, [], ◌∷◌, arith, Option-cases, nat_eq,
  bytes_eq, get_elem?,
}
use pokemon_violet.Base.Dict.{lookup}
use pokemon_violet.Base.Int.{int_eq}
use pokemon_violet.Base.Text.{Bytes, before}
use pokemon_violet.TradeBox.Server.{Entry, Server, entry_at, new_trade_box_server}

-- The owner that a storage key names.
abbrev pub key_owner : Bytes → Bytes
key_owner key = before 0 key

abbrev pub All {ℓ κ} : {A : Type ℓ} → (A → Type κ) → List A → Type κ
All P [] = Unit
All P (x ∷ xs) = P x × All P xs

abbrev pub AllOwnedBy : Bytes → List Bytes → Type 0
AllOwnedBy owner keys = All (λ k. key_owner k ≡ owner) keys

pub record Inv (s : Server) : Type 0 where
  -- A key of the map leads to an entry of the owner that it names.
  pub placed :
      (key : Bytes) (p : ℕ)
      → lookup key s.boxes ≡ some p
      → (e : Entry) × (get_elem? s.heap p ≡ some e) × (e.owner ≡ key_owner key)
  -- Only a created box is matched.
  pub sound :
      (p : ℕ) (e : Entry) → get_elem? s.heap p ≡ some e → e.matched ≡ true → e.created ≡ true
  -- All waiting keys are of one owner.
  pub single : (owner : Bytes) × AllOwnedBy owner s.waiting

pub new-Inv : Inv new_trade_box_server
unfolding new_trade_box_server lookup
new-Inv = record { placed = λ key p e. cc; sound = λ p e at. cc; single = ([], tt) }

-- An entry that is found has its position, and the owner that the key names.
pub entry_at-found :
    (s : Server) (key : Bytes) (p : ℕ) (e : Entry)
    → entry_at key s.boxes s.heap ≡ some (p, e)
    → (lookup key s.boxes ≡ some p) × (get_elem? s.heap p ≡ some e)
unfolding entry_at
entry_at-found s key p e found = elim (Option-cases (lookup key s.boxes)) [
  | inl none_there ↦ ground arith
  | inr (q, at) ↦ elim (Option-cases (get_elem? s.heap q)) [
    | inl dangling ↦ ground arith
    | inr (f, at') ↦ ground arith
  ]
]

pub owner_of_entry :
    (s : Server) (v : Inv s) (key : Bytes) (p : ℕ) (e : Entry)
    → entry_at key s.boxes s.heap ≡ some (p, e)
    → e.owner ≡ key_owner key
owner_of_entry s v key p e found =
    let (at, at') = entry_at-found s key p e found in
    let (f, at'', own) = v.placed key p at in
    let same : f ≡ e = let q : some f ≡ some e = sym at'' ∙ at' in cc in
    subst (λ (x : Entry). x.owner ≡ key_owner key) same own
