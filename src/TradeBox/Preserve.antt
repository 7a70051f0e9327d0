-- ===== src/TradeBox/Preserve.antt =====
-- trade_box.go: the invariant of the server through each of its calls.
use pokemon_violet.Base.{
  ℕ, ◌≡◌, refl, sym, subst, ◌⊎◌, inl, inr, Bool, true, ◌||◌, not, Option, some, [], ◌∷◌, ◌++◌,
  if◌then◌else◌, Bool-cases, Option-cases, ◌==◌, nat_eq, bytes_eq, length, get_elem?, set,
  get_elem?-append_last,
}
use pokemon_violet.Base.Dict.{delete, insert}
use pokemon_violet.Base.Int.{int_eq}
use pokemon_violet.Base.Result.{Code, invalid_argument, internal, err}
use pokemon_violet.Base.Text.{Bytes, text, Lacks}
use pokemon_violet.TradeBox.Message.{Time, TimberTradeBox, CreateTradeBoxRequest}
use pokemon_violet.TradeBox.Server.{
  Entry, Server, entry_at, trade_box_storage_key_for_app, empty_entry, valid_trade_box_id,
  signal_locked, place_box, create_for_owner_app, validate_trade_box_resource_name, place_track,
  track_for_owner_app, cancel_for_owner_app, valid_trade_box_parent, chosen_id, new_box,
  last_resource_segment,
}
use pokemon_violet.TradeBox.Heap.{Keeps, Grows-set, Grows-append}
use pokemon_violet.TradeBox.Invariant.{key_owner, Inv, entry_at-found}
use pokemon_violet.TradeBox.Ready.{Sound-append, get_elem?-set_inv}
use pokemon_violet.TradeBox.Placing.{
  Good, Good-refl, key_owner-storage_key, Placed-Grows, Placed-insert, Placed-delete,
  place_box-Good,
}

-- A create either fails and changes nothing, or places a box of its own id.
pub create_cases :
    (s : Server) (owner app_id : Bytes) (req : CreateTradeBoxRequest) (fresh : Option Bytes)
    (now : Time)
    → ((c : Code) × (create_for_owner_app s owner app_id req fresh now ≡ (s, err c)))
      ⊎ ((id : Bytes) × (valid_trade_box_parent req.parent owner ≡ true)
          × (create_for_owner_app s owner app_id req fresh now
              ≡ place_box s owner app_id
                  (trade_box_storage_key_for_app owner app_id id)
                  (new_box req id now)
                  now))
unfolding create_for_owner_app
create_cases s owner app_id req fresh now =
    elim (Bool-cases (valid_trade_box_parent req.parent owner)) [
      | inr bad ↦ inl (invalid_argument, rw bad)
      | inl good ↦ elim (Bool-cases (valid_trade_box_id req.trade_box_id)) [
        | inr bad ↦ inl (invalid_argument, rw (good, bad))
        | inl plain_id ↦ elim (Option-cases (chosen_id req.trade_box_id fresh)) [
          | inl none_left ↦ inl (internal, rw (good, plain_id) (rw none_left))
          | inr (id, chosen) ↦ inr (id, good, rw (good, plain_id) (rw chosen))
        ]
      ]
    ]

pub create-Good :
    (s : Server) (owner app_id : Bytes) (req : CreateTradeBoxRequest) (fresh : Option Bytes)
    (now : Time)
    → Inv s
    → Lacks 0 owner
    → Good s (create_for_owner_app s owner app_id req fresh now).0
create-Good s owner app_id req fresh now v clean =
    elim (create_cases s owner app_id req fresh now) [
      | inl (c, failed) ↦ rw failed (Good-refl s v)
      | inr (id, _, placed) ↦ rw placed (
          place_box-Good s owner app_id _ (new_box req id now) now v
            (sym (key_owner-storage_key owner app_id id clean)))
    ]

fresh_track-Good :
    (s : Server) (owner app_id key : Bytes) (box : TimberTradeBox)
    → Inv s
    → owner ≡ key_owner key
    → let e = empty_entry owner app_id box in
      Good s (record {
        heap = s.heap ++ (e ∷ []);
        boxes = insert key (length s.heap) s.boxes;
        waiting = s.waiting;
      })
fresh_track-Good s owner app_id key box v own =
    let e = empty_entry owner app_id box in
    let grows = Grows-append s.heap (e ∷ []) in
    record {
      inv = record {
        placed =
            Placed-insert s.boxes (s.heap ++ (e ∷ [])) key (length s.heap) e
              (get_elem?-append_last s.heap e) own (Placed-Grows s.boxes s.heap _ grows v.placed);
        sound = Sound-append s.heap e v.sound (λ m. cc);
        single = v.single;
      };
      grows = grows;
    }

place_track-Good :
    (s : Server) (owner app_id key name : Bytes)
    → Inv s
    → owner ≡ key_owner key
    → Good s (place_track s owner app_id key name).0
unfolding place_track
place_track-Good s owner app_id key name v own = elim (Option-cases (entry_at key s.boxes s.heap)) [
  | inl missing ↦ rw (missing, place_track) (fresh_track-Good s owner app_id key _ v own)
  | inr ((p, e), found) ↦ elim (Bool-cases e.canceled) [
    | inl gone ↦ rw (found, place_track) (rw gone (fresh_track-Good s owner app_id key _ v own))
    | inr live ↦ rw (found, place_track) (rw live (Good-refl s v))
  ]
]

pub track-Good :
    (s : Server) (owner app_id name : Bytes)
    → Inv s
    → Lacks 0 owner
    → Good s (track_for_owner_app s owner app_id name).0
unfolding track_for_owner_app
track-Good s owner app_id name v clean =
    elim (Option-cases (validate_trade_box_resource_name name)) [
      | inl bad ↦ rw (bad, track_for_owner_app) (Good-refl s v)
      | inr ((user, id), parts) ↦
          elim (Bool-cases
            (not (user == text "current" || user == owner) || not (valid_trade_box_id id))) [
              | inl refused ↦ rw (parts, track_for_owner_app) (rw refused (Good-refl s v))
              | inr fine ↦
                  rw (parts, track_for_owner_app)
                    (rw fine (
                      place_track-Good s owner app_id _ name v
                        (sym (key_owner-storage_key owner app_id id clean))))
            ]
    ]

cancel_entry-Keeps : (e : Entry) → Keeps e (signal_locked (record e { canceled = true }))
cancel_entry-Keeps e = record {
  owner_kept = refl;
  app_kept = refl;
  created_kept = λ h. (h, refl);
  matched_kept = λ h. (h, refl);
  canceled_kept = λ h. refl;
}

canceled-Good :
    (s : Server) (key : Bytes) (p : ℕ) (e : Entry) (remove : Bool)
    → Inv s
    → get_elem? s.heap p ≡ some e
    → Good s (record {
      heap = set s.heap p (signal_locked (record e { canceled = true }));
      boxes = if remove then delete key s.boxes else s.boxes;
      waiting = s.waiting;
    })
canceled-Good s key p e remove v at =
    let gone = signal_locked (record e { canceled = true }) in
    let grows = Grows-set s.heap p e gone at (cancel_entry-Keeps e) in
    let placed = Placed-Grows s.boxes s.heap (set s.heap p gone) grows v.placed in
    record {
      inv = record {
        placed = elim (Bool-cases remove) [
          | inl drop_it ↦ rw drop_it (Placed-delete s.boxes (set s.heap p gone) key placed)
          | inr keep_it ↦ rw keep_it placed
        ];
        sound = λ q f at' m. elim (get_elem?-set_inv s.heap p q gone f at') [
          | inl same ↦
              let made : gone.created ≡ true =
                v.sound p e at (subst (λ (x : Entry). x.matched ≡ true) (sym same) m) in
              subst (λ (x : Entry). x.created ≡ true) same made
          | inr old ↦ v.sound q f old m
        ];
        single = v.single;
      };
      grows = grows;
    }

pub cancel-Good :
    (s : Server) (owner app_id name : Bytes) (remove : Bool)
    → Inv s
    → Good s (cancel_for_owner_app s owner app_id name remove).0
unfolding cancel_for_owner_app
cancel-Good s owner app_id name remove v =
    let key = trade_box_storage_key_for_app owner app_id (last_resource_segment name) in
    elim (Option-cases (entry_at key s.boxes s.heap)) [
      | inl missing ↦ rw (missing, cancel_for_owner_app) (Good-refl s v)
      | inr ((p, e), found) ↦ elim (Bool-cases (e.owner == owner)) [
        | inr foreign ↦ rw (found, cancel_for_owner_app) (rw foreign (Good-refl s v))
        | inl own ↦
            rw (found, cancel_for_owner_app)
              (rw own (canceled-Good s key p e remove v (entry_at-found s key p e found).1))
      ]
    ]
