-- ===== src/Ranked/Restart.antt =====
-- The ranked store across a restart of the server: newRankedStore after recordConsensus.
use pokemon_violet.Base.{
  ◌≡◌, refl, sym, ap, subst, ◌≢◌, inl, inr, true, false, some, [], ◌∷◌, ◌++◌, arith, Bool-cases,
  ◌==◌, ==_iff, ==_ne, nat_eq, bytes_eq,
}
use pokemon_violet.Base.Dict.{Dict}
use pokemon_violet.Base.Int.{ℤ, int_eq}
use pokemon_violet.Base.Result.{ok}
use pokemon_violet.Base.Text.{Bytes, text}
use pokemon_violet.Ranked.Store.{
  RankedStore, File, Fault, faultless, record_consensus, applied, valid_envelope, new_ranked_store,
  persist_locked, valid_ranked_competition_id_string, uid_of, apply_participant,
  ranked_participant_key, processed_key, json_state,
}
use pokemon_violet.Ranked.Json.{
  valid_utf8, runes, rune_size, AllUtf8, insert-AllUtf8, json_dict-AllUtf8,
}
use pokemon_violet.Ranked.Consensus.{record_cases, consensus_once}

-- The competitions are named in ASCII, so a key is valid where its second part is.
key-valid :
    (c x : Bytes)
    → valid_ranked_competition_id_string c ≡ true
    → valid_utf8 x ≡ true
    → valid_utf8 (c ++ (0 ∷ x)) ≡ true
unfolding valid_ranked_competition_id_string valid_utf8 runes rune_size
key-valid c x known good = elim (Bool-cases (c == text "local-ranked-singles-1")) [
  | inl singles ↦ rw ((==_iff c (text "local-ranked-singles-1")).0 singles) good
  | inr other ↦
      let doubles : c ≡ text "local-ranked-doubles-1" =
        (==_iff c (text "local-ranked-doubles-1")).0 (ground (arith, known, other)) in
      rw doubles good
]

envelope-known :
    (c : Bytes) (su : Dict ℤ Bytes) (rs : Dict ℤ ℤ)
    → valid_envelope c su rs ≡ true
    → valid_ranked_competition_id_string c ≡ true
unfolding valid_envelope
envelope-known c su rs good = elim (Bool-cases (valid_ranked_competition_id_string c)) [
  | inl known ↦ known
  | inr odd ↦ ground (arith, good, odd)
]

-- Every string of the store and of the report is valid UTF-8.
abbrev pub StoreUtf8 : RankedStore → Type 0
StoreUtf8 s = AllUtf8 s.participants × AllUtf8 s.processed

abbrev pub ReportUtf8 : Bytes → Dict ℤ Bytes → Type 0
ReportUtf8 g su =
    (valid_utf8 g ≡ true) × (valid_utf8 (uid_of su 1) ≡ true) × (valid_utf8 (uid_of su 2) ≡ true)

applied-StoreUtf8 :
    (s : RankedStore) (g c : Bytes) (su : Dict ℤ Bytes) (rs : Dict ℤ ℤ)
    → StoreUtf8 s
    → ReportUtf8 g su
    → valid_ranked_competition_id_string c ≡ true
    → StoreUtf8 (applied s g c su rs)
unfolding applied apply_participant ranked_participant_key processed_key
applied-StoreUtf8 s g c su rs (people, battles) (game, one, two) known = (
  insert-AllUtf8 (c ++ (0 ∷ uid_of su 2)) _ _ (key-valid c (uid_of su 2) known two) (
      insert-AllUtf8 (c ++ (0 ∷ uid_of su 1)) _ s.participants (key-valid c (uid_of su 1) known one)
        people),
  insert-AllUtf8 (c ++ (0 ∷ g)) true s.processed (key-valid c g known game) battles,
)

reload :
    (s : RankedStore) (file : File)
    → s.path ≢ []
    → StoreUtf8 s
    → new_ranked_store s.path (persist_locked faultless s file).0 ≡ s
unfolding new_ranked_store persist_locked json_state
reload s file named (people, battles) =
    rw (==_ne s.path [] named)
      (rw (json_dict-AllUtf8 s.participants people, json_dict-AllUtf8 s.processed battles) refl)

-- A write that succeeds is read back: where the store has a path, no system call fails, and the
-- keys of the store, the name of the game session and the two user ids are valid UTF-8 (the JSON
-- would change other bytes), the store that a restart loads after an applied battle is the store in
-- memory, whose keys are valid UTF-8 again.
pub restart_reload :
    (s : RankedStore) (file : File) (g c : Bytes) (su : Dict ℤ Bytes) (rs : Dict ℤ ℤ)
    → s.path ≢ []
    → StoreUtf8 s
    → ReportUtf8 g su
    → let o = record_consensus faultless (some s) file g c su rs in
      o.reply ≡ ok true
      → (some (new_ranked_store s.path o.file) ≡ o.store)
        × StoreUtf8 (new_ranked_store s.path o.file)
unfolding applied
restart_reload s file g c su rs named valid report done =
    elim (record_cases faultless s file g c su rs) [
      | inl (e, _) ↦ ground arith
      | inr (inl (e, _, _)) ↦ ground arith
      | inr (inr (e, good, _)) ↦
          let t = applied s g c su rs in
          let again = applied-StoreUtf8 s g c su rs valid report (envelope-known c su rs good) in
          let back : new_ranked_store s.path (persist_locked faultless t file).0 ≡ t =
            reload t file named again in
          rw e (ap (λ (x : RankedStore). some x) back, subst StoreUtf8 (sym back) again)
    ]

-- The restarted server does not apply the battle a second time: it replies false to every later
-- valid report of the same competition and game session, and leaves store and file as they are.
pub restart_once :
    (later : Fault) (s : RankedStore) (file : File) (g c : Bytes) (su su' : Dict ℤ Bytes)
    (rs rs' : Dict ℤ ℤ)
    → s.path ≢ []
    → StoreUtf8 s
    → ReportUtf8 g su
    → let o = record_consensus faultless (some s) file g c su rs in
      o.reply ≡ ok true
      → valid_envelope c su' rs' ≡ true
      → let restarted = some (new_ranked_store s.path o.file) in
        record_consensus later restarted o.file g c su' rs'
        ≡ record { store = restarted; file = o.file; reply = ok false }
restart_once later s file g c su su' rs rs' named valid report done good =
    rw (restart_reload s file g c su rs named valid report done).0
      (consensus_once faultless later s file g c su su' rs rs' done good)
