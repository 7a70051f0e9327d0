-- ===== src/Ranked/Store.antt =====
-- ranked_state.go: the store of statistics and of processed battles, its file, and the operations.
-- The file's content is what its JSON says (Json); which system call fails is an argument.
use pokemon_violet.Base.{
  ℕ, zero, suc, ◌≤◌, ◌≡◌, inl, inr, Bool, true, false, ◌&&◌, ◌||◌, not, Option, none, some, List,
  [], ◌∷◌, ◌++◌, arith, ltb, if◌then◌else◌, Bool-cases, ◌==◌, nat_eq, bytes_eq, length,
}
use pokemon_violet.Base.Dict.{Dict, lookup, insert}
use pokemon_violet.Base.Int.{
  ℤ, pos, negsuc, pos_part, neg_part, ◌+ℤ◌, ltb_ℤ, int_beq_iff, int_eq, wrap32,
}
use pokemon_violet.Base.Result.{plain, Result, err, ok}
use pokemon_violet.Base.Text.{Bytes, text, has_suffix}
use pokemon_violet.Ranked.Laws.{mirror}
use pokemon_violet.Ranked.Json.{json_dict}
use pokemon_violet.Ranked.Stats.{RankedStats, default_ranked_stats, apply_ranked_result}

-- A nil map of the decoded file is `none`.
pub record RankedPersistentState : Type 0 where
  pub participants : Option (Dict Bytes RankedStats)
  pub processed : Option (Dict Bytes Bool)

pub record RankedStore : Type 0 where
  pub path : Bytes
  pub participants : Dict Bytes RankedStats
  pub processed : Dict Bytes Bool

-- What os.ReadFile and json.Unmarshal find at the store's path.
pub data File : Type 0 where
  missing unreadable corrupt : File
  holds : RankedPersistentState → File

-- The first call of persistLocked that fails, if one does.
pub data Fault : Type 0 where
  faultless marshal_fails mkdir_fails write_fails rename_fails : Fault

abbrev pub or_empty {ℓ} : {A : Type ℓ} → Option (List A) → List A
or_empty none = []
or_empty (some m) = m

abbrev empty_store : Bytes → RankedStore
empty_store path = record { path = path; participants = []; processed = [] }

load : Bytes → File → RankedStore
load path missing = empty_store path
load path unreadable = empty_store path
load path corrupt = empty_store path
load path (holds state) = record {
  path = path;
  participants = or_empty state.participants;
  processed = or_empty state.processed;
}

unfoldable pub new_ranked_store : Bytes → File → RankedStore
unfolding load
new_ranked_store path file = if path == [] then empty_store path else load path file

unfoldable pub ranked_participant_key : Bytes → Bytes → Bytes
ranked_participant_key competition_id uid = competition_id ++ (0 ∷ uid)

abbrev or_default_stats : Option RankedStats → RankedStats
or_default_stats none = default_ranked_stats
or_default_stats (some s) = s

abbrev pub stats_at : Bytes → Dict Bytes RankedStats → RankedStats
stats_at key m = or_default_stats (lookup key m)

-- `(*rankedStore).stats`; a nil receiver is `none`.
unfoldable pub stats : Option RankedStore → Bytes → Bytes → RankedStats
stats none competition_id uid = default_ranked_stats
stats (some s) competition_id uid =
    stats_at (ranked_participant_key competition_id uid) s.participants

sum_battles : Bytes → Dict Bytes RankedStats → ℤ → ℤ → ℤ × ℤ
sum_battles uid [] battles disconnects = (battles, disconnects)
sum_battles uid ((key, s) ∷ m) battles disconnects =
    let hit = ltb (length uid) (length key) && has_suffix key (0 ∷ uid) in
    sum_battles uid m (if hit then wrap32 (battles +ℤ s.match_count) else battles)
      (if hit then wrap32 (disconnects +ℤ s.disconnect_count) else disconnects)

unfoldable pub battle_stats : Option RankedStore → Bytes → ℤ × ℤ
unfolding sum_battles
battle_stats none uid = (pos 0, pos 0)
battle_stats (some s) uid = sum_battles uid s.participants (pos 0) (pos 0)

abbrev map_dict {ℓ} : {V : Type ℓ} → Option (Dict Bytes V) → Option (Dict Bytes V)
map_dict none = none
map_dict (some m) = some (json_dict m)

-- json.MarshalIndent and json.Unmarshal of a state.
unfoldable pub json_state : RankedPersistentState → RankedPersistentState
json_state state = record {
  participants = map_dict state.participants;
  processed = map_dict state.processed;
}

-- The file afterwards, and whether the call returned an error.
unfoldable pub persist_locked : Fault → RankedStore → File → File × Bool
persist_locked faultless s file = if s.path == [] then (file, false) else (
  holds (json_state (record { participants = some s.participants; processed = some s.processed })),
  false,
)
persist_locked _ s file = (file, not (s.path == []))

unfoldable pub valid_ranked_competition_id_string : Bytes → Bool
valid_ranked_competition_id_string id =
    id == text "local-ranked-singles-1" || id == text "local-ranked-doubles-1"

abbrev or_nil : Option Bytes → Bytes
or_nil none = []
or_nil (some b) = b

abbrev or_zero : Option ℤ → ℤ
or_zero none = pos 0
or_zero (some z) = z

abbrev pub uid_of : Dict ℤ Bytes → ℕ → Bytes
uid_of m sequence = or_nil (lookup (pos sequence) m)

abbrev pub result_of : Dict ℤ ℤ → ℕ → ℤ
result_of m sequence = or_zero (lookup (pos sequence) m)

valid_participant : Dict ℤ Bytes → Dict ℤ ℤ → ℕ → Bool
valid_participant sequence_uid results sequence = not (
    uid_of sequence_uid sequence == []
    || ltb_ℤ (result_of results sequence) (pos 0)
    || ltb_ℤ (pos 3) (result_of results sequence))

pub valid_pair : ℤ → ℤ → Bool
valid_pair a b =
    (a == pos 1 && b == pos 0)
    || (a == pos 0 && b == pos 1)
    || (a == pos 2 && b == pos 2)
    || (a == pos 3 && b == pos 3)

-- The checks of recordConsensus before it takes the lock.
unfoldable pub valid_envelope : Bytes → Dict ℤ Bytes → Dict ℤ ℤ → Bool
unfolding valid_participant valid_pair
valid_envelope competition_id sequence_uid results =
    valid_ranked_competition_id_string competition_id
    && length sequence_uid == 2
    && length results == 2
    && valid_participant sequence_uid results 1
    && valid_participant sequence_uid results 2
    && valid_pair (result_of results 1) (result_of results 2)

unfoldable pub processed_key : Bytes → Bytes → Bytes
processed_key competition_id game_session = competition_id ++ (0 ∷ game_session)

abbrev pub or_false : Option Bool → Bool
or_false none = false
or_false (some b) = b

abbrev pub was_processed : Bytes → RankedStore → Bool
was_processed key s = or_false (lookup key s.processed)

unfoldable pub apply_participant :
    Bytes → Bytes → ℤ → Dict Bytes RankedStats → Dict Bytes RankedStats
apply_participant competition_id uid result m =
    let key = ranked_participant_key competition_id uid in
    insert key (apply_ranked_result (stats_at key m) result) m

-- The store with both results applied and the battle marked.
unfoldable pub applied : RankedStore → Bytes → Bytes → Dict ℤ Bytes → Dict ℤ ℤ → RankedStore
applied s game_session competition_id sequence_uid results = record s {
  participants = apply_participant competition_id (uid_of sequence_uid 2) (result_of results 2) (
      apply_participant competition_id (uid_of sequence_uid 1) (result_of results 1)
        s.participants);
  processed = insert (processed_key competition_id game_session) true s.processed;
}

pub record Outcome : Type 0 where
  pub store : Option RankedStore
  pub file : File
  pub reply : Result Bool

-- An error of persistLocked is logged only.
unfoldable pub record_consensus :
    Fault → Option RankedStore → File → Bytes → Bytes → Dict ℤ Bytes → Dict ℤ ℤ → Outcome
record_consensus fault none file game_session competition_id sequence_uid results = record {
  store = none;
  file = file;
  reply = ok false;
}
record_consensus fault (some s) file game_session competition_id sequence_uid results =
    let t = applied s game_session competition_id sequence_uid results in
    if not (valid_envelope competition_id sequence_uid results)
    then record { store = some s; file = file; reply = err plain }
    else if was_processed (processed_key competition_id game_session) s
    then record { store = some s; file = file; reply = ok false }
    else record { store = some t; file = (persist_locked fault t file).0; reply = ok true }

pub valid_pair_results :
    (a b : ℤ) → valid_pair a b ≡ true → (neg_part a ≡ 0) × (pos_part a ≤ 3) × (b ≡ mirror a)
unfolding valid_pair
valid_pair_results (negsuc a) b h = ground arith
valid_pair_results (pos zero) b h = ground (arith, int_beq_iff b (pos 1))
valid_pair_results (pos (suc zero)) b h = ground (arith, int_beq_iff b (pos 0))
valid_pair_results (pos (suc (suc zero))) b h = ground (arith, int_beq_iff b (pos 2))
valid_pair_results (pos (suc (suc (suc zero)))) b h = ground (arith, int_beq_iff b (pos 3))
valid_pair_results (pos (suc (suc (suc (suc n))))) b h = ground arith

pub valid_envelope-pair :
    (c : Bytes) (su : Dict ℤ Bytes) (rs : Dict ℤ ℤ)
    → valid_envelope c su rs ≡ true
    → valid_pair (result_of rs 1) (result_of rs 2) ≡ true
unfolding valid_envelope
valid_envelope-pair c su rs h = elim (Bool-cases (valid_pair (result_of rs 1) (result_of rs 2))) [
  | inl pair ↦ pair
  | inr odd ↦ ground arith
]
