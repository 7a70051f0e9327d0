-- ===== src/Tests/RankedRuns.antt =====
-- Runs and witnesses of the ranked store.
use pokemon_violet.Base.{
  ℕ, ◌+◌, ◌-◌, ◌*◌, ◌≤◌, ◌≡◌, refl, ◌≢◌, true, false, some, List, [], ◌∷◌, arith, ==_iff, nat_eq,
  bytes_beq, bytes_eq,
}
use pokemon_violet.Base.Dict.{Dict, lookup, insert}
use pokemon_violet.Base.Int.{ℤ, pos, pos_part, ◌+ℤ◌, ◌-ℤ◌, int_eq, wrap32}
use pokemon_violet.Base.Result.{ok}
use pokemon_violet.Base.Text.{Bytes, text}
use pokemon_violet.Ranked.Stats.{default_ranked_stats, increment, apply_ranked_result}
use pokemon_violet.Ranked.Laws.{IsRated, losing_streak_forgets, lose_all}
use pokemon_violet.Ranked.Store.{
  RankedStore, missing, faultless, new_ranked_store, ranked_participant_key, stats,
  valid_ranked_competition_id_string, uid_of, valid_envelope, processed_key, apply_participant,
  applied, record_consensus, write_fails,
}
use pokemon_violet.Ranked.Consensus.{consensus_results, consensus_rating_conserved}
use pokemon_violet.Ranked.Again.{never_again, Report, report_all}
use pokemon_violet.Ranked.Restart.{restart_reload, StoreUtf8, ReportUtf8}
use pokemon_violet.Ranked.Json.{valid_utf8, json_string, json_dict, recode, runes, rune_size}
use pokemon_violet.Documents.Order.{bytes_ltb}

abbrev singles : Bytes
singles = text "local-ranked-singles-1"

abbrev battle : Bytes
battle = text "room"

abbrev players : Dict ℤ Bytes
players = (pos 1, text "ann") ∷ (pos 2, text "bob") ∷ []

abbrev ann_wins : Dict ℤ ℤ
ann_wins = (pos 1, pos 1) ∷ (pos 2, pos 0) ∷ []

abbrev fresh_store : RankedStore
fresh_store = record { path = text "state.json"; participants = []; processed = [] }

ann_wins_reply :
    (record_consensus faultless (some fresh_store) missing battle singles players ann_wins).reply
    ≡ ok true
unfolding record_consensus applied valid_envelope valid_ranked_competition_id_string processed_key
    lookup insert bytes_beq
ann_wins_reply = refl

ann_rises :
    (stats
      (record_consensus faultless (some fresh_store) missing battle singles players ann_wins).store
      singles
      (text "ann")).rating
    ≡ pos 1530
unfolding record_consensus applied valid_envelope valid_ranked_competition_id_string processed_key
    lookup insert bytes_beq stats ranked_participant_key apply_participant apply_ranked_result
    default_ranked_stats increment wrap32 ◌+ℤ◌ ◌-ℤ◌
ann_rises = refl

losing_streak_forgets_example :
    ((j : ℕ) → j ≤ 49 → (lose_all j default_ranked_stats).rating ≡ pos (1500 - 30 * j))
    × ((lose_all 50 default_ranked_stats).rating ≡ pos 0)
    × (apply_ranked_result (lose_all 50 default_ranked_stats) (pos 1)
        ≡ apply_ranked_result default_ranked_stats (pos 1))
unfolding default_ranked_stats
losing_streak_forgets_example =
    losing_streak_forgets 49 1500 default_ranked_stats (pos 1) refl (omega arith) (omega arith)
      (omega arith)

abbrev rematch : List Report
rematch =
    record {
      fault = write_fails;
      game_session = text "other";
      competition_id = singles;
      sequence_uid = players;
      results = ann_wins;
    }
    ∷ []

never_again_example :
    let o = record_consensus faultless (some fresh_store) missing battle singles players ann_wins in
    let (store, kept) = report_all o.store o.file rematch in
    record_consensus faultless store kept battle singles players ann_wins
    ≡ record { store = store; file = kept; reply = ok false }
unfolding valid_envelope valid_ranked_competition_id_string lookup bytes_beq
never_again_example =
    never_again faultless faultless fresh_store missing battle singles players players ann_wins
      ann_wins rematch ann_wins_reply refl

players_differ : uid_of players 1 ≢ uid_of players 2
unfolding lookup bytes_beq
players_differ e =
    let same : bytes_beq (text "ann") (text "bob") ≡ true =
      (==_iff (text "ann") (text "bob")).1 e in
    cc

consensus_results_example :
    let o = record_consensus faultless (some fresh_store) missing battle singles players ann_wins in
    stats o.store singles (text "ann")
    ≡ apply_ranked_result (stats (some fresh_store) singles (text "ann")) (pos 1)
unfolding lookup
consensus_results_example =
    (consensus_results faultless fresh_store missing battle singles players ann_wins players_differ
      ann_wins_reply).1

both-IsRated :
    IsRated (stats (some fresh_store) singles (uid_of players 1))
    × IsRated (stats (some fresh_store) singles (uid_of players 2))
unfolding stats lookup default_ranked_stats
both-IsRated = omega arith

consensus_rating_conserved_example :
    let o = record_consensus faultless (some fresh_store) missing battle singles players ann_wins in
    pos_part (stats o.store singles (uid_of players 1)).rating
      + pos_part (stats o.store singles (uid_of players 2)).rating
    ≡ pos_part (stats (some fresh_store) singles (uid_of players 1)).rating
      + pos_part (stats (some fresh_store) singles (uid_of players 2)).rating
consensus_rating_conserved_example =
    consensus_rating_conserved faultless fresh_store missing battle singles players ann_wins
      players_differ ann_wins_reply both-IsRated.0 both-IsRated.1

path_named : fresh_store.path ≢ []
path_named e = cc

names_valid : ReportUtf8 battle players
unfolding lookup valid_utf8 runes rune_size
names_valid = (refl, refl, refl)

restart_reload_example :
    let o = record_consensus faultless (some fresh_store) missing battle singles players ann_wins in
    (some (new_ranked_store fresh_store.path o.file) ≡ o.store)
    × StoreUtf8 (new_ranked_store fresh_store.path o.file)
restart_reload_example =
    restart_reload fresh_store missing battle singles players ann_wins path_named (tt, tt)
      names_valid ann_wins_reply

-- A byte that starts no UTF-8 sequence comes back as U+FFFD.
stray_byte : json_string (97 ∷ 255 ∷ 195 ∷ 169 ∷ []) ≡ 97 ∷ 239 ∷ 191 ∷ 189 ∷ 195 ∷ 169 ∷ []
unfolding json_string recode rune_size
stray_byte = refl

-- Keys that become equal: the last in byte order is kept.
keys_meet :
    json_dict ((255 ∷ [], true) ∷ (254 ∷ [], false) ∷ []) ≡ (239 ∷ 191 ∷ 189 ∷ [], true) ∷ []
unfolding json_dict json_string recode rune_size bytes_ltb bytes_beq
keys_meet = refl
