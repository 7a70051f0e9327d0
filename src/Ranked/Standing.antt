-- ===== src/Ranked/Standing.antt =====
-- ranked_state.go: what a report keeps of every participant.
use pokemon_violet.Base.{
  ℕ, zero, suc, ◌+◌, ◌≤◌, ◌<◌, ◌≡◌, subst, ◌≢◌, inl, inr, some, arith, Bool-cases, ◌==◌, ==_iff,
  nat_eq, bytes_eq,
}
use pokemon_violet.Base.Dict.{Dict}
use pokemon_violet.Base.Int.{ℤ, pos, negsuc, pos_part, int_eq}
use pokemon_violet.Base.Text.{Bytes}
use pokemon_violet.Ranked.Stats.{RankedStats}
use pokemon_violet.Ranked.Laws.{mirror}
use pokemon_violet.Ranked.Valid.{
  IsValid, IsResult, match_limit, apply_ranked_result-IsValid, apply_ranked_result-count_le,
}
use pokemon_violet.Ranked.Store.{
  RankedStore, File, Fault, record_consensus, applied, apply_participant, ranked_participant_key,
  stats_at, uid_of, result_of,
}
use pokemon_violet.Ranked.Consensus.{
  record_cases, valid_results, apply_participant_self, apply_participant_ne,
}

-- Every participant's statistics are valid and below the limit of battles.
abbrev pub AllValid : ℕ → Dict Bytes RankedStats → Type 0
AllValid limit m =
    (key : Bytes) → IsValid (stats_at key m) × (pos_part (stats_at key m).match_count < limit)

apply_participant-AllValid :
    (c u : Bytes) (r : ℤ) (limit : ℕ) (m : Dict Bytes RankedStats)
    → IsResult r
    → limit ≤ match_limit
    → AllValid limit m
    → AllValid (limit + 1) (apply_participant c u r m)
apply_participant-AllValid c u r limit m k room all key =
    elim (Bool-cases (ranked_participant_key c u == key)) [
      | inl hit ↦
          let (valid, small) = all (ranked_participant_key c u) in
          let before = stats_at (ranked_participant_key c u) m in
          rw (← (==_iff (ranked_participant_key c u) key).0 hit, apply_participant_self c u r m)
            (
              apply_ranked_result-IsValid before r valid (omega (arith, small, room)) k,
              omega (
                arith,
                small,
                apply_ranked_result-count_le before r valid (omega (arith, small, room)),
              ),
            )
      | inr miss ↦
          let other : ranked_participant_key c u ≢ key =
            λ e. cc ((==_iff (ranked_participant_key c u) key).1 e) in
          rw (apply_participant_ne c u key r m other) ((all key).0, omega (arith, (all key).1))
    ]

mirror-IsResult : (r : ℤ) → IsResult r → IsResult (mirror r)
mirror-IsResult (pos zero) k = omega arith
mirror-IsResult (pos (suc zero)) k = omega arith
mirror-IsResult (pos (suc (suc n))) k = k
mirror-IsResult (negsuc n) k = k

applied-AllValid :
    (s : RankedStore) (g c : Bytes) (su : Dict ℤ Bytes) (rs : Dict ℤ ℤ) (limit : ℕ)
    → IsResult (result_of rs 1)
    → result_of rs 2 ≡ mirror (result_of rs 1)
    → limit < match_limit
    → AllValid limit s.participants
    → AllValid (limit + 2) (applied s g c su rs).participants
unfolding applied
applied-AllValid s g c su rs limit code twin room all key =
    let twice =
      apply_participant-AllValid c (uid_of su 2) (result_of rs 2) (limit + 1) _
        (rw twin (mirror-IsResult (result_of rs 1) code)) (omega (arith, room))
        (apply_participant-AllValid c (uid_of su 1) (result_of rs 1) limit s.participants code
          (omega (arith, room)) all) in
    ((twice key).0, omega (arith, (twice key).1))

-- A report, accepted or not, keeps every participant's statistics valid: each battle is counted in
-- one class, nothing is negative or overflows. It holds while nobody has fought as many as
-- `limit` battles, for a limit below 70,000,000, and afterwards with two battles more.
pub consensus-AllValid :
    (fault : Fault) (s : RankedStore) (file : File) (g c : Bytes) (su : Dict ℤ Bytes)
    (rs : Dict ℤ ℤ) (limit : ℕ)
    → AllValid limit s.participants
    → limit < match_limit
    → (t : RankedStore) → (record_consensus fault (some s) file g c su rs).store ≡ some t
    → AllValid (limit + 2) t.participants
consensus-AllValid fault s file g c su rs limit all room t e key =
    elim (record_cases fault s file g c su rs) [
      | inl (same, _) ↦
          let back : s ≡ t = cc in
          subst (λ (w : RankedStore). AllValid (limit + 2) w.participants) back wider key
      | inr (inl (same, _, _)) ↦
          let back : s ≡ t = cc in
          subst (λ (w : RankedStore). AllValid (limit + 2) w.participants) back wider key
      | inr (inr (same, good, _)) ↦
          let into : applied s g c su rs ≡ t = cc in
          subst (λ (w : RankedStore). AllValid (limit + 2) w.participants) into
            (later (valid_results c su rs good)) key
    ]
  where
    wider : AllValid (limit + 2) s.participants
    wider k = ((all k).0, omega (arith, (all k).1))

    later :
        IsResult (result_of rs 1) × (result_of rs 2 ≡ mirror (result_of rs 1))
        → AllValid (limit + 2) (applied s g c su rs).participants
    later (code, twin) = applied-AllValid s g c su rs limit code twin room all
