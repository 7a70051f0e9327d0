-- ===== src/Ranked/Consensus.antt =====
-- ranked_state.go: what recordConsensus applies, and to whom.
use pokemon_violet.Base.{
  ◌+◌, ◌≡◌, sym, ◌∙◌, subst, ◌≢◌, ◌⊎◌, inl, inr, true, false, some, arith, Bool-cases, nat_eq,
  bytes_eq, append_cancel,
}
use pokemon_violet.Base.Dict.{Dict, lookup, lookup-insert_self, lookup-insert_ne}
use pokemon_violet.Base.Int.{ℤ, pos_part, int_eq}
use pokemon_violet.Base.Result.{plain, err, ok}
use pokemon_violet.Base.Text.{Bytes}
use pokemon_violet.Ranked.Stats.{RankedStats, apply_ranked_result}
use pokemon_violet.Ranked.Laws.{IsRated, mirror, rating_conserved}
use pokemon_violet.Ranked.Valid.{IsResult}
use pokemon_violet.Ranked.Store.{
  RankedStore, File, Fault, record_consensus, applied, apply_participant, valid_envelope,
  was_processed, processed_key, ranked_participant_key, stats, stats_at, persist_locked, uid_of,
  result_of, valid_pair_results, valid_envelope-pair,
}

-- The three ways out of recordConsensus.
pub record_cases :
    (fault : Fault) (s : RankedStore) (file : File) (g c : Bytes) (su : Dict ℤ Bytes)
    (rs : Dict ℤ ℤ)
    → let o = record_consensus fault (some s) file g c su rs in
      let t = applied s g c su rs in
      ((o ≡ record { store = some s; file = file; reply = err plain })
        × (valid_envelope c su rs ≡ false))
      ⊎ ((o ≡ record { store = some s; file = file; reply = ok false })
          × (valid_envelope c su rs ≡ true)
          × (was_processed (processed_key c g) s ≡ true))
      ⊎ ((o ≡ record { store = some t; file = (persist_locked fault t file).0; reply = ok true })
          × (valid_envelope c su rs ≡ true)
          × (was_processed (processed_key c g) s ≡ false))
unfolding record_consensus
record_cases fault s file g c su rs = elim (Bool-cases (valid_envelope c su rs)) [
  | inr bad ↦ inl (rw bad, bad)
  | inl good ↦ elim (Bool-cases (was_processed (processed_key c g) s)) [
    | inl old ↦ inr (inl (rw (good, old), good, old))
    | inr new ↦ inr (inr (rw (good, new), good, new))
  ]
]

pub applied-processed :
    (s : RankedStore) (g c : Bytes) (su : Dict ℤ Bytes) (rs : Dict ℤ ℤ)
    → was_processed (processed_key c g) (applied s g c su rs) ≡ true
unfolding applied
applied-processed s g c su rs = rw (lookup-insert_self (processed_key c g) true s.processed)

-- A battle that was applied is never applied again: every later valid report of the same
-- competition and game session, whatever its participants and results, replies false and changes
-- neither the store nor its file.
pub consensus_once :
    (fault later : Fault) (s : RankedStore) (file : File) (g c : Bytes) (su su' : Dict ℤ Bytes)
    (rs rs' : Dict ℤ ℤ)
    → let o = record_consensus fault (some s) file g c su rs in
      o.reply ≡ ok true
      → valid_envelope c su' rs' ≡ true
      → record_consensus later o.store o.file g c su' rs'
        ≡ record { store = o.store; file = o.file; reply = ok false }
unfolding record_consensus
consensus_once fault later s file g c su su' rs rs' done good =
    ground (arith, record_cases fault s file g c su rs, applied-processed s g c su rs)

pub valid_results :
    (c : Bytes) (su : Dict ℤ Bytes) (rs : Dict ℤ ℤ)
    → valid_envelope c su rs ≡ true
    → IsResult (result_of rs 1) × (result_of rs 2 ≡ mirror (result_of rs 1))
valid_results c su rs h =
    let facts =
      valid_pair_results (result_of rs 1) (result_of rs 2) (valid_envelope-pair c su rs h) in
    ((facts.0, facts.1), facts.2)

ranked_participant_key_injective :
    (c u v : Bytes) → ranked_participant_key c u ≡ ranked_participant_key c v → u ≡ v
unfolding ranked_participant_key
ranked_participant_key_injective c u v h = let e = append_cancel c h in cc

pub apply_participant_self :
    (c u : Bytes) (r : ℤ) (m : Dict Bytes RankedStats)
    → stats_at (ranked_participant_key c u) (apply_participant c u r m)
      ≡ apply_ranked_result (stats_at (ranked_participant_key c u) m) r
unfolding apply_participant
apply_participant_self c u r m = rw (
    lookup-insert_self (ranked_participant_key c u)
      (apply_ranked_result (stats_at (ranked_participant_key c u) m) r) m)

pub apply_participant_ne :
    (c u key : Bytes) (r : ℤ) (m : Dict Bytes RankedStats)
    → ranked_participant_key c u ≢ key
    → lookup key (apply_participant c u r m) ≡ lookup key m
unfolding apply_participant
apply_participant_ne c u key r m ne =
    lookup-insert_ne (ranked_participant_key c u) key
      (apply_ranked_result (stats_at (ranked_participant_key c u) m) r) m ne

stats-applied :
    (s : RankedStore) (g c : Bytes) (su : Dict ℤ Bytes) (rs : Dict ℤ ℤ)
    → uid_of su 1 ≢ uid_of su 2
    → let t = applied s g c su rs in
      (stats (some t) c (uid_of su 1)
        ≡ apply_ranked_result (stats (some s) c (uid_of su 1)) (result_of rs 1))
      × (stats (some t) c (uid_of su 2)
          ≡ apply_ranked_result (stats (some s) c (uid_of su 2)) (result_of rs 2))
unfolding applied stats
stats-applied s g c su rs ne = (
  rw
      (apply_participant_ne c (uid_of su 2) (ranked_participant_key c (uid_of su 1))
        (result_of rs 2) (apply_participant c (uid_of su 1) (result_of rs 1) s.participants)
        (λ e. ne (sym (ranked_participant_key_injective c _ _ e))))
      (apply_participant_self c (uid_of su 1) (result_of rs 1) s.participants),
  rw
      (apply_participant_self c (uid_of su 2) (result_of rs 2)
        (apply_participant c (uid_of su 1) (result_of rs 1) s.participants))
      (rw (
        apply_participant_ne c (uid_of su 1) (ranked_participant_key c (uid_of su 2))
          (result_of rs 1) s.participants (λ e. ne (ranked_participant_key_injective c _ _ e)))),
)

applied_other :
    (s : RankedStore) (g c key : Bytes) (su : Dict ℤ Bytes) (rs : Dict ℤ ℤ)
    → ranked_participant_key c (uid_of su 1) ≢ key
    → ranked_participant_key c (uid_of su 2) ≢ key
    → lookup key (applied s g c su rs).participants ≡ lookup key s.participants
unfolding applied
applied_other s g c key su rs a b =
    apply_participant_ne c (uid_of su 2) key (result_of rs 2)
      (apply_participant c (uid_of su 1) (result_of rs 1) s.participants) b
    ∙ apply_participant_ne c (uid_of su 1) key (result_of rs 1) s.participants a

-- Applying a battle between two different players gives the first the reported result, which is
-- one of the four codes, and the second its mirror, both against their statistics before the
-- battle, and touches no other participant key.
pub consensus_results :
    (fault : Fault) (s : RankedStore) (file : File) (g c : Bytes) (su : Dict ℤ Bytes)
    (rs : Dict ℤ ℤ)
    → let o = record_consensus fault (some s) file g c su rs in
      uid_of su 1 ≢ uid_of su 2
      → o.reply ≡ ok true
      → IsResult (result_of rs 1)
        × (stats o.store c (uid_of su 1)
            ≡ apply_ranked_result (stats (some s) c (uid_of su 1)) (result_of rs 1))
        × (stats o.store c (uid_of su 2)
            ≡ apply_ranked_result (stats (some s) c (uid_of su 2)) (mirror (result_of rs 1)))
        × ((t : RankedStore) (key : Bytes)
            → o.store ≡ some t
            → ranked_participant_key c (uid_of su 1) ≢ key
            → ranked_participant_key c (uid_of su 2) ≢ key
            → lookup key t.participants ≡ lookup key s.participants)
consensus_results fault s file g c su rs ne done = elim (record_cases fault s file g c su rs) [
  | inl (e, bad) ↦ ground arith
  | inr (inl (e, good, old)) ↦ ground arith
  | inr (inr (e, good, new)) ↦
      let (code, twin) = valid_results c su rs good in
      let (first, second) = stats-applied s g c su rs ne in
      rw e (
        code,
        first,
        rw twin at second,
        λ t key same a b.
            let into : applied s g c su rs ≡ t = cc in
            subst (λ (w : RankedStore). lookup key w.participants ≡ lookup key s.participants) into
              (applied_other s g c key su rs a b),
      )
]

-- The two ratings of an applied battle between two different players have the sum that they had
-- before it, where both are at least 30 and at least 30 below the largest int32.
pub consensus_rating_conserved :
    (fault : Fault) (s : RankedStore) (file : File) (g c : Bytes) (su : Dict ℤ Bytes)
    (rs : Dict ℤ ℤ)
    → let o = record_consensus fault (some s) file g c su rs in
      uid_of su 1 ≢ uid_of su 2
      → o.reply ≡ ok true
      → IsRated (stats (some s) c (uid_of su 1))
      → IsRated (stats (some s) c (uid_of su 2))
      → pos_part (stats o.store c (uid_of su 1)).rating
          + pos_part (stats o.store c (uid_of su 2)).rating
        ≡ pos_part (stats (some s) c (uid_of su 1)).rating
          + pos_part (stats (some s) c (uid_of su 2)).rating
consensus_rating_conserved fault s file g c su rs ne done ha hb =
    let (code, first, second, _) = consensus_results fault s file g c su rs ne done in
    rw (first, second) (rating_conserved _ _ (result_of rs 1) ha hb code)
