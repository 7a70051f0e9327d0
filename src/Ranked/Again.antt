-- ===== src/Ranked/Again.antt =====
-- ranked_state.go: recordConsensus over any sequence of reports.
use pokemon_violet.Base.{
  ◌≡◌, refl, sym, ap, ◌∙◌, subst, inl, inr, true, false, Option, some, List, [], ◌∷◌, arith,
  Bool-cases, ◌==◌, nat_eq, bytes_eq,
}
use pokemon_violet.Base.Dict.{Dict, lookup-insert}
use pokemon_violet.Base.Int.{ℤ, int_eq}
use pokemon_violet.Base.Result.{ok}
use pokemon_violet.Base.Text.{Bytes}
use pokemon_violet.Ranked.Store.{
  RankedStore, File, Fault, persist_locked, valid_envelope, processed_key, or_false, was_processed,
  applied, Outcome, record_consensus,
}
use pokemon_violet.Ranked.Consensus.{record_cases, applied-processed}

pub record Report : Type 0 where
  pub fault : Fault
  pub game_session : Bytes
  pub competition_id : Bytes
  pub sequence_uid : Dict ℤ Bytes
  pub results : Dict ℤ ℤ

unfoldable pub report_all : Option RankedStore → File → List Report → Option RankedStore × File
report_all store file [] = (store, file)
report_all store file (r ∷ rs) =
    let o =
      record_consensus r.fault store file r.game_session r.competition_id r.sequence_uid
        r.results in
    report_all o.store o.file rs

-- The store is there, and the battle of the key is marked in it.
abbrev Marked : Bytes → Option RankedStore → Type 0
Marked key store = (s : RankedStore) × (store ≡ some s) × (was_processed key s ≡ true)

applied-keeps :
    (key : Bytes) (s : RankedStore) (g c : Bytes) (su : Dict ℤ Bytes) (rs : Dict ℤ ℤ)
    → was_processed key s ≡ true
    → was_processed key (applied s g c su rs) ≡ true
unfolding applied
applied-keeps key s g c su rs marked =
    ap or_false (lookup-insert (processed_key c g) key true s.processed)
    ∙ elim (Bool-cases (processed_key c g == key)) [
      | inl same ↦ rw same refl
      | inr other ↦ rw other marked
    ]

report_all-Marked :
    (key : Bytes) (s : RankedStore) (file : File) (reports : List Report)
    → was_processed key s ≡ true
    → Marked key (report_all (some s) file reports).0
unfolding report_all
report_all-Marked key s file [] marked = (s, refl, marked)
report_all-Marked key s file (r ∷ rs) marked =
    elim (record_cases r.fault s file r.game_session r.competition_id r.sequence_uid r.results) [
      | inl (e, _) ↦ next (sym e) (report_all-Marked key s file rs marked)
      | inr (inl (e, _, _)) ↦ next (sym e) (report_all-Marked key s file rs marked)
      | inr (inr (e, _, _)) ↦ next (sym e) (
          report_all-Marked key (applied s r.game_session r.competition_id r.sequence_uid r.results)
            _ rs
            (applied-keeps key s r.game_session r.competition_id r.sequence_uid r.results marked))
    ]
  where
    next :
        {o p : Outcome}
        → o ≡ p
        → Marked key (report_all o.store o.file rs).0
        → Marked key (report_all p.store p.file rs).0
    next same there =
        subst (λ (x : Outcome). Marked key (report_all x.store x.file rs).0) same there

repeated :
    (later : Fault) (u : RankedStore) (file : File) (g c : Bytes) (su : Dict ℤ Bytes)
    (rs : Dict ℤ ℤ)
    → valid_envelope c su rs ≡ true
    → was_processed (processed_key c g) u ≡ true
    → record_consensus later (some u) file g c su rs
      ≡ record { store = some u; file = file; reply = ok false }
repeated later u file g c su rs good marked = elim (record_cases later u file g c su rs) [
  | inl (e, bad) ↦ ground (arith, bad, good)
  | inr (inl (e, _, _)) ↦ e
  | inr (inr (e, _, new)) ↦ ground (arith, new, marked)
]

-- A battle that was applied is never applied again: after any later reports, whatever they are and
-- whatever fails when they are stored, a valid report of the same competition and game session, with
-- any participants and results, replies false and changes neither the store nor its file.
pub never_again :
    (fault later : Fault) (s : RankedStore) (file : File) (g c : Bytes) (su su' : Dict ℤ Bytes)
    (rs rs' : Dict ℤ ℤ) (reports : List Report)
    → let o = record_consensus fault (some s) file g c su rs in
      o.reply ≡ ok true
      → valid_envelope c su' rs' ≡ true
      → let (store, kept) = report_all o.store o.file reports in
        record_consensus later store kept g c su' rs'
        ≡ record { store = store; file = kept; reply = ok false }
unfolding record_consensus
never_again fault later s file g c su su' rs rs' reports done good =
    elim (record_cases fault s file g c su rs) [
      | inl (e, _) ↦ ground (arith, ap (λ (o : Outcome). o.reply) e, done)
      | inr (inl (e, _, _)) ↦ ground (arith, ap (λ (o : Outcome). o.reply) e, done)
      | inr (inr (e, _, _)) ↦
          let t = applied s g c su rs in
          let kept = (persist_locked fault t file).0 in
          let (u, there, marked) =
            report_all-Marked (processed_key c g) t kept reports (applied-processed s g c su rs) in
          rw e (
            rw there
              (repeated later u (report_all (some t) kept reports).1 g c su' rs' good marked))
    ]
