-- ===== src/Ranked/Laws.antt =====
-- ranked_state.go: how battle results move ratings.
use pokemon_violet.Base.{ℕ, zero, suc, ◌+◌, ◌-◌, ◌*◌, ◌≤◌, ◌<◌, ◌≡◌, refl, ap, ◌∙◌, false, arith}
use pokemon_violet.Base.Int.{ℤ, pos, negsuc, pos_part, neg_part, int_beq, eq_of_parts}
use pokemon_violet.Ranked.Stats.{
  RankedStats, default_ranked_stats, apply_ranked_result, switch_result, increment, lose,
}
use pokemon_violet.Ranked.Valid.{lower_exact, raise_exact, IsResult}

abbrev pub IsRated : RankedStats → Type 0
IsRated s =
    (neg_part s.rating ≡ 0) × (30 ≤ pos_part s.rating) × (pos_part s.rating + 30 < 2147483648)

-- The code of the result that the opponent reports in the same battle.
abbrev pub mirror : ℤ → ℤ
mirror (pos zero) = pos 1
mirror (pos (suc zero)) = pos 0
mirror r = r

apply_rating :
    (s : RankedStats) (r : ℤ)
    → IsRated s
    → (apply_ranked_result s r).rating
      ≡ (switch_result r (record s { match_count = increment s.match_count })).rating
unfolding apply_ranked_result
apply_rating s r h = ground (arith, h)

-- One battle moves rating points between its two participants and makes none: where both ratings
-- are at least 30 and fit an int32, their sum is the same after the battle, for every result.
pub rating_conserved :
    (a b : RankedStats) (r : ℤ)
    → IsRated a
    → IsRated b
    → IsResult r
    → pos_part (apply_ranked_result a r).rating + pos_part (apply_ranked_result b (mirror r)).rating
      ≡ pos_part a.rating + pos_part b.rating
unfolding switch_result
rating_conserved a b (pos zero) ha hb k =
    rw (apply_rating a (pos 0) ha, apply_rating b (pos 1) hb)
      (omega (
        arith,
        lower_exact a.rating 30 ha.0 (omega (arith, ha)) (omega arith),
        raise_exact b.rating 30 hb.0 (omega (arith, hb)),
        ha,
      ))
rating_conserved a b (pos (suc zero)) ha hb k =
    rw (apply_rating a (pos 1) ha, apply_rating b (pos 0) hb)
      (omega (
        arith,
        raise_exact a.rating 30 ha.0 (omega (arith, ha)),
        lower_exact b.rating 30 hb.0 (omega (arith, hb)) (omega arith),
        hb,
      ))
rating_conserved a b (pos (suc (suc zero))) ha hb k =
    rw (apply_rating a (pos 2) ha, apply_rating b (pos 2) hb)
rating_conserved a b (pos (suc (suc (suc zero)))) ha hb k =
    rw (apply_rating a (pos 3) ha, apply_rating b (pos 3) hb)
rating_conserved a b (pos (suc (suc (suc (suc n))))) ha hb k = absurd (omega (arith, k))
rating_conserved a b (negsuc n) ha hb k = absurd (omega (arith, k))

loss_rating :
    (s : RankedStats) (k : ℕ)
    → s.rating ≡ pos (suc k)
    → suc k < 2147483648
    → (apply_ranked_result s (pos 0)).rating ≡ pos (suc k - 30)
unfolding apply_ranked_result lose int_beq
loss_rating s k rated small =
    let (size, sign) = lower_exact (pos (suc k)) 30 refl small (omega arith) in
    let filled : int_beq (pos (suc k)) (pos 0) ≡ false = ground arith in
    rw rated (rw filled (eq_of_parts _ (pos (suc k - 30)) (omega (arith, size, sign))))

-- So many defeats in a row.
unfoldable pub lose_all : ℕ → RankedStats → RankedStats
lose_all zero s = s
lose_all (suc n) s = lose_all n (apply_ranked_result s (pos 0))

lose_all-rating :
    (j k : ℕ) (s : RankedStats)
    → s.rating ≡ pos k
    → k < 2147483648
    → 30 * j < k + 30
    → (lose_all j s).rating ≡ pos (k - 30 * j)
unfolding lose_all
lose_all-rating zero k s rated small above =
    rated ∙ ap pos (let same : k ≡ k - 30 * 0 = omega arith in same)
lose_all-rating (suc j) zero s rated small above = absurd (omega (arith, above))
lose_all-rating (suc j) (suc k) s rated small above =
    let next =
      lose_all-rating j (suc k - 30) (apply_ranked_result s (pos 0)) (loss_rating s k rated small)
        (omega (arith, small)) (omega (arith, above)) in
    let same : suc k - 30 - 30 * j ≡ suc k - 30 * suc j = omega arith in next ∙ ap pos same

-- A losing streak erases the participant's history. From a rating over 30 n and at most 30 (n + 1),
-- which fits an int32, each defeat in a row takes 30 points, down to 0 at the defeat n + 1 and not
-- before; then the next battle, whatever its result, gives the statistics of a newcomer's first
-- battle.
pub losing_streak_forgets :
    (n k : ℕ) (s : RankedStats) (r : ℤ)
    → s.rating ≡ pos k
    → k < 2147483648
    → 30 * n < k
    → k ≤ 30 * (n + 1)
    → ((j : ℕ) → j ≤ n → (lose_all j s).rating ≡ pos (k - 30 * j))
      × ((lose_all (n + 1) s).rating ≡ pos 0)
      × (apply_ranked_result (lose_all (n + 1) s) r ≡ apply_ranked_result default_ranked_stats r)
unfolding apply_ranked_result
losing_streak_forgets n k s r rated small above below =
    let bottom : (lose_all (n + 1) s).rating ≡ pos 0 =
      lose_all-rating (n + 1) k s rated small (omega (arith, above))
      ∙ (let none_left : k - 30 * (n + 1) ≡ 0 = omega (arith, below) in ap pos none_left) in
    (
      (λ j before. lose_all-rating j k s rated small (omega (arith, above, before))),
      bottom,
      rw bottom refl,
    )
