-- ===== src/Ranked/Valid.antt =====
-- ranked_state.go: what a battle result keeps of a participant's statistics.
use pokemon_violet.Base.{
  ℕ, zero, suc, ◌+◌, ◌-◌, ◌*◌, ◌≤◌, ◌<◌, ◌≡◌, refl, inl, inr, arith, Bool-cases,
}
use pokemon_violet.Base.Int.{
  ℤ, pos, negsuc, pos_part, neg_part, ◌+ℤ◌, ◌-ℤ◌, int_beq, +ℤ_parts, -ℤ_parts, wrap32, wrap32_id,
}
use pokemon_violet.Ranked.Stats.{
  RankedStats, default_ranked_stats, apply_ranked_result, switch_result, increment, floor_zero,
  lose, win, draw, no_contest,
}

-- No field is negative; each battle is counted in one of the four classes; streaks, points and
-- rating are within what those counts allow.
pub record IsValid (s : RankedStats) : Type 0 where
  pub match_sign : neg_part s.match_count ≡ 0
  pub win_sign : neg_part s.win_count ≡ 0
  pub lose_sign : neg_part s.lose_count ≡ 0
  pub draw_sign : neg_part s.draw_count ≡ 0
  pub contest_sign : neg_part s.no_contest_count ≡ 0
  pub win_run_sign : neg_part s.win_streak_count ≡ 0
  pub lose_run_sign : neg_part s.lose_streak_count ≡ 0
  pub rating_sign : neg_part s.rating ≡ 0
  pub point_sign : neg_part s.point ≡ 0
  pub best_sign : neg_part s.max_point ≡ 0
  pub counted :
      pos_part s.match_count
      ≡ pos_part s.win_count
        + pos_part s.lose_count
        + pos_part s.draw_count
        + pos_part s.no_contest_count
  pub win_run_le : pos_part s.win_streak_count ≤ pos_part s.win_count
  pub lose_run_le : pos_part s.lose_streak_count ≤ pos_part s.lose_count
  pub point_le : pos_part s.point ≤ pos_part s.max_point
  pub best_le : pos_part s.max_point ≤ pos_part s.win_count
  pub rating_le : pos_part s.rating ≤ 1500 + 30 * pos_part s.match_count

-- So many battles keep a rating, which grows by 30, within an int32.
abbrev pub match_limit : ℕ
match_limit = 70000000

abbrev IsIncrement : ℤ → ℤ → Type 0
IsIncrement z y = (pos_part y ≡ pos_part z + 1) × (neg_part y ≡ 0)

increment_exact : (z : ℤ) → neg_part z ≡ 0 → pos_part z < 2147483647 → IsIncrement z (increment z)
unfolding increment
increment_exact z sign small = ground (arith, +ℤ_parts z (pos 1), wrap32_id (z +ℤ pos 1))

pub lower_exact :
    (z : ℤ) (k : ℕ)
    → neg_part z ≡ 0
    → pos_part z < 2147483648
    → k < 2147483648
    → (pos_part (floor_zero (wrap32 (z -ℤ pos k))) ≡ pos_part z - k)
      × (neg_part (floor_zero (wrap32 (z -ℤ pos k))) ≡ 0)
lower_exact z k sign small fits = ground (arith, -ℤ_parts z (pos k), wrap32_id (z -ℤ pos k))

pub raise_exact :
    (z : ℤ) (k : ℕ)
    → neg_part z ≡ 0
    → pos_part z + k < 2147483648
    → (pos_part (wrap32 (z +ℤ pos k)) ≡ pos_part z + k) × (neg_part (wrap32 (z +ℤ pos k)) ≡ 0)
raise_exact z k sign small = ground (arith, +ℤ_parts z (pos k), wrap32_id (z +ℤ pos k))

-- The statistics between `match_count++` and the `switch`: one battle is not yet classed.
record IsOpen (s : RankedStats) : Type 0 where
  pub match_sign : neg_part s.match_count ≡ 0
  pub win_sign : neg_part s.win_count ≡ 0
  pub lose_sign : neg_part s.lose_count ≡ 0
  pub draw_sign : neg_part s.draw_count ≡ 0
  pub contest_sign : neg_part s.no_contest_count ≡ 0
  pub win_run_sign : neg_part s.win_streak_count ≡ 0
  pub lose_run_sign : neg_part s.lose_streak_count ≡ 0
  pub rating_sign : neg_part s.rating ≡ 0
  pub point_sign : neg_part s.point ≡ 0
  pub best_sign : neg_part s.max_point ≡ 0
  pub counted :
      pos_part s.match_count
      ≡ 1
        + pos_part s.win_count
        + pos_part s.lose_count
        + pos_part s.draw_count
        + pos_part s.no_contest_count
  pub bounded : pos_part s.match_count ≤ match_limit
  pub win_run_le : pos_part s.win_streak_count ≤ pos_part s.win_count
  pub lose_run_le : pos_part s.lose_streak_count ≤ pos_part s.lose_count
  pub point_le : pos_part s.point ≤ pos_part s.max_point
  pub best_le : pos_part s.max_point ≤ pos_part s.win_count
  pub rating_le : pos_part s.rating + 30 ≤ 1500 + 30 * pos_part s.match_count

lose-IsValid : (s : RankedStats) → IsOpen s → IsValid (lose s)
unfolding lose
lose-IsValid s h = omega (
  arith,
  h,
  increment_exact s.lose_count h.lose_sign (omega (arith, h)),
  increment_exact s.lose_streak_count h.lose_run_sign (omega (arith, h)),
  lower_exact s.rating 30 h.rating_sign (omega (arith, h)) (omega arith),
  lower_exact s.point 1 h.point_sign (omega (arith, h)) (omega arith),
)

win-IsValid : (s : RankedStats) → IsOpen s → IsValid (win s)
unfolding win
win-IsValid s h = ground (
  arith,
  increment_exact s.win_count h.win_sign (omega (arith, h)),
  increment_exact s.win_streak_count h.win_run_sign (omega (arith, h)),
  raise_exact s.rating 30 h.rating_sign (omega (arith, h)),
  raise_exact s.point 1 h.point_sign (omega (arith, h)),
)

draw-IsValid : (s : RankedStats) → IsOpen s → IsValid (draw s)
unfolding draw
draw-IsValid s h = omega (arith, h, increment_exact s.draw_count h.draw_sign (omega (arith, h)))

no_contest-IsValid : (s : RankedStats) → IsOpen s → IsValid (no_contest s)
unfolding no_contest
no_contest-IsValid s h =
    omega (arith, h, increment_exact s.no_contest_count h.contest_sign (omega (arith, h)))

pub default-IsValid : IsValid default_ranked_stats
unfolding default_ranked_stats
default-IsValid = omega arith

opened-IsOpen :
    (s : RankedStats)
    → IsValid s
    → pos_part s.match_count < match_limit
    → IsOpen (record s { match_count = increment s.match_count })
opened-IsOpen s h small =
    omega (arith, h, increment_exact s.match_count h.match_sign (omega (arith, small)))

abbrev pub IsResult : ℤ → Type 0
IsResult r = (neg_part r ≡ 0) × (pos_part r ≤ 3)

switch_result-IsValid :
    (r : ℤ) (s : RankedStats) → IsResult r → IsOpen s → IsValid (switch_result r s)
unfolding switch_result
switch_result-IsValid (pos zero) s k h = lose-IsValid s h
switch_result-IsValid (pos (suc zero)) s k h = win-IsValid s h
switch_result-IsValid (pos (suc (suc zero))) s k h = draw-IsValid s h
switch_result-IsValid (pos (suc (suc (suc zero)))) s k h = no_contest-IsValid s h
switch_result-IsValid (pos (suc (suc (suc (suc n))))) s k h = absurd (omega (arith, k))
switch_result-IsValid (negsuc n) s k h = absurd (omega (arith, k))

-- A battle whose result is one of the four codes keeps the statistics valid, as long as the
-- participant has fought fewer than 70,000,000 battles: the four classes add up to the battles,
-- nothing is negative and nothing overflows.
pub apply_ranked_result-IsValid :
    (s : RankedStats) (r : ℤ)
    → IsValid s
    → pos_part s.match_count < match_limit
    → IsResult r
    → IsValid (apply_ranked_result s r)
unfolding apply_ranked_result
apply_ranked_result-IsValid s r h small k = elim (Bool-cases (int_beq s.rating (pos 0))) [
  | inl fresh ↦ rw fresh (
      switch_result-IsValid r _ k
        (opened-IsOpen default_ranked_stats default-IsValid (omega arith)))
  | inr known ↦ rw known (switch_result-IsValid r _ k (opened-IsOpen s h small))
]

switch_result-match_count :
    (r : ℤ) (s : RankedStats) → (switch_result r s).match_count ≡ s.match_count
unfolding switch_result
switch_result-match_count (pos zero) s = refl
switch_result-match_count (pos (suc zero)) s = refl
switch_result-match_count (pos (suc (suc zero))) s = refl
switch_result-match_count (pos (suc (suc (suc zero)))) s = refl
switch_result-match_count (pos (suc (suc (suc (suc n))))) s = refl
switch_result-match_count (negsuc n) s = refl

pub apply_ranked_result-count_le :
    (s : RankedStats) (r : ℤ)
    → IsValid s
    → pos_part s.match_count < match_limit
    → pos_part (apply_ranked_result s r).match_count ≤ pos_part s.match_count + 1
unfolding apply_ranked_result
apply_ranked_result-count_le s r h small = elim (Bool-cases (int_beq s.rating (pos 0))) [
  | inl fresh ↦
      rw (fresh, switch_result-match_count r _)
        (omega (arith, increment_exact (pos 0) refl (omega arith)))
  | inr known ↦
      rw (known, switch_result-match_count r _)
        (omega (arith, increment_exact s.match_count h.match_sign (omega (arith, small))))
]
