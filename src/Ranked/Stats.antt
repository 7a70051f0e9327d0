-- ===== src/Ranked/Stats.antt =====
-- ranked_state.go: one participant's statistics and the effect of one battle on them.
use pokemon_violet.Base.{zero, suc, if◌then◌else◌}
use pokemon_violet.Base.Int.{ℤ, pos, negsuc, ◌+ℤ◌, ◌-ℤ◌, ltb_ℤ, wrap32, int_beq}

-- Each field is an int32.
pub record RankedStats : Type 0 where
  pub match_count : ℤ
  pub win_count : ℤ
  pub lose_count : ℤ
  pub draw_count : ℤ
  pub disconnect_count : ℤ
  pub no_contest_count : ℤ
  pub win_streak_count : ℤ
  pub lose_streak_count : ℤ
  pub rating : ℤ
  pub rank : ℤ
  pub point : ℤ
  pub max_point : ℤ

abbrev pub ranked_initial_rating : ℤ
ranked_initial_rating = pos 1500

abbrev pub ranked_rating_step : ℤ
ranked_rating_step = pos 30

abbrev pub ranked_point_step : ℤ
ranked_point_step = pos 1

unfoldable pub default_ranked_stats : RankedStats
default_ranked_stats = record {
  match_count = pos 0;
  win_count = pos 0;
  lose_count = pos 0;
  draw_count = pos 0;
  disconnect_count = pos 0;
  no_contest_count = pos 0;
  win_streak_count = pos 0;
  lose_streak_count = pos 0;
  rating = ranked_initial_rating;
  rank = pos 1;
  point = pos 0;
  max_point = pos 0;
}

-- x++ on an int32
unfoldable pub increment : ℤ → ℤ
increment z = wrap32 (z +ℤ pos 1)

-- if x < 0 { x = 0 }
abbrev pub floor_zero : ℤ → ℤ
floor_zero z = if ltb_ℤ z (pos 0) then pos 0 else z

unfoldable pub lose : RankedStats → RankedStats
lose s = record s {
  lose_count = increment s.lose_count;
  lose_streak_count = increment s.lose_streak_count;
  win_streak_count = pos 0;
  rating = floor_zero (wrap32 (s.rating -ℤ ranked_rating_step));
  point = floor_zero (wrap32 (s.point -ℤ ranked_point_step));
}

unfoldable pub win : RankedStats → RankedStats
win s =
    let point = wrap32 (s.point +ℤ ranked_point_step) in
    record s {
      win_count = increment s.win_count;
      win_streak_count = increment s.win_streak_count;
      lose_streak_count = pos 0;
      rating = wrap32 (s.rating +ℤ ranked_rating_step);
      point = point;
      max_point = if ltb_ℤ s.max_point point then point else s.max_point;
    }

unfoldable pub draw : RankedStats → RankedStats
draw s = record s {
  draw_count = increment s.draw_count;
  win_streak_count = pos 0;
  lose_streak_count = pos 0;
}

unfoldable pub no_contest : RankedStats → RankedStats
no_contest s = record s {
  no_contest_count = increment s.no_contest_count;
  win_streak_count = pos 0;
  lose_streak_count = pos 0;
}

-- The `switch` on the result; another value than 0 to 3 has no case.
unfoldable pub switch_result : ℤ → RankedStats → RankedStats
unfolding lose win draw no_contest
switch_result (pos zero) s = lose s
switch_result (pos (suc zero)) s = win s
switch_result (pos (suc (suc zero))) s = draw s
switch_result (pos (suc (suc (suc zero)))) s = no_contest s
switch_result (pos (suc (suc (suc (suc n))))) s = s
switch_result (negsuc n) s = s

-- A rating of 0 marks an entry that was never filled in.
abbrev pub or_default : RankedStats → RankedStats
or_default s = if int_beq s.rating (pos 0) then default_ranked_stats else s

unfoldable pub apply_ranked_result : RankedStats → ℤ → RankedStats
unfolding switch_result default_ranked_stats
apply_ranked_result s result =
    let s0 = or_default s in
    switch_result result (record s0 { match_count = increment s0.match_count })
