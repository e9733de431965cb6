-- ===== src/Batches/Tests.antt =====
-- Five entries cut into pieces of two.
use real_time_market_data.Base.{ℕ, ◌≡◌, refl, List, [], ◌∷◌}
use real_time_market_data.Batches.{cut_from, cut}

abbrev five : List ℕ
five = 1 ∷ 2 ∷ 3 ∷ 4 ∷ 5 ∷ []

cut-five : cut 800 five 2 ≡ (1 ∷ 2 ∷ []) ∷ (3 ∷ 4 ∷ []) ∷ (5 ∷ []) ∷ []
unfolding cut cut_from
cut-five = refl
