-- ===== src/Batches.antt =====
-- The loop that cuts a vector into pieces, which src/sharder.cpp and src/subscription_manager.cpp both
-- write out: `for (i = 0; i < size; i += n) out.emplace_back(items[i .. min(size, i + n)))`.
pub mod Pieces
mod Tests
use real_time_market_data.Base.{
  ℕ, zero, suc, ◌+◌, ◌-◌, List, [], ◌∷◌, min, length, take, drop, ltb, ◌==◌, if◌then◌else◌,
  is_empty,
}
use real_time_market_data.Base.Word.{add_size}

-- `n`, or what the source takes where `n` is 0.
abbrev pub effective : ℕ → ℕ → ℕ
effective fallback n = if n == 0 then fallback else n

module _ {ℓ} {A : Type ℓ} where
  -- The vector's entries from `i` up to `last`.
  abbrev pub slice : List A → ℕ → ℕ → List A
  slice items i last = take (last - i) (drop i items)

  -- The loop at `i`, on fuel; each round takes at least one entry, so as many rounds as entries do.
  pub cut_from : ℕ → List A → ℕ → ℕ → List (List A)
  cut_from zero items n i = []
  cut_from (suc fuel) items n i =
      let rest = cut_from fuel items n (add_size i n) in
      if ltb i (length items) then slice items i (min (length items) (add_size i n)) ∷ rest else []

  -- The whole function: `fallback` is the size that stands for 0.
  unfoldable pub cut : ℕ → List A → ℕ → List (List A)
  unfolding cut_from
  cut fallback items n =
      if is_empty items then [] else cut_from (length items) items (effective fallback n) 0
