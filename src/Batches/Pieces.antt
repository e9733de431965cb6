-- ===== src/Batches/Pieces.antt =====
-- The pieces of a vector: together they are the vector, none is empty or too long, and there are as
-- many as the rounded-up quotient.
use native.Mathlib.Decide.{dec_lt}
use native.Mathlib.Nat.{sub-zero, div-eq_of_lt, div-eq-sub-div}
use real_time_market_data.Base.{
  ℕ, zero, suc, ◌+◌, ◌-◌, ◌/◌, ◌^◌, ◌≤◌, ◌<◌, ◌≡◌, refl, sym, ap, ◌∙◌, ◌⊎◌, inl, inr, List, [], ◌∷◌,
  ◌++◌, min, length, drop, ltb, arith, flatten, All, length-take, length-drop, take-drop_append,
  drop_past, Bool-cases, ltb→lt,
}
use real_time_market_data.Base.Word.{add_size, word_mod}
use real_time_market_data.Batches.{effective, slice, cut_from, cut}

module _ {ℓ} {A : Type ℓ} where
  -- Where the loop can be: at the start, or at least one full piece on. There `i + n` does not wrap.
  record Loops (fuel : ℕ) (items : List A) (n i : ℕ) : Type 0 where
    pub pos : 0 < n
    pub word : n < word_mod
    pub small : length items < 2 ^ 63
    pub enough : length items ≤ i + fuel
    pub place : (i ≡ 0) ⊎ (n ≤ i)

  no_wrap :
      {fuel : ℕ} (items : List A) {n i : ℕ}
      → Loops fuel items n i
      → i < length items
      → add_size i n ≡ i + n
  no_wrap items h l = omega arith

  next :
      {fuel : ℕ} (items : List A) {n i : ℕ}
      → Loops (suc fuel) items n i
      → i < length items
      → Loops fuel items n (add_size i n)
  next items h l = ground (arith, no_wrap items h l)

  slice-append :
      (items : List A) (n i : ℕ)
      → i < length items
      → slice items i (min (length items) (i + n)) ++ drop (i + n) items ≡ drop i items
  slice-append items n i l =
      ap (λ (r : List A). slice items i (min (length items) (i + n)) ++ r) same
      ∙ take-drop_append i (min (length items) (i + n) - i) items
    where
      same : drop (i + n) items ≡ drop (i + (min (length items) (i + n) - i)) items
      same = elim (dec_lt (i + n) (length items)) [
        | yes inside ↦ let e : i + (min (length items) (i + n) - i) ≡ i + n = omega arith in rw e
        | no past ↦
            drop_past (i + n) items (omega arith)
            ∙ sym (drop_past (i + (min (length items) (i + n) - i)) items (omega arith))
      ]

  flatten-cut_from :
      (fuel : ℕ) (items : List A) (n i : ℕ)
      → Loops fuel items n i
      → flatten (cut_from fuel items n i) ≡ drop i items
  unfolding cut_from flatten
  flatten-cut_from zero items n i h = sym (drop_past i items (omega arith))
  flatten-cut_from (suc fuel) items n i h = elim (Bool-cases (ltb i (length items))) [
    | inr stop ↦ rw stop (sym (drop_past i items (ground arith)))
    | inl go ↦
        let next_at = no_wrap items h (ground arith) in
        rw (go, flatten-cut_from fuel items n (add_size i n) (next items h (ground arith)), next_at)
          (slice-append items n i (ground arith))
  ]

  piece :
      {fuel : ℕ} (items : List A) (n i : ℕ)
      → Loops fuel items n i
      → i < length items
      → let p = slice items i (min (length items) (add_size i n)) in (0 < length p) × (length p ≤ n)
  piece items n i h l = omega (
    arith,
    no_wrap items h l,
    length-drop i items,
    length-take (min (length items) (add_size i n) - i) (drop i items),
  )

  -- No piece is empty or longer than `n`.
  cut_from-sizes :
      (fuel : ℕ) (items : List A) (n i : ℕ)
      → Loops fuel items n i
      → All (λ piece. (0 < length piece) × (length piece ≤ n)) (cut_from fuel items n i)
  unfolding cut_from
  cut_from-sizes zero items n i h = tt
  cut_from-sizes (suc fuel) items n i h = elim (Bool-cases (ltb i (length items))) [
    | inr stop ↦ rw stop tt
    | inl go ↦ rw go (
      piece items n i h (ground arith),
      cut_from-sizes fuel items n (add_size i n) (next items h (ground arith)),
    )
  ]

  length-cut_from :
      (fuel : ℕ) (items : List A) (n i : ℕ)
      → Loops fuel items n i
      → i ≤ length items + n
      → length (cut_from fuel items n i) ≡ (length items + n - 1 - i) / n
  unfolding cut_from
  length-cut_from zero items n i h b =
      sym (div-eq_of_lt {n = length items + n - 1 - i} {m = n} (omega arith))
  length-cut_from (suc fuel) items n i h b = elim (Bool-cases (ltb i (length items))) [
    | inr stop ↦ rw stop (sym (div-eq_of_lt {n = length items + n - 1 - i} {m = n} (ground arith)))
    | inl go ↦
        let l = ltb→lt i (length items) go in
        let next_at = no_wrap items h l in
        let ih = length-cut_from fuel items n (add_size i n) (next items h l) (omega arith) in
        let q : (length items + n - 1 - add_size i n) / n ≡ (length items + n - 1 - i - n) / n =
          ap (λ (t : ℕ). t / n) (omega arith) in
        rw go (
          omega (
            arith,
            ih,
            q,
            div-eq-sub-div {m = n} {n = length items + n - 1 - i} h.pos (omega arith),
          ))
  ]

  -- For a vector below 2 ^ 63 entries and a size that fits a word: the pieces make up the vector in
  -- order, none is empty or longer than the size, and their number is the quotient rounded up.
  pub record Cuts (items : List A) (n : ℕ) (pieces : List (List A)) : Type ℓ where
    pub together : flatten pieces ≡ items
    pub sizes : All (λ piece. (0 < length piece) × (length piece ≤ n)) pieces
    pub count : length pieces ≡ (length items + n - 1) / n

  begin :
      (fallback : ℕ) (items : List A) (n : ℕ)
      → 0 < fallback
      → fallback < word_mod
      → n < word_mod
      → length items < 2 ^ 63
      → Loops (length items) items (effective fallback n) 0
  begin fallback items n pf wf wn small = record {
    pos = ground arith;
    word = ground arith;
    small = small;
    enough = omega arith;
    place = inl refl;
  }

  -- For a list of fewer than 2 ^ 63 entries, and a size and a positive fallback that fit a word: the
  -- pieces make up the list in order, none is empty or longer than the size (the fallback where the
  -- size is 0), and their number is the quotient rounded up.
  pub cut-Cuts :
      (fallback : ℕ) (items : List A) (n : ℕ)
      → 0 < fallback
      → fallback < word_mod
      → n < word_mod
      → length items < 2 ^ 63
      → Cuts items (effective fallback n) (cut fallback items n)
  unfolding cut
  cut-Cuts fallback [] n pf wf wn small = record {
    together = unfold flatten in refl;
    sizes = tt;
    count =
        sym (
          div-eq_of_lt {n = 0 + effective fallback n - 1} {m = effective fallback n}
            (ground arith));
  }
  cut-Cuts fallback (x ∷ xs) n pf wf wn small =
      let h = begin fallback (x ∷ xs) n pf wf wn small in
      record {
        together = flatten-cut_from (length (x ∷ xs)) (x ∷ xs) (effective fallback n) 0 h;
        sizes = cut_from-sizes (length (x ∷ xs)) (x ∷ xs) (effective fallback n) 0 h;
        count =
            length-cut_from (length (x ∷ xs)) (x ∷ xs) (effective fallback n) 0 h (omega arith)
            ∙ ap (λ (t : ℕ). t / effective fallback n)
                (sub-zero (length (x ∷ xs) + effective fallback n - 1));
      }
