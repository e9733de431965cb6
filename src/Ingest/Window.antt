-- ===== src/Ingest/Window.antt =====
-- The frames between the two counters, and what a write to a slot and a moved counter do to them.
use Prim.Native.Nat.{bit_and}
use native.Mathlib.Nat.{mod-add-mod, mod-lt, add-zero}
use real_time_market_data.Base.{
  ℕ, zero, suc, ◌+◌, ◌-◌, ◌%◌, ◌<◌, ◌≡◌, ◌≢◌, refl, sym, ap, ap₂, ◌∙◌, List, [], ◌∷◌, ◌++◌, Text,
  arith, length, length-set, get_or, set, get_or-set_self, get_or-set_ne, mod_ne,
}
use real_time_market_data.Base.Word.{word_mod, add_size, sub_size, pow_le}
use real_time_market_data.Ingest.{IngestQueue}
use real_time_market_data.Ingest.Invariant.{IsValid, mask-eq-mod, wrap-mod}

-- The `n` frames from counter `t` on.
abbrev pub window : List Text → ℕ → ℕ → List Text
window buf t zero = []
window buf t (suc n) = get_or buf (t % length buf) [] ∷ window buf (t + 1) n

-- What the queue holds, oldest first.
abbrev pub contents : IngestQueue → List Text
contents q = window q.buf q.tail (sub_size q.head q.tail)

pub length-window : (buf : List Text) (t n : ℕ) → length (window buf t n) ≡ n
length-window buf t zero = refl
length-window buf t (suc n) = ap suc (length-window buf (t + 1) n)

pub window-suc :
    (buf : List Text) (t n : ℕ)
    → n ≢ 0
    → window buf t n ≡ get_or buf (t % length buf) [] ∷ window buf (t + 1) (n - 1)
window-suc buf t zero h = absurd (h refl)
window-suc buf t (suc n) h = let e : suc n - 1 ≡ n = omega arith in rw e

-- Counters that name the same slot see the same frames.
pub window-mod :
    (buf : List Text) (t s n : ℕ)
    → t % length buf ≡ s % length buf
    → window buf t n ≡ window buf s n
window-mod buf t s zero e = refl
window-mod buf t s (suc n) e = ap₂ ◌∷◌ (ap (λ (i : ℕ). get_or buf i []) e) (
    window-mod buf (t + 1) (s + 1) n (
      sym (mod-add-mod t (length buf) 1)
      ∙ ap (λ (i : ℕ). (i + 1) % length buf) e
      ∙ mod-add-mod s (length buf) 1))

-- A write to a slot that the window does not cover leaves it alone.
window-set_ne :
    (buf : List Text) (t n i : ℕ) (x : Text)
    → ((j : ℕ) → j < n → (t + j) % length buf ≢ i)
    → window (set buf i x) t n ≡ window buf t n
window-set_ne buf t zero i x h = refl
window-set_ne buf t (suc n) i x h = rw (length-set buf i x) (
    ap₂ ◌∷◌
      (get_or-set_ne buf x []
        (λ e. h 0 (omega arith) (ap (λ (k : ℕ). k % length buf) (add-zero t) ∙ sym e)))
      (window-set_ne buf (t + 1) n i x
        (λ j l e. h (suc j) (omega arith) (ap (λ (k : ℕ). k % length buf) (step j) ∙ e))))
  where
    step : (j : ℕ) → t + suc j ≡ t + 1 + j
    step j = omega arith

-- A write just past the window extends it.
pub window-set :
    (buf : List Text) (t n i : ℕ) (x : Text)
    → n < length buf
    → i ≡ (t + n) % length buf
    → window (set buf i x) t (suc n) ≡ window buf t n ++ x ∷ []
window-set buf t zero i x h e =
    let here : t % length buf ≡ i = sym (e ∙ ap (λ (k : ℕ). k % length buf) (add-zero t)) in
    let fits : i < length buf = rw e (mod-lt (t + 0) h) in
    rw (length-set buf i x, here, get_or-set_self buf i x [] fits)
window-set buf t (suc n) i x h e =
    ap₂ ◌∷◌
      (ap (λ (k : ℕ). get_or (set buf i x) (t % k) []) (length-set buf i x)
        ∙ get_or-set_ne buf x [] apart)
      (window-set buf (t + 1) n i x (omega arith) (e ∙ ap (λ (k : ℕ). k % length buf) shift))
  where
    shift : t + suc n ≡ t + 1 + n
    shift = omega arith

    apart : i ≢ t % length buf
    apart = rw e (mod_ne t (suc n) (length buf) (omega arith) h)

-- The slot that `try_push` writes is the one just past the window.
pub head_slot :
    {q : IngestQueue}
    → IsValid q
    → bit_and q.head q.mask ≡ (q.tail + sub_size q.head q.tail) % length q.buf
head_slot {q} v =
    let e : (q.tail + sub_size q.head q.tail) % word_mod ≡ q.head =
      omega (arith, v.head_fits, v.tail_fits) in
    mask-eq-mod v q.head
    ∙ ap (λ (k : ℕ). k % length q.buf) (sym e)
    ∙ wrap-mod v (q.tail + sub_size q.head q.tail)

pub grown :
    {q : IngestQueue}
    → IsValid q
    → sub_size q.head q.tail ≢ length q.buf
    → sub_size (add_size q.head 1) q.tail ≡ suc (sub_size q.head q.tail)
grown {q} v h = omega (arith, v.head_fits, v.tail_fits, v.held, v.slots, pow_le v.bits 63 v.at_most)

pub shrunk :
    {q : IngestQueue}
    → IsValid q
    → q.head ≢ q.tail
    → sub_size q.head (add_size q.tail 1) ≡ sub_size q.head q.tail - 1
shrunk {q} v h = omega (arith, v.head_fits, v.tail_fits)

-- What is left once the slot at `tail_` is moved from.
pub window_emptied :
    {q : IngestQueue}
    → IsValid q
    → window (set q.buf (bit_and q.tail q.mask) []) (q.tail + 1) (sub_size q.head q.tail - 1)
      ≡ window q.buf (q.tail + 1) (sub_size q.head q.tail - 1)
window_emptied {q} v =
    window-set_ne q.buf (q.tail + 1) (sub_size q.head q.tail - 1) (bit_and q.tail q.mask) []
      (λ j l e.
        mod_ne q.tail (suc j) (length q.buf) (omega arith) (omega (arith, v.held, v.slots))
          (ap (λ (k : ℕ). k % length q.buf) (step j) ∙ e ∙ mask-eq-mod v q.tail))
  where
    step : (j : ℕ) → q.tail + suc j ≡ q.tail + 1 + j
    step j = omega arith

-- And once the counter has advanced, too.
pub window_popped :
    {q : IngestQueue}
    → IsValid q
    → window (set q.buf (bit_and q.tail q.mask) []) (add_size q.tail 1) (sub_size q.head q.tail - 1)
      ≡ window q.buf (q.tail + 1) (sub_size q.head q.tail - 1)
window_popped {q} v =
    window-mod (set q.buf (bit_and q.tail q.mask) []) (add_size q.tail 1) (q.tail + 1)
      (sub_size q.head q.tail - 1)
      (rw (length-set q.buf (bit_and q.tail q.mask) []) (wrap-mod v (q.tail + 1)))
    ∙ window_emptied v

pub held_pos : {q : IngestQueue} → IsValid q → q.head ≢ q.tail → sub_size q.head q.tail ≢ 0
held_pos {q} v h = omega (arith, v.head_fits, v.tail_fits)

-- A write just past the window leaves it alone.
pub window-set_past :
    (buf : List Text) (t n i : ℕ) (x : Text)
    → n < length buf
    → i ≡ (t + n) % length buf
    → window (set buf i x) t n ≡ window buf t n
window-set_past buf t n i x h e = window-set_ne buf t n i x (λ j l f.
    mod_ne (t + j) (n - j) (length buf) (omega arith) (omega arith)
      (ap (λ (k : ℕ). k % length buf) (step j l) ∙ sym e ∙ sym f))
  where
    step : (j : ℕ) → j < n → t + j + (n - j) ≡ t + n
    step j l = omega arith

-- The last frame of a window.
pub window-last :
    (buf : List Text) (t n : ℕ)
    → window buf t (suc n) ≡ window buf t n ++ get_or buf ((t + n) % length buf) [] ∷ []
window-last buf t zero = ap (λ (k : ℕ). get_or buf (k % length buf) [] ∷ []) (sym (add-zero t))
window-last buf t (suc n) =
    let shift : t + suc n ≡ t + 1 + n = omega arith in rw (window-last buf (t + 1) n, shift)
