-- ===== src/Totp/Base32.antt =====
-- The Base32 decoder: the bytes are the bits of the characters, five each, without the last few that do
-- not fill a byte.
use Prim.Native.Nat.{bit_and, bit_or}
use real_time_market_data.Base.{
  ℕ, ◌+◌, ◌-◌, ◌*◌, ◌/◌, ◌%◌, ◌^◌, ◌<◌, ◌≤◌, ◌≡◌, refl, ap, sym, ◌∙◌, inl, inr, true, false, List,
  [], ◌∷◌, ◌++◌, Option, none, some, Text, leb, length, length-append, arith, ◌>>=◌, All,
  Bool-cases, some_inj, subst,
}
use real_time_market_data.Totp.Bits.{buffer_step, byte_of, byte_leaves, bits_stay}
use real_time_market_data.Totp.{b32_val, decode_from, base32_decode, normalize_b32}

-- The number that digits in a base make up, from a number that the earlier ones made.
abbrev pub number_from : ℕ → ℕ → List ℕ → ℕ
number_from base n [] = n
number_from base n (d ∷ ds) = number_from base (n * base + d) ds

number_from-append :
    (base n : ℕ) (ds : List ℕ) (d : ℕ)
    → number_from base n (ds ++ d ∷ []) ≡ number_from base n ds * base + d
number_from-append base n [] d = refl
number_from-append base n (e ∷ ds) d = number_from-append base (n * base + e) ds d

b32_val-lt : (c v : ℕ) → b32_val c ≡ some v → v < 32
unfolding b32_val
b32_val-lt c v h = ground arith

-- The values of the characters, where all have one.
unfoldable pub values : Text → Option (List ℕ)
values [] = some []
values (c ∷ s) = do v ← b32_val c; vs ← values s; some (v ∷ vs)

-- The state of the loop after characters of the value `n`.
record Read (n buffer bits : ℕ) (out : List ℕ) : Type 0 where
  pub kept : buffer ≡ n % 2 ^ 32
  pub few : bits < 8
  pub written : number_from 256 0 out ≡ n / 2 ^ bits
  pub bytes : All (λ b. b < 256) out

All-append :
    (xs : List ℕ) (x : ℕ) → All (λ b. b < 256) xs → x < 256 → All (λ b. b < 256) (xs ++ x ∷ [])
All-append [] x h l = (l, tt)
All-append (y ∷ xs) x h l = (h.0, All-append xs x h.1 l)

Read-more :
    (n buffer bits v : ℕ) (out : List ℕ)
    → Read n buffer bits out
    → v < 32
    → 8 ≤ bits + 5
    → let buffer' = bit_or (buffer * 32 % 2 ^ 32) v in
      Read
        (n * 32 + v)
        buffer'
        (bits + 5 - 8)
        (out ++ bit_and (buffer' / 2 ^ (bits + 5 - 8)) 255 ∷ [])
Read-more n buffer bits v out r h l =
    let k = bits + 5 - 8 in
    let same : bit_or (buffer * 32 % 2 ^ 32) v ≡ (n * 32 + v) % 2 ^ 32 =
      ap (λ (t : ℕ). bit_or (t * 32 % 2 ^ 32) v) r.kept ∙ buffer_step n v h in
    let place : bits ≡ k + 3 = omega arith in
    let byte = byte_of k (n * 32 + v) in
    rw same (record {
      kept = refl;
      few = omega (arith, r.few);
      written =
          number_from-append 256 0 out (bit_and ((n * 32 + v) % 2 ^ 32 / 2 ^ k) 255)
          ∙ omega (
            arith,
            byte,
            r.written,
            ap (λ (t : ℕ). n / 2 ^ t) place,
            byte_leaves k n v (omega (arith, r.few)) h,
          );
      bytes =
          All-append out (bit_and ((n * 32 + v) % 2 ^ 32 / 2 ^ k) 255) r.bytes
            (omega (arith, byte));
    })

Read-less :
    (n buffer bits v : ℕ) (out : List ℕ)
    → Read n buffer bits out
    → v < 32
    → bits + 5 < 8
    → Read (n * 32 + v) (bit_or (buffer * 32 % 2 ^ 32) v) (bits + 5) out
Read-less n buffer bits v out r h l = record {
  kept = ap (λ (t : ℕ). bit_or (t * 32 % 2 ^ 32) v) r.kept ∙ buffer_step n v h;
  few = l;
  written = r.written ∙ bits_stay bits n v (omega arith) h;
  bytes = r.bytes;
}

decode_from-more :
    (c v : ℕ) (s : Text) (buffer bits : ℕ) (out : List ℕ)
    → b32_val c ≡ some v
    → leb 8 (bits + 5) ≡ true
    → let buffer' = bit_or (buffer * 32 % 2 ^ 32) v in
      decode_from (c ∷ s) buffer bits out
      ≡ decode_from s buffer'
          (bits + 5 - 8)
          (out ++ bit_and (buffer' / 2 ^ (bits + 5 - 8)) 255 ∷ [])
unfolding decode_from
decode_from-more c v s buffer bits out e l = rw (e, l) refl

decode_from-less :
    (c v : ℕ) (s : Text) (buffer bits : ℕ) (out : List ℕ)
    → b32_val c ≡ some v
    → leb 8 (bits + 5) ≡ false
    → decode_from (c ∷ s) buffer bits out
      ≡ decode_from s (bit_or (buffer * 32 % 2 ^ 32) v) (bits + 5) out
unfolding decode_from
decode_from-less c v s buffer bits out e l = rw (e, l) refl

-- The value of the first character, where all have one.
values-cons :
    (o : Option ℕ) (os : Option (List ℕ)) {r : List ℕ}
    → (o >>= λ v. os >>= λ vs. some (v ∷ vs)) ≡ some r
    → (v : ℕ) × (vs : List ℕ) × (o ≡ some v) × (os ≡ some vs) × (r ≡ v ∷ vs)
values-cons none os h = cc
values-cons (some v) none h = cc
values-cons (some v) (some vs) h = (v, vs, refl, refl, sym (some_inj h))

values-nil : (vs : List ℕ) → values [] ≡ some vs → [] ≡ vs
unfolding values
values-nil vs e = some_inj e

-- What is written in the end, for characters of the values `vs` after those of the value `n`.
pub record Decoded (n bits : ℕ) (vs : List ℕ) (count : ℕ) (out : List ℕ) : Type 0 where
  pub number : number_from 256 0 out ≡ number_from 32 n vs / 2 ^ ((bits + 5 * length vs) % 8)
  pub bytes : All (λ b. b < 256) out
  pub size : length out ≡ count + (bits + 5 * length vs) / 8

decode_from-Decoded :
    (s : Text) (vs : List ℕ) (n buffer bits : ℕ) (out : List ℕ)
    → Read n buffer bits out
    → values s ≡ some vs
    → (out' : List ℕ) × (decode_from s buffer bits out ≡ some out')
      × Decoded n bits vs (length out) out'
decode_from-Decoded [] vs n buffer bits out r e = (
  out,
  unfold decode_from in refl,
  subst (λ (vs : List ℕ). Decoded n bits vs (length out) out) (values-nil vs e)
      (record {
        number = r.written ∙ ap (λ (t : ℕ). n / 2 ^ t) (omega (arith, r.few));
        bytes = r.bytes;
        size = omega (arith, r.few);
      }),
)
decode_from-Decoded (c ∷ s) vs n buffer bits out r e =
    let (v, ws, here, rest, split) =
      values-cons (b32_val c) (values s) {r = vs} (unfold values in e) in
    let small = b32_val-lt c v here in
    elim (Bool-cases (leb 8 (bits + 5))) [
      | inl more ↦
          let next = Read-more n buffer bits v out r small (ground arith) in
          let (out', run, d) = decode_from-Decoded s ws (n * 32 + v) _ (bits + 5 - 8) _ next rest in
          (
            out',
            decode_from-more c v s buffer bits out here more ∙ run,
            rw split (record {
              number =
                  d.number ∙ ap (λ (t : ℕ). number_from 32 (n * 32 + v) ws / 2 ^ t) (ground arith);
              bytes = d.bytes;
              size = ground (
                arith,
                d.size,
                length-append out
                    (bit_and (bit_or (buffer * 32 % 2 ^ 32) v / 2 ^ (bits + 5 - 8)) 255 ∷ []),
              );
            }),
          )
      | inr less ↦
          let next = Read-less n buffer bits v out r small (ground arith) in
          let (out', run, d) = decode_from-Decoded s ws (n * 32 + v) _ (bits + 5) out next rest in
          (
            out',
            decode_from-less c v s buffer bits out here less ∙ run,
            rw split (record {
              number =
                  d.number ∙ ap (λ (t : ℕ). number_from 32 (n * 32 + v) ws / 2 ^ t) (omega arith);
              bytes = d.bytes;
              size = omega (arith, d.size);
            }),
          )
    ]

-- Where every character left after the padding and the spaces are taken out has a Base32 value, the
-- decoder gives bytes: as many as the bits fill, and they make up the number that the characters'
-- five-bit values make up, without the bits that do not fill a byte, whatever the length, with the
-- 32-bit buffer wrapping.
pub base32_decode-Decoded :
    (s : Text) (vs : List ℕ)
    → values (normalize_b32 s) ≡ some vs
    → (out : List ℕ) × (base32_decode s ≡ some out) × Decoded 0 0 vs 0 out
unfolding base32_decode
base32_decode-Decoded s vs e =
    decode_from-Decoded (normalize_b32 s) vs 0 0 0 []
      (record { kept = refl; few = omega arith; written = refl; bytes = tt }) e
