-- ===== src/Totp/Window.antt =====
-- Which codes are accepted: those of the counters within the window.
use native.Mathlib.Decide.{dec_lt}
use real_time_market_data.Base.{
  ◌≢◌, ℕ, zero, suc, ◌+◌, ◌-◌, ◌<◌, ◌≤◌, ◌≡◌, refl, ap, sym, ◌∙◌, ◌⊎◌, inl, inr, ◌↔◌, Bool, true,
  false, List, Option, some, Text, text_eq, text_eq_iff, leb, if◌then◌else◌, arith, Bool-cases,
}
use real_time_market_data.Base.Int.{ℤ}
use real_time_market_data.Base.Word.{word_mod, add_size, sub_size}
use real_time_market_data.Totp.{Totp, Digest, hotp, code_at, time_counter, verify_from, verify}

-- The counters that the rounds from `w` on try: those that are `d` steps away for a `d` of the rounds.
Tried : ℕ → ℕ → ℕ → ℕ → Type 0
Tried ctr rounds w k =
    (d : ℕ) × (w ≤ d) × (d < w + rounds) × ((k ≡ ctr + d) ⊎ ((d ≤ ctr) × (k ≡ ctr - d)))

-- A counter that is tried has the code.
Hit : (ℕ → Text) → Text → ℕ → ℕ → ℕ → Type 0
Hit text code ctr rounds w = (k : ℕ) × Tried ctr rounds w k × (text k ≡ code)

Hit-later :
    (text : ℕ → Text) (code : Text) (ctr rounds w : ℕ)
    → text_eq (text (ctr + w)) code ≡ true
    → Hit text code ctr (suc rounds) w
unfolding Hit Tried
Hit-later text code ctr rounds w e =
    (ctr + w, (w, omega arith, omega arith, inl refl), (text_eq_iff (text (ctr + w)) code).0 e)

Hit-earlier :
    (text : ℕ → Text) (code : Text) (ctr rounds w : ℕ)
    → w ≤ ctr
    → text_eq (text (ctr - w)) code ≡ true
    → Hit text code ctr (suc rounds) w
unfolding Hit Tried
Hit-earlier text code ctr rounds w l e =
    (ctr - w, (w, omega arith, omega arith, inr (l, refl)), (text_eq_iff (text (ctr - w)) code).0 e)

Hit-wider :
    (text : ℕ → Text) (code : Text) (ctr rounds w : ℕ)
    → Hit text code ctr rounds (w + 1)
    → Hit text code ctr (suc rounds) w
unfolding Hit Tried
Hit-wider text code ctr rounds w (k, (d, lo, hi, at), e) = (k, (d, omega arith, omega arith, at), e)

missed :
    (text : ℕ → Text) (code : Text) (k j : ℕ)
    → k ≡ j
    → text_eq (text j) code ≡ false
    → text k ≢ code
missed text code k j e differs h =
    absurd (cc (differs, (text_eq_iff (text j) code).1 (ap text (sym e) ∙ h)))

Hit-narrower :
    (text : ℕ → Text) (code : Text) (ctr rounds w : ℕ)
    → text_eq (text (ctr + w)) code ≡ false
    → (w ≤ ctr → text_eq (text (ctr - w)) code ≡ false)
    → Hit text code ctr (suc rounds) w
    → Hit text code ctr rounds (w + 1)
unfolding Hit Tried
Hit-narrower text code ctr rounds w later earlier (k, (d, lo, hi, at), e) = elim (dec_lt w d) [
  | yes past ↦ (k, (d, omega arith, omega arith, at), e)
  | no here ↦ absurd (elim at [
    | inl up ↦ missed text code k (ctr + w) (omega arith) later e
    | inr (fits, down) ↦ missed text code k (ctr - w) (omega arith) (earlier (omega arith)) e
  ])
]

module _ (hmac : Digest → List ℕ → List ℕ → Option (List ℕ)) where
  -- The code at each counter, where HMAC gives a digest.
  unfoldable pub Codes : Totp → (ℕ → Text) → Type 0
  Codes t text = (k : ℕ) → hotp hmac t.secret k t.digits t.algo ≡ some (text k)

  verify_from-eq :
      (t : Totp) (code : Text) (text : ℕ → Text) (ctr rounds w : ℕ)
      → Codes t text
      → ctr + w < word_mod
      → verify_from hmac t code ctr (suc rounds) w ≡ (
          let rest = verify_from hmac t code ctr rounds (w + 1) in
          if text_eq (text (ctr + w)) code
          then some true
          else if leb w ctr
          then (if text_eq (text (ctr - w)) code then some true else rest)
          else rest)
  unfolding verify_from Codes
  verify_from-eq t code text ctr rounds w h fits = elim (Bool-cases (leb w ctr)) [
    | inl back ↦
        let up : add_size ctr w ≡ ctr + w = omega arith in
        let down : sub_size ctr w ≡ ctr - w = ground arith in
        rw (up, h (ctr + w), back, down, h (ctr - w)) refl
    | inr start ↦
        let up : add_size ctr w ≡ ctr + w = omega arith in rw (up, h (ctr + w), start) refl
  ]

  verify_from-Hit :
      (t : Totp) (code : Text) (text : ℕ → Text) (ctr rounds w : ℕ)
      → Codes t text
      → ctr + w + rounds < word_mod
      → (b : Bool) × (verify_from hmac t code ctr rounds w ≡ some b)
        × ((b ≡ true) ↔ Hit text code ctr rounds w)
  verify_from-Hit t code text ctr zero w h fits = (
    false,
    unfold verify_from in refl,
    (λ e. cc, unfold Hit Tried in (λ (k, (d, lo, hi, at), e). absurd (omega arith))),
  )
  verify_from-Hit t code text ctr (suc rounds) w h fits =
      let step = verify_from-eq t code text ctr rounds w h (omega arith) in
      elim (Bool-cases (text_eq (text (ctr + w)) code)) [
        | inl hit ↦
            (true, step ∙ rw hit refl, (λ e. Hit-later text code ctr rounds w hit, λ g. refl))
        | inr miss ↦
            let (b, run, iff) = verify_from-Hit t code text ctr rounds (w + 1) h (omega arith) in
            elim (Bool-cases (leb w ctr)) [
              | inr start ↦ (
                b,
                step ∙ rw (miss, start) run,
                (
                  λ e. Hit-wider text code ctr rounds w (iff.0 e),
                  λ g. iff.1 (Hit-narrower text code ctr rounds w miss (λ l. ground arith) g),
                ),
              )
              | inl back ↦ elim (Bool-cases (text_eq (text (ctr - w)) code)) [
                | inl hit ↦ (
                  true,
                  step ∙ rw (miss, back, hit) refl,
                  (λ e. Hit-earlier text code ctr rounds w (ground arith) hit, λ g. refl),
                )
                | inr miss' ↦ (
                  b,
                  step ∙ rw (miss, back, miss') run,
                  (
                    λ e. Hit-wider text code ctr rounds w (iff.0 e),
                    λ g. iff.1 (Hit-narrower text code ctr rounds w miss (λ l. miss') g),
                  ),
                )
              ]
            ]
      ]

  Hit-near :
      (text : ℕ → Text) (code : Text) (ctr window : ℕ)
      → Hit text code ctr window 1
      → (k : ℕ) × (k ≤ ctr + window) × (ctr ≤ k + window) × (text k ≡ code)
  unfolding Hit Tried
  Hit-near text code ctr window (k, (d, lo, hi, inl up), e) = (k, omega arith, omega arith, e)
  Hit-near text code ctr window (k, (d, lo, hi, inr (fits, down)), e) =
      (k, omega arith, omega arith, e)

  near-Hit :
      (text : ℕ → Text) (code : Text) (ctr window k : ℕ)
      → k ≤ ctr + window
      → ctr ≤ k + window
      → text k ≡ code
      → (text ctr ≡ code) ⊎ Hit text code ctr window 1
  unfolding Hit Tried
  near-Hit text code ctr window k lo hi e = elim (dec_lt k ctr) [
    | yes before ↦ inr (k, (ctr - k, omega arith, omega arith, inr (omega arith, omega arith)), e)
    | no after ↦ elim (dec_lt ctr k) [
      | yes behind ↦ inr (k, (k - ctr, omega arith, omega arith, inl (omega arith)), e)
      | no same ↦ inl (ap text (omega arith) ∙ e)
    ]
  ]

  -- Where HMAC gives a digest at every counter, and the counter of the time plus the window is below
  -- 2 ^ 64 less one: verify returns, and accepts a code exactly when it is the code of a counter
  -- that is at most the window's steps away.
  pub verify_lem :
      (t : Totp) (code : Text) (text : ℕ → Text) (secs : ℤ) (window : ℕ)
      → Codes t text
      → time_counter secs t.period + window + 1 < word_mod
      → (b : Bool) × (verify hmac t code secs window ≡ some b)
        × ((b ≡ true) ↔ (
            (k : ℕ) × (k ≤ time_counter secs t.period + window)
            × (time_counter secs t.period ≤ k + window)
            × (text k ≡ code)))
  unfolding verify code_at
  verify_lem t code text secs window h fits =
      let ctr = time_counter secs t.period in
      let here : hotp hmac t.secret ctr t.digits t.algo ≡ some (text ctr) = unfold Codes in h ctr in
      elim (Bool-cases (text_eq (text ctr) code)) [
        | inl hit ↦ (
          true,
          rw (here, hit) refl,
          (λ e. (ctr, omega arith, omega arith, (text_eq_iff (text ctr) code).0 hit), λ g. refl),
        )
        | inr miss ↦
            let (b, run, iff) = verify_from-Hit t code text ctr window 1 h (omega arith) in
            (
              b,
              rw (here, miss) run,
              (
                λ e. Hit-near text code ctr window (iff.0 e),
                λ (k, lo, hi, e). elim (near-Hit text code ctr window k lo hi e) [
                  | inl at ↦ absurd (missed text code ctr ctr refl miss at)
                  | inr g ↦ iff.1 g
                ],
              ),
            )
      ]
