-- ===== src/Auth.antt =====
-- src/auth.cpp, include/auth.h: the login to the broker and the refreshing of its tokens.
-- A call is the state it leaves and how it ends. What was written before an exception stays written.
pub mod Reply
pub mod Session
pub mod Login
pub mod Refresh
pub mod Expiry
pub mod Handshake
pub mod Thrown
pub mod Request
mod Tests
use real_time_market_data.Base.{
  Bool, true, false, List, [], ◌∷◌, ◌++◌, Option, none, some, Text, codes, ◌==◌, is_empty,
  if◌then◌else◌,
}
use real_time_market_data.Base.Int.{ℤ, pos, scale, plus, leb_int}
use real_time_market_data.Logger.{LogLevel}
use real_time_market_data.Parser.{TimePoint}

pub record Tokens : Type 0 where
  pub access_token : Text
  pub refresh_token : Text
  pub feed_token : Text
  pub expires_at : TimePoint

-- The tokens, and the calls of the logger so far. The configuration and the HTTP client are arguments.
pub record Auth : Type 0 where
  pub tokens : Tokens
  pub logged : List (LogLevel × Text)

abbrev pub epoch : TimePoint
epoch = record { ms = pos 0 }

unfoldable pub init : Auth
init = record {
  tokens = record { access_token = []; refresh_token = []; feed_token = []; expires_at = epoch };
  logged = [];
}

pub data Ending {ℓ} (A : Type ℓ) : Type ℓ where
  returns : A → Ending A
  throws : Ending A

abbrev pub Call : Type 0 → Type 0
Call A = Auth → Ending A × Auth

module _ {A : Type 0} where
  abbrev pub ret : A → Call A
  ret x a = (returns x, a)

  -- What another function gives, `none` for an exception.
  abbrev pub attempt : Option A → Call A
  attempt none a = (throws, a)
  attempt (some x) a = (returns x, a)

  abbrev pub get : (Auth → A) → Call A
  get f a = (returns (f a), a)

infixl 5 ◌>>=◌ ◌>>◌
abbrev pub ◌>>=◌ : {A B : Type 0} → Call A → (A → Call B) → Call B
◌>>=◌ m f a = let (r, a') = m a in elim r [ returns x ↦ f x a' | throws ↦ (throws, a') ]

abbrev pub ◌>>◌ : {A B : Type 0} → Call A → Call B → Call B
m >> k = m >>= λ _. k

abbrev pub assign : (Tokens → Tokens) → Call Unit
assign f a = (returns tt, record a { tokens = f a.tokens })

abbrev pub log : LogLevel → Text → Call Unit
log lvl msg a = (returns tt, record a { logged = a.logged ++ (lvl, msg) ∷ [] })

-- Default: 60 seconds. `now` is what the clock says.
pub is_expired : ℤ → TimePoint → Auth → Bool
unfolding plus leb_int
is_expired skew now a =
    if is_empty a.tokens.access_token
    then true
    else if is_zero a.tokens.expires_at.ms
    then false
    else leb_int a.tokens.expires_at.ms (plus now.ms (scale 1000 skew))
  where
    is_zero : ℤ → Bool
    is_zero z = elim z [ pos n ↦ n == 0 | _ ↦ false ]

pub auth_headers : Auth → List (Text × Text)
auth_headers a =
    if is_empty a.tokens.access_token
    then []
    else (codes "Authorization", codes "Bearer " ++ a.tokens.access_token) ∷ []
