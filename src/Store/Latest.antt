-- ===== src/Store/Latest.antt =====
-- The store holds, for each token, the value that was written last, and nothing else.
use real_time_market_data.Base.{
  suc, ◌+◌, ◌≡◌, refl, ap, List, [], ◌∷◌, ◌++◌, Option, none, some, Text, text_eq, arith, length,
  length-append, if◌then◌else◌, is_some, or_else, text_eq_iff,
}
use real_time_market_data.Base.Map.{
  lookup, upsert, lookup-upsert, keys, keys-upsert, insert, contains, IsDistinct, insert-IsDistinct,
}
use real_time_market_data.Json.{Floats}
use real_time_market_data.Parser.{Ltp}
use real_time_market_data.Store.{LtpStore, empty_store, store_upsert, get, size}

length-insert :
    (token : Text) (ks : List Text)
    → length (insert token ks) ≡ (if contains token ks then length ks else length ks + 1)
unfolding insert
length-insert token ks = ground (arith, length-append ks (token ∷ []))

module _ {F : Floats} where
  -- A read after a write.
  get-upsert :
      (v : Ltp F) (s : LtpStore F) (token : Text)
      → get token (store_upsert v s) ≡ (if text_eq v.token token then some v else get token s)
  unfolding get store_upsert
  get-upsert v s token = lookup-upsert v.token token v s.entries

  -- Each value stands under its own token, and no token has two entries.
  abbrev Own : List (Text × Ltp F) → Type 0
  Own [] = Unit {0}
  Own ((k, v) ∷ m) = (v.token ≡ k) × Own m

  record IsKeyed (s : LtpStore F) : Type 0 where
    pub own : Own s.entries
    pub distinct : IsDistinct (keys s.entries)

  upsert-Own : (v : Ltp F) (m : List (Text × Ltp F)) → Own m → Own (upsert v.token v m)
  unfolding upsert
  upsert-Own v [] o = (refl, tt)
  upsert-Own v ((k, w) ∷ m) o = ground (arith, upsert-Own v m o.1, text_eq_iff k v.token)

  upsert-IsKeyed : (v : Ltp F) {s : LtpStore F} → IsKeyed s → IsKeyed (store_upsert v s)
  unfolding store_upsert
  upsert-IsKeyed v {s} h = record {
    own = upsert-Own v s.entries h.own;
    distinct =
        rw (keys-upsert v.token v s.entries)
          (insert-IsDistinct v.token (keys s.entries) h.distinct);
  }

  -- A run of writes.
  unfoldable pub write_all : LtpStore F → List (Ltp F) → LtpStore F
  write_all s [] = s
  write_all s (v ∷ vs) = write_all (store_upsert v s) vs

  pub write_all-append :
      (s : LtpStore F) (vs ws : List (Ltp F))
      → write_all s (vs ++ ws) ≡ write_all (write_all s vs) ws
  unfolding write_all
  write_all-append s [] ws = refl
  write_all-append s (w ∷ vs) ws = write_all-append (store_upsert w s) vs ws

  pub write_all-nil : (s : LtpStore F) → write_all s [] ≡ s
  unfolding write_all
  write_all-nil s = refl

  pub write_all_one : (s : LtpStore F) (v : Ltp F) → write_all s (v ∷ []) ≡ store_upsert v s
  unfolding write_all
  write_all_one s v = refl

  -- The last value for a token in a run.
  pub last_for : Text → List (Ltp F) → Option (Ltp F)
  last_for token [] = none
  last_for token (v ∷ vs) =
      or_else (last_for token vs) (if text_eq v.token token then some v else none)

  -- After any run of writes a token has the value written last for it, or the one it had before
  -- where none was written.
  pub get-write_all :
      (vs : List (Ltp F)) (s : LtpStore F) (token : Text)
      → get token (write_all s vs) ≡ or_else (last_for token vs) (get token s)
  unfolding write_all last_for
  get-write_all [] s token = refl
  get-write_all (v ∷ vs) s token =
      ground (arith, get-write_all vs (store_upsert v s) token, get-upsert v s token)

  length-keys : (m : List (Text × Ltp F)) → length (keys m) ≡ length m
  length-keys [] = refl
  length-keys ((k, v) ∷ m) = ap suc (length-keys m)

  contains-keys :
      (token : Text) (m : List (Text × Ltp F)) → contains token (keys m) ≡ is_some (lookup token m)
  contains-keys token [] = refl
  contains-keys token ((k, v) ∷ m) = ground (arith, contains-keys token m)

  -- A write of a token that the store has keeps its size, any other write adds one.
  size-upsert :
      (v : Ltp F) (s : LtpStore F)
      → size (store_upsert v s) ≡ (if is_some (get v.token s) then size s else size s + 1)
  unfolding size store_upsert get
  size-upsert v s = ground (
    arith,
    length-keys (upsert v.token v s.entries),
    length-keys s.entries,
    keys-upsert v.token v s.entries,
    length-insert v.token (keys s.entries),
    contains-keys v.token s.entries,
  )

  empty-IsKeyed : IsKeyed empty_store
  unfolding empty_store
  empty-IsKeyed = record { own = tt; distinct = tt }

  write_all-IsKeyed : (vs : List (Ltp F)) {s : LtpStore F} → IsKeyed s → IsKeyed (write_all s vs)
  unfolding write_all
  write_all-IsKeyed [] h = h
  write_all-IsKeyed (v ∷ vs) h = write_all-IsKeyed vs (upsert-IsKeyed v h)
