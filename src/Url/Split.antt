-- ===== src/Url/Split.antt =====
-- A URL put together from its parts is split into them again.
use real_time_market_data.Base.{
  ℕ, ◌≡◌, refl, ap, ◌∙◌, Bool, true, false, ◌||◌, [], ◌∷◌, ◌++◌, Option, none, some, Text, codes,
  ◌==◌, arith, append-nil,
}
use real_time_market_data.Parser.Frame.{has_prefix-append, drop-append}
use real_time_market_data.Url.{cut_at, default_port, split_host, split_rest, split_url}

-- Whether a character occurs.
abbrev has_char : ℕ → Text → Bool
has_char c [] = false
has_char c (a ∷ s) = (a == c) || has_char c s

cut_at-none : (c : ℕ) (s : Text) → has_char c s ≡ false → cut_at c s ≡ none
unfolding cut_at
cut_at-none c [] h = refl
cut_at-none c (a ∷ s) h = ground (arith, cut_at-none c s)

cut_at-append :
    (c : ℕ) (s t : Text) → has_char c s ≡ false → cut_at c (s ++ c ∷ t) ≡ some (s, c ∷ t)
unfolding cut_at
cut_at-append c [] t h = ground arith
cut_at-append c (a ∷ s) t h = ground (arith, cut_at-append c s t)

has_char-append : (c : ℕ) (s t : Text) → has_char c (s ++ t) ≡ has_char c s || has_char c t
has_char-append c [] t = refl
has_char-append c (a ∷ s) t = ground (arith, has_char-append c s t)

-- The authority of a URL: a host, and perhaps a port behind a colon.
authority : Text → Option Text → Text
authority host none = host
authority host (some port) = host ++ b':' ∷ port

-- What stands for a missing or an empty port, and for a missing path.
port_of : Option Text → Text
port_of none = default_port
port_of (some []) = default_port
port_of (some (c ∷ port)) = c ∷ port

path_text : Option Text → Text
path_text none = []
path_text (some path) = b'/' ∷ path

target_of : Option Text → Text
unfolding path_text
target_of none = codes "/"
target_of (some path) = b'/' ∷ path

split_host-authority :
    (host : Text) (port : Option Text) (target : Text)
    → has_char b':' host ≡ false
    → split_host (authority host port) target
      ≡ record { host = host; port = port_of port; target = target }
unfolding split_host authority port_of
split_host-authority host none target h = rw (cut_at-none b':' host h, split_host)
split_host-authority host (some []) target h = rw (cut_at-append b':' host [] h, split_host)
split_host-authority host (some (c ∷ port)) target h =
    rw (cut_at-append b':' host (c ∷ port) h, split_host)

no_slash : Option Text → Bool
no_slash none = true
no_slash (some port) = elim (has_char b'/' port) [ true ↦ false | false ↦ true ]

authority-slash :
    (host : Text) (port : Option Text)
    → has_char b'/' host ≡ false
    → no_slash port ≡ true
    → has_char b'/' (authority host port) ≡ false
unfolding authority no_slash
authority-slash host none h g = h
authority-slash host (some port) h g = ground (arith, has_char-append b'/' host (b':' ∷ port))

-- For a host without a colon or a slash and a port without a slash, a URL put together from scheme,
-- host, port and path is split into that host, that port (443 where there is none or an empty one)
-- and that path ("/" where there is none).
split_url_lem :
    (scheme host : Text) (port path : Option Text)
    → has_char b':' host ≡ false
    → has_char b'/' host ≡ false
    → no_slash port ≡ true
    → split_url scheme (scheme ++ (authority host port ++ path_text path))
      ≡ some (record { host = host; port = port_of port; target = target_of path })
unfolding split_url split_rest path_text target_of
split_url_lem scheme host port path nc ns np =
    rw
      (
        has_prefix-append scheme (authority host port ++ path_text path),
        drop-append scheme (authority host port ++ path_text path),
      )
      (ap some (rest path ∙ split_host-authority host port (target_of path) nc))
  where
    clean : has_char b'/' (authority host port) ≡ false
    clean = authority-slash host port ns np

    rest :
        (path : Option Text)
        → split_rest (authority host port ++ path_text path)
          ≡ split_host (authority host port) (target_of path)
    rest none =
        ap split_rest (append-nil (authority host port))
        ∙ rw (cut_at-none b'/' (authority host port) clean, split_rest)
    rest (some p) = rw (cut_at-append b'/' (authority host port) p clean, split_rest)
