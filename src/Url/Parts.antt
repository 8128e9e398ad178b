-- ===== src/Url/Parts.antt =====
-- The parts of a URL are found again.
use cpxy.Base.{
  ℕ, ◌+◌, ◌-◌, ◌<◌, ◌≡◌, refl, ap, sym, ◌∙◌, ltb, ◌==◌, Bool, true, false, ◌&&◌, Option, none, some,
  [], ◌∷◌, ◌++◌, Bytes, length, drop, arith, All, length-append, take-append, drop-append,
  append-nil, append_assoc, codes, ok,
}
use cpxy.Net.{Text}
use cpxy.Address.{from_host}
use cpxy.Url.{
  Numbers, find, rfind, or_here, starts_mark, find_mark, split_scheme, split_path, split_port,
  url_from_str, known_scheme, or_root, unwrap_port, http_url_from_str,
}

abbrev pub Lacks : ℕ → Bytes → Type 0
Lacks c bs = All (λ (x : ℕ). (x == c) ≡ false) bs

-- How a port is written behind a host: not at all, or as a colon and text that `u16` reads.
pub data PortText (n : Numbers) : Option ℕ → Bytes → Type 0 where
  no_port : PortText n none []
  with_port :
      (port : ℕ) (digits : Bytes)
      → Lacks b':' digits
      → Lacks b'/' digits
      → 0 < length digits
      → n.parse_u16 digits ≡ some port
      → PortText n (some port) (b':' ∷ digits)

-- A path is empty or starts with a slash.
pub data IsPath : Bytes → Type 0 where
  no_path : IsPath []
  slash : (more : Bytes) → IsPath (b'/' ∷ more)

pub find-here :
    (c : ℕ) (front more : Bytes)
    → Lacks c front
    → find c (front ++ (c ∷ more)) ≡ some (length front)
unfolding find
find-here c [] more h = let same : (c == c) ≡ true = ground arith in rw same refl
find-here c (x ∷ front) more (h, t) = rw (h, find-here c front more t) refl

find-Lacks : (c : ℕ) (bs : Bytes) → Lacks c bs → find c bs ≡ none
unfolding find
find-Lacks c [] h = refl
find-Lacks c (x ∷ bs) (h, t) = rw (h, find-Lacks c bs t) refl

rfind-Lacks : (c : ℕ) (bs : Bytes) → Lacks c bs → rfind c bs ≡ none
unfolding rfind or_here
rfind-Lacks c [] h = refl
rfind-Lacks c (x ∷ bs) (h, t) = rw (h, rfind-Lacks c bs t) refl

rfind-here :
    (c : ℕ) (front more : Bytes)
    → Lacks c more
    → rfind c (front ++ (c ∷ more)) ≡ some (length front)
unfolding rfind or_here
rfind-here c [] more h =
    let same : (c == c) ≡ true = ground arith in rw (same, rfind-Lacks c more h) refl
rfind-here c (x ∷ front) more h = rw (rfind-here c front more h) refl

starts_mark_other : (x : ℕ) (xs : Bytes) → (x == b':') ≡ false → starts_mark (x ∷ xs) ≡ false
unfolding starts_mark
starts_mark_other x [] h = refl
starts_mark_other x (y ∷ []) h = refl
starts_mark_other x (y ∷ z ∷ xs) h = rw h refl

find_mark-here :
    (scheme more : Bytes)
    → Lacks b':' scheme
    → find_mark (scheme ++ (codes "://" ++ more)) ≡ some (length scheme)
unfolding find_mark starts_mark
find_mark-here [] more h = refl
find_mark-here (x ∷ scheme) more (h, t) =
    rw (starts_mark_other x (scheme ++ (codes "://" ++ more)) h, find_mark-here scheme more t) refl

pub Lacks-append : (c : ℕ) (xs ys : Bytes) → Lacks c xs → Lacks c ys → Lacks c (xs ++ ys)
Lacks-append c [] ys h t = t
Lacks-append c (x ∷ xs) ys (h, g) t = (h, Lacks-append c xs ys g t)

pub drop_behind :
    (xs mid ys : Bytes) (k : ℕ) → length mid ≡ k → drop (length xs + k) (xs ++ (mid ++ ys)) ≡ ys
drop_behind xs mid ys k h =
    ap (drop (length xs + k)) (sym (append_assoc xs mid ys))
    ∙ drop-append (length xs + k) (xs ++ mid) ys (omega (arith, length-append xs mid))

module _ (n : Numbers) where
  split_path-parts :
      (host_and_port path : Bytes)
      → Lacks b'/' host_and_port
      → IsPath path
      → split_path (host_and_port ++ path) (find b'/' (host_and_port ++ path))
        ≡ (host_and_port, path)
  unfolding split_path
  split_path-parts hp _ h no_path = rw (append-nil, find-Lacks b'/' hp h) refl
  split_path-parts hp _ h (slash more) =
      rw
        (
          find-here b'/' hp more h,
          take-append (length hp) hp (b'/' ∷ more) refl,
          drop-append (length hp) hp (b'/' ∷ more) refl,
        )
        refl

  split_port-parts :
      (host text : Bytes) (port : Option ℕ)
      → Lacks b':' host
      → 0 < length host
      → PortText n port text
      → split_port n (host ++ text) (rfind b':' (host ++ text)) ≡ ok (host, port)
  unfolding split_port
  split_port-parts host _ _ h l no_port = rw (append-nil, rfind-Lacks b':' host h) refl
  split_port-parts host _ _ h l (with_port port digits a b d e) =
      let v = length host in
      let whole = length-append host (b':' ∷ digits) in
      let within : (ltb 0 v && ltb v (length (host ++ (b':' ∷ digits)) - 1)) ≡ true =
        ground (arith, whole) in
      let behind : drop (v + 1) (host ++ (b':' ∷ digits)) ≡ digits =
        drop_behind host (b':' ∷ []) digits 1 refl in
      rw (rfind-here b':' host digits a, within, behind, e, take-append v host (b':' ∷ digits) refl)
        refl

  port_slash : (port : Option ℕ) (text : Bytes) → PortText n port text → Lacks b'/' text
  port_slash _ _ no_port = tt
  port_slash _ _ (with_port port digits a b d e) = (refl, b)

  -- The parts of a URL, whatever its scheme.
  pub url_from_str-parts :
      (scheme host text path : Bytes) (port : Option ℕ)
      → Lacks b':' scheme
      → Lacks b':' host
      → Lacks b'/' host
      → 0 < length host
      → PortText n port text
      → IsPath path
      → url_from_str n (scheme ++ (codes "://" ++ ((host ++ text) ++ path)))
        ≡ ok (record { scheme = scheme; host = host; port = port; path = path })
  unfolding url_from_str split_scheme
  url_from_str-parts scheme host text path port hs hc hh l pt ip =
      let front =
        take-append (length scheme) scheme (codes "://" ++ ((host ++ text) ++ path)) refl in
      let behind : drop (length scheme + 3) (scheme ++ (codes "://" ++ ((host ++ text) ++ path)))
          ≡ (host ++ text) ++ path =
        drop_behind scheme (codes "://") ((host ++ text) ++ path) 3 refl in
      let rest =
        split_path-parts (host ++ text) path
          (Lacks-append b'/' host text hh (port_slash port text pt)) ip in
      rw
        (
          find_mark-here scheme ((host ++ text) ++ path) hs,
          front,
          behind,
          rest,
          split_port-parts host text port hc l pt,
        )
        refl

  -- A URL of a known scheme, a host without colon or slash, no port or one that is read, and a
  -- path that is empty or starts with a slash, is parsed to these parts: the port of the scheme
  -- and the path "/" are put in where they are missing.
  pub http_url_from_str-parts :
      (text : Text) (scheme host port_text path : Bytes) (port : Option ℕ) (is_https : Bool)
      (default_port : ℕ)
      → known_scheme scheme ≡ ok (is_https, default_port)
      → Lacks b':' scheme
      → Lacks b':' host
      → Lacks b'/' host
      → 0 < length host
      → PortText n port port_text
      → IsPath path
      → http_url_from_str text n (scheme ++ (codes "://" ++ ((host ++ port_text) ++ path)))
        ≡ ok (record {
          is_https = is_https;
          address = from_host text host (unwrap_port port default_port);
          path = or_root path;
        })
  unfolding http_url_from_str
  http_url_from_str-parts text scheme host port_text path port is_https default_port k hs hc hh l pt
        ip =
      rw (url_from_str-parts scheme host port_text path port hs hc hh l pt ip, k) refl
