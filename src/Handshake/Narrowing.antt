-- ===== src/Handshake/Narrowing.antt =====
-- The states of the detection in which one parser is left.
use cpxy.Base.{
  ℕ, ◌≡◌, refl, Option, none, some, [], ◌∷◌, ◌++◌, Bytes, arith, length-append, Result, ok, err,
  Error, within,
}
use cpxy.Net.{Text}
use cpxy.Socks4
use cpxy.Socks4.{parse_socks4_request}
use cpxy.Socks5.{parse_greeting}
use cpxy.Http.{
  Httparse, Parsed, Status, partial, complete, HttpRequest, parse_http, request_of_status,
}
use cpxy.Url.{Numbers}
use cpxy.Handshake.{
  ParseState, start, socks5_partial, socks4_partial, http_partial, ProxyState, socks5_greeted,
  socks4, http, Turn, done, fail, again, detect, detect_all, detect_one,
}

abbrev pub Fails : {A : Type 0} → Result A → Type 0
Fails r = (e : Error) × (r ≡ err e)

-- Both turns end in the same way: with the same result, with an error, or not yet.
pub data Alike : Turn ParseState ProxyState → Turn ParseState ProxyState → Type 0 where
  both_done : (n : ℕ) (p : ProxyState) → Alike (done n p) (done n p)
  both_fail : (a b : Bytes) (e f : Error) → Alike (fail a e) (fail b f)
  both_wait : (p q : ParseState) → Alike (again p) (again q)

same-Alike : (t : Turn ParseState ProxyState) → Alike t t
same-Alike (done n p) = both_done n p
same-Alike (fail a e) = both_fail a a e e
same-Alike (again p) = both_wait p p

-- What a state that the detection goes on in says of the parsers.
pub data Narrowed (A B C : Type 0) : ParseState → Type 0 where
  all_left : Narrowed A B C start
  first_left : B → C → Narrowed A B C socks5_partial
  second_left : A → C → Narrowed A B C socks4_partial
  third_left : A → B → Narrowed A B C http_partial

in_state :
    {A B C : Type 0} {p q : ParseState}
    → Path (Turn ParseState ProxyState) (again q) (again p)
    → Narrowed A B C q
    → Narrowed A B C p
in_state {p = p} {q = q} e w = let same : q ≡ p = cc e in rw (← same) w

detect_all-Narrowed :
    (a : Result (Option (ℕ × Bytes))) (b : Result (Option (ℕ × Socks4.Request)))
    (c : Result (Option (ℕ × HttpRequest))) (p : ParseState)
    → detect_all a b c ≡ again p
    → Narrowed (Fails a) (Fails b) (Fails c) p
unfolding detect_all
detect_all-Narrowed (ok (some (n, x))) b c p e = cc
detect_all-Narrowed (err x) (ok (some (n, y))) c p e = cc
detect_all-Narrowed (ok none) (ok (some (n, y))) c p e = cc
detect_all-Narrowed (err x) (err y) (ok (some (n, z))) p e = cc
detect_all-Narrowed (err x) (ok none) (ok (some (n, z))) p e = cc
detect_all-Narrowed (ok none) (err y) (ok (some (n, z))) p e = cc
detect_all-Narrowed (ok none) (ok none) (ok (some (n, z))) p e = cc
detect_all-Narrowed (err x) (err y) (err z) p e = cc
detect_all-Narrowed (err x) (err y) (ok none) p e = in_state e (third_left (x, refl) (y, refl))
detect_all-Narrowed (ok none) (err y) (err z) p e = in_state e (first_left (y, refl) (z, refl))
detect_all-Narrowed (err x) (ok none) (err z) p e = in_state e (second_left (x, refl) (z, refl))
detect_all-Narrowed (err x) (ok none) (ok none) p e = in_state e all_left
detect_all-Narrowed (ok none) (err y) (ok none) p e = in_state e all_left
detect_all-Narrowed (ok none) (ok none) (err z) p e = in_state e all_left
detect_all-Narrowed (ok none) (ok none) (ok none) p e = in_state e all_left

first-Alike :
    (a : Result (Option (ℕ × Bytes))) (b : Result (Option (ℕ × Socks4.Request)))
    (c : Result (Option (ℕ × HttpRequest)))
    → Fails b
    → Fails c
    → Alike (detect_one socks5_partial socks5_greeted a) (detect_all a b c)
unfolding detect_all detect_one
first-Alike (ok (some (n, x))) b c (e, h) (f, k) = both_done n _
first-Alike (ok none) b c (e, h) (f, k) = rw (h, k) (both_wait _ _)
first-Alike (err g) b c (e, h) (f, k) = rw (h, k) (both_fail _ _ _ _)

second-Alike :
    (a : Result (Option (ℕ × Bytes))) (b : Result (Option (ℕ × Socks4.Request)))
    (c : Result (Option (ℕ × HttpRequest)))
    → Fails a
    → Fails c
    → Alike (detect_one socks4_partial socks4 b) (detect_all a b c)
unfolding detect_all detect_one
second-Alike a (ok (some (n, x))) c (e, h) (f, k) = rw h (both_done n _)
second-Alike a (ok none) c (e, h) (f, k) = rw (h, k) (both_wait _ _)
second-Alike a (err g) c (e, h) (f, k) = rw (h, k) (both_fail _ _ _ _)

third-Alike :
    (a : Result (Option (ℕ × Bytes))) (b : Result (Option (ℕ × Socks4.Request)))
    (c : Result (Option (ℕ × HttpRequest)))
    → Fails a
    → Fails b
    → Alike (detect_one http_partial http c) (detect_all a b c)
unfolding detect_all detect_one
third-Alike a b (ok (some (n, x))) (e, h) (f, k) = rw (h, k) (both_done n _)
third-Alike a b (ok none) (e, h) (f, k) = rw (h, k) (both_wait _ _)
third-Alike a b (err g) (e, h) (f, k) = rw (h, k) (both_fail _ _ _ _)

-- The parsers of src fail for good.
parse_greeting-Fails :
    (buf more : Bytes) → Fails (parse_greeting buf) → Fails (parse_greeting (buf ++ more))
unfolding parse_greeting
parse_greeting-Fails [] more (e, h) = cc
parse_greeting-Fails (v ∷ []) more (e, h) = cc
parse_greeting-Fails (v ∷ k ∷ buf) more (e, h) = (e, ground (arith, length-append buf more))

parse_socks4-Fails :
    (text : Text) (buf more : Bytes)
    → Fails (parse_socks4_request text buf)
    → Fails (parse_socks4_request text (buf ++ more))
unfolding parse_socks4_request
parse_socks4-Fails text [] more (e, h) = cc
parse_socks4-Fails text (v ∷ buf) more (e, h) = (e, ground (arith, length-append buf more))

-- `httparse` fails for good too, and a complete request has a method and a path.
pub record HttparseStays (httparse : Httparse) : Type 0 where
  pub stays : (buf more : Bytes) (e : Error) → httparse buf ≡ err e → Fails (httparse (buf ++ more))
  pub parts :
      (buf : Bytes) (n : ℕ) (r : Parsed)
      → httparse buf ≡ ok (complete n r)
      → (method path : Bytes) × (r.method ≡ some method) × (r.path ≡ some path)

module _ (text : Text) (numbers : Numbers) (httparse : Httparse)
    (laws : HttparseStays httparse) where
  parse_http_err :
      (buf : Bytes) (e : Error) → httparse buf ≡ err e → Fails (parse_http httparse buf)
  unfolding parse_http
  parse_http_err buf e h = (within "Pasring HTTP request" e, rw h refl)

  parse_http_partial : (buf : Bytes) → httparse buf ≡ ok partial → parse_http httparse buf ≡ ok none
  unfolding parse_http request_of_status
  parse_http_partial buf h = rw h refl

  parse_http_complete :
      (buf : Bytes) (n : ℕ) (r : Parsed)
      → httparse buf ≡ ok (complete n r)
      → (x : ℕ × HttpRequest) × (parse_http httparse buf ≡ ok (some x))
  unfolding parse_http request_of_status
  parse_http_complete buf n r h =
      let (m, q, k, l) = laws.parts buf n r h in
      ((n, record { headers = r.headers; method = m; path = q }), rw (h, k, l) refl)

  parse_http-Fails :
      (buf more : Bytes)
      → Fails (parse_http httparse buf)
      → Fails (parse_http httparse (buf ++ more))
  parse_http-Fails buf more (e, bad) = go (httparse buf) refl
    where
      go : (r : Result Status) → httparse buf ≡ r → Fails (parse_http httparse (buf ++ more))
      go (err e) h = let (x, y) = laws.stays buf more e h in parse_http_err (buf ++ more) x y
      go (ok partial) h = let fine = parse_http_partial buf h in cc (fine, bad)
      go (ok (complete n r)) h = let (x, fine) = parse_http_complete buf n r h in cc (fine, bad)

  Narrowed-Alike :
      (buf more : Bytes) (p : ParseState)
      → Narrowed
          (Fails (parse_greeting buf))
          (Fails (parse_socks4_request text buf))
          (Fails (parse_http httparse buf))
          p
      → Alike
          (detect text numbers httparse p (buf ++ more))
          (detect text numbers httparse start (buf ++ more))
  unfolding detect
  Narrowed-Alike buf more start all_left = same-Alike _
  Narrowed-Alike buf more socks5_partial (first_left b c) =
      first-Alike _ _ _ (parse_socks4-Fails text buf more b) (parse_http-Fails buf more c)
  Narrowed-Alike buf more socks4_partial (second_left a c) =
      second-Alike _ _ _ (parse_greeting-Fails buf more a) (parse_http-Fails buf more c)
  Narrowed-Alike buf more http_partial (third_left a b) =
      third-Alike _ _ _ (parse_greeting-Fails buf more a) (parse_socks4-Fails text buf more b)

  -- The state that the detection goes on in is only a shortcut: when bytes follow, it finds the
  -- same, fails, or waits exactly when trying all three parsers again would, if the HTTP parser
  -- fails for good and finds a method and a path in a complete request.
  pub detect-narrowed :
      (buf more : Bytes) (p : ParseState)
      → detect text numbers httparse start buf ≡ again p
      → Alike
          (detect text numbers httparse p (buf ++ more))
          (detect text numbers httparse start (buf ++ more))
  unfolding detect
  detect-narrowed buf more p e = Narrowed-Alike buf more p (detect_all-Narrowed _ _ _ p e)
