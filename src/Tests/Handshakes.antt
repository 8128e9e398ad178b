-- ===== src/Tests/Handshakes.antt =====
-- Runs of the handshake and of the URLs. A request line starts with a character above the space and
-- is complete when a line has ended.
use cpxy.Base.{
  ℕ, ◌+◌, ◌≤◌, ◌<◌, All, ◌≡◌, refl, ap, ltb, true, false, inl, none, some, Bytes, List, [], ◌∷◌,
  ◌++◌, length, if◌then◌else◌, arith, codes, ok, err, Error, message, eq_ignore_ascii_case,
  eq_bytes,
}
use cpxy.Address.Encoding.{IsWire}
use cpxy.Address.{from_host, write_len, ip}
use cpxy.Socks5.{ClientConnRequest, connect_tcp, respond_auth, auth_no_password, parse_greeting}
use cpxy.Socks4.{parse_socks4_request}
use cpxy.Http.{Httparse, Parsed, complete, partial, parse_http}
use cpxy.Url.{Numbers, http_url_from_str, known_scheme, or_root}
use cpxy.Url.Parts.{with_port, slash, http_url_from_str-parts}
use cpxy.RwBuffer.{RwBuffer, read_buf}
use cpxy.Handshake.{
  start, socks5_partial, by_socks5, tcp, again, success, contains, detect, detect_all, Link,
  start_handshake, respond_ok,
}
use cpxy.Handshake.Loop.{IsUsable}
use cpxy.Handshake.Detection.{HttparseLaws, greeting}
use cpxy.Handshake.Clients.{request, start_handshake-socks5}
use cpxy.Handshake.Upstreams.{request_socks5-start_handshake}
use cpxy.Socks5.Upstream.{request_socks5}
use cpxy.Net.{SocketAddr}
use cpxy.Address.Stream.RoundTrip.{IsSent}
use cpxy.Handshake.Narrowing.{Fails, Alike, HttparseStays, detect-narrowed}
use cpxy.Tests.{plain, plain-TextLaws, site, is_ascii}

abbrev get_root : Parsed
get_root = record { method = some (codes "GET"); path = some (codes "/"); headers = [] }

unfoldable lines : Httparse
lines [] = ok partial
lines (x ∷ xs) =
    if ltb x 33
    then err (message "token")
    else if contains 10 xs
    then ok (complete 7 get_root)
    else ok partial

lines-HttparseLaws : HttparseLaws lines
unfolding lines
lines-HttparseLaws = record { empty = refl; no_token = λ c buf h. (message "token", ground arith) }

lines-Fails : (buf more : Bytes) (e : Error) → lines buf ≡ err e → Fails (lines (buf ++ more))
unfolding lines
lines-Fails [] more e h = cc
lines-Fails (x ∷ xs) more e h = (message "token", ground arith)

lines-complete : (buf : Bytes) (n : ℕ) (r : Parsed) → lines buf ≡ ok (complete n r) → r ≡ get_root
unfolding lines
lines-complete [] n r h = cc
lines-complete (x ∷ xs) n r h = ground arith

lines-HttparseStays : HttparseStays lines
lines-HttparseStays = record {
  stays = lines-Fails;
  parts = λ buf n r h.
      let e = lines-complete buf n r h in
      (codes "GET", codes "/", ap (λ (q : Parsed). q.method) e, ap (λ (q : Parsed). q.path) e);
}

-- The port of a text that is "81", and no text of a socket address.
abbrev numbers : Numbers
numbers = record {
  parse_u16 = λ s. if eq_ignore_ascii_case s (codes "81") then some 81 else none;
  parse_socket = λ s. none;
}

-- The buffer grows in this run, and the bytes come in pieces.
abbrev small : RwBuffer
small = record { buf = 0 ∷ 0 ∷ []; read_cursor = 0; write_cursor = 0 }

small-IsUsable : IsUsable small
small-IsUsable = (record { ordered = omega arith; within = omega arith }, omega arith)

small-read_buf : read_buf small ≡ []
unfolding read_buf
small-read_buf = refl

abbrev ask : ClientConnRequest
ask = record { cmd = connect_tcp; address = site }

abbrev pieces : List ℕ
pieces = 1 ∷ 2 ∷ 1 ∷ 3 ∷ 1 ∷ 1 ∷ 1 ∷ 1 ∷ 1 ∷ 1 ∷ 1 ∷ 1 ∷ []

offers_none : contains auth_no_password (0 ∷ []) ≡ true
unfolding contains
offers_none = refl

site-IsWire : IsWire plain site
unfolding is_ascii eq_bytes
site-IsWire = ((refl, refl), omega arith, omega arith)

enough_pieces : 2 + 1 + (3 + write_len site) ≤ length pieces
unfolding write_len
enough_pieces = omega arith

pieces_some : All (λ (n : ℕ). 0 < n) pieces
pieces_some = (
  omega arith,
  (
    omega arith,
    (
      omega arith,
      (
        omega arith,
        (
          omega arith,
          (
            omega arith,
            (
              omega arith,
              (omega arith, (omega arith, (omega arith, (omega arith, (omega arith, tt))))),
            ),
          ),
        ),
      ),
    ),
  ),
)

start_handshake-socks5_example :
    (link : Link) × (start_handshake plain numbers lines pieces small
        (greeting (0 ∷ []) ++ (request ask ++ (9 ∷ [])))
      ≡ some (respond_auth auth_no_password [], success (by_socks5, tcp site) link))
    × (read_buf link.buf ++ link.input ≡ 9 ∷ [])
start_handshake-socks5_example =
    start_handshake-socks5 plain plain-TextLaws numbers lines lines-HttparseLaws (0 ∷ []) (9 ∷ [])
      ask (tcp site) small pieces offers_none site-IsWire (inl (refl, refl)) small-IsUsable
      small-read_buf pieces_some enough_pieces

site-IsSent : IsSent plain site
unfolding is_ascii
site-IsSent = (refl, omega arith, omega arith)

pieces_for_request : 6 + write_len site ≤ length pieces
unfolding write_len
pieces_for_request = omega arith

request_socks5-start_handshake_example :
    (written : Bytes) × (reply : Bytes) × (link : Link) × (start_handshake plain numbers lines
        pieces small
        (written ++ (9 ∷ []))
      ≡ some (respond_auth auth_no_password [], success (by_socks5, tcp site) link))
    × (read_buf link.buf ++ link.input ≡ 9 ∷ [])
    × (respond_ok by_socks5 (some (SocketAddr.v4 7 80)) ≡ ok reply)
    × (request_socks5 plain ask (respond_auth auth_no_password [] ++ (reply ++ (8 ∷ [])))
        ≡ record { written = written; answer = ok (ip (SocketAddr.v4 7 80), 8 ∷ []) })
request_socks5-start_handshake_example =
    request_socks5-start_handshake plain plain-TextLaws numbers lines lines-HttparseLaws (9 ∷ [])
      (8 ∷ []) ask (tcp site) (SocketAddr.v4 7 80) small pieces site-IsWire site-IsSent
      (omega arith, omega arith) (inl (refl, refl)) small-IsUsable small-read_buf pieces_some
      pieces_for_request

-- Nine bytes of a greeting with eight methods.
abbrev nine : Bytes
nine = 5 ∷ 8 ∷ 0 ∷ 1 ∷ 2 ∷ 3 ∷ 4 ∷ 5 ∷ 6 ∷ []

nine-detect : detect plain numbers lines start nine ≡ again socks5_partial
unfolding detect detect_all parse_greeting parse_socks4_request parse_http lines
nine-detect = refl

detect-narrowed_example :
    Alike
      (detect plain numbers lines socks5_partial (nine ++ (7 ∷ [])))
      (detect plain numbers lines start (nine ++ (7 ∷ [])))
detect-narrowed_example =
    detect-narrowed plain numbers lines lines-HttparseStays nine (7 ∷ []) socks5_partial nine-detect

http-known_scheme : known_scheme (codes "http") ≡ ok (false, 80)
unfolding known_scheme eq_ignore_ascii_case
http-known_scheme = refl

digits-parse_u16 : numbers.parse_u16 (codes "81") ≡ some 81
unfolding eq_ignore_ascii_case
digits-parse_u16 = refl

http_url_from_str-parts_example :
    http_url_from_str plain numbers
      (codes "http" ++ (codes "://" ++ ((codes "ab" ++ codes ":81") ++ codes "/x")))
    ≡ ok (record {
      is_https = false;
      address = from_host plain (codes "ab") 81;
      path = or_root (codes "/x");
    })
http_url_from_str-parts_example =
    http_url_from_str-parts numbers plain (codes "http") (codes "ab") (codes ":81") (codes "/x")
      (some 81) false 80 http-known_scheme (refl, (refl, (refl, (refl, tt)))) (refl, (refl, tt))
      (refl, (refl, tt)) (omega arith)
      (with_port 81 (codes "81") (refl, (refl, tt)) (refl, (refl, tt)) (omega arith)
        digits-parse_u16)
      (slash (codes "x"))
