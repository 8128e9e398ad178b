-- ===== src/Handshake.antt =====
-- src/handshake.rs: which protocol a client speaks, and what it asks for. The stream is its bytes
-- that are still to come and the most bytes that each read returns. `none` is a panic of the buffer.
pub mod Loop
pub mod Detection
pub mod Clients
pub mod Upstreams
pub mod Narrowing
use cpxy.Base.{
  ℕ, ◌+◌, ◌==◌, ltb, min, Bool, true, false, not, ◌||◌, Option, none, some, List, [], ◌∷◌, ◌++◌,
  Bytes, length, take, drop, if◌then◌else◌, codes, eq_ignore_ascii_case, Result, ok, err, Error,
  message, ◌>>=◌, context,
}
use cpxy.Net.{Text, SocketAddr}
use cpxy.Address.{Address, ip, unspecified, is_unspecified}
use cpxy.Socks4
use cpxy.Socks4.{parse_socks4_request, request_tcp, respond_socks4, reply_granted, reply_failed}
use cpxy.Socks5.{
  parse_greeting, parse_request, ClientConnRequest, respond, respond_auth, auth_no_password,
  auth_not_accepted, connect_tcp, bind_udp, unsupported_command, granted, failed,
}
use cpxy.Http.{Httparse, HttpRequest, parse_http}
use cpxy.Url.{Numbers, HttpUrl, http_url_from_str, address_from_str}
use cpxy.RwBuffer.{
  RwBuffer, remaining_write, read_buf, write_buf, put_slice, advance_read, advance_write,
}

pub data ParseState : Type 0 where
  start socks5_partial socks4_partial http_partial : ParseState

pub data ProxyState : Type 0 where
  socks5_greeted : Bytes → ProxyState
  socks4 : Socks4.Request → ProxyState
  http : HttpRequest → ProxyState

pub data HandshakeType : Type 0 where
  by_socks5 by_socks4 by_http by_http_tcp_channel : HandshakeType

pub data HandshakeRequest : Type 0 where
  tcp : Address → HandshakeRequest
  udp : Option Address → HandshakeRequest
  web : Address → Bool → HttpRequest → HandshakeRequest

-- One turn of a loop that reads until its parser has enough: it ends behind some bytes, it fails
-- with a reply to the client, or it goes on.
pub data Turn (S A : Type 0) : Type 0 where
  done : ℕ → A → Turn S A
  fail : Bytes → Error → Turn S A
  again : S → Turn S A

-- The state of the connection, and what a function with a reply returns.
pub record Link : Type 0 where
  pub buf : RwBuffer
  pub input : Bytes
  pub sizes : List ℕ

pub data Outcome (A : Type 0) : Type 0 where
  success : A → Link → Outcome A
  failure : Bytes → Error → Outcome A

-- `stream.read(buf.write_buf())` and `advance_write`; `d` is what was read.
unfoldable pub filled : Bytes → RwBuffer → Option RwBuffer
filled d s = elim (put_slice d s) [ none ↦ none | some s1 ↦ advance_write (length d) s1 ]

unfoldable pub advanced : {A : Type 0} → A → Bytes → List ℕ → Option RwBuffer → Option (Outcome A)
advanced a input sizes none = none
advanced a input sizes (some s) =
    some (success a (record { buf = s; input = input; sizes = sizes }))

module _ {S A : Type 0} where
  unfoldable pub read_until :
      (S → Bytes → Turn S A) → List ℕ → S → RwBuffer → Bytes → Option (Outcome A)
  read_until turn [] p s input = elim (turn p (read_buf s)) [
    | done n a ↦ advanced a input [] (advance_read n s)
    | fail reply e ↦ some (failure reply e)
    | again q ↦ some (failure [] (message "Unexpected EOF"))
  ]
  read_until turn (size ∷ sizes) p s input = elim (turn p (read_buf s)) [
    | done n a ↦ advanced a input (size ∷ sizes) (advance_read n s)
    | fail reply e ↦ some (failure reply e)
    | again q ↦
        let s1 = write_buf s in
        let d = take (min size (remaining_write s1)) input in
        if length d == 0 then some (failure [] (message "Unexpected EOF")) else elim (filled d s1) [
          | none ↦ none
          | some s2 ↦ read_until turn sizes q s2 (drop (min size (remaining_write s1)) input)
        ]
  ]

-- `ParseState::Init`: the three parsers in this order, and the state that is left if only one can
-- still succeed.
unfoldable pub detect_all :
    Result (Option (ℕ × Bytes))
    → Result (Option (ℕ × Socks4.Request))
    → Result (Option (ℕ × HttpRequest))
    → Turn ParseState ProxyState
detect_all (ok (some (offset, auths))) s4 h = done offset (socks5_greeted auths)
detect_all s5 (ok (some (offset, r))) h = done offset (socks4 r)
detect_all s5 s4 (ok (some (offset, r))) = done offset (http r)
detect_all (err e1) (err e2) (err e3) = fail [] (message "No socks5/http detected")
detect_all (err e1) (err e2) (ok none) = again http_partial
detect_all (ok none) (err e2) (err e3) = again socks5_partial
detect_all (err e1) (ok none) (err e3) = again socks4_partial
detect_all _ _ _ = again start

-- A state in which one parser is left.
unfoldable pub detect_one :
    {A : Type 0}
    → ParseState
    → (A → ProxyState)
    → Result (Option (ℕ × A))
    → Turn ParseState ProxyState
detect_one p made (err e) = fail [] e
detect_one p made (ok none) = again p
detect_one p made (ok (some (offset, a))) = done offset (made a)

unfoldable pub contains : ℕ → Bytes → Bool
contains c [] = false
contains c (x ∷ xs) = (x == c) || contains c xs

unfoldable pub handshake_socks4 : Socks4.Request → Result HandshakeRequest
handshake_socks4 r =
    if not (r.cmd == request_tcp)
    then err (message "Unsupported socks4 request")
    else ok (tcp r.addr)

-- The bytes that the reply to an unsupported command has; writing them cannot fail.
abbrev pub reply_bytes : Result Bytes → Bytes
reply_bytes (ok bytes) = bytes
reply_bytes (err e) = []

unfoldable pub handshake_command : ClientConnRequest → ℕ → Turn Unit HandshakeRequest
handshake_command r offset =
    if r.cmd == connect_tcp
    then done offset (tcp r.address)
    else if r.cmd == bind_udp
    then done offset (udp (if is_unspecified r.address then none else some r.address))
    else fail (reply_bytes (respond unsupported_command unspecified []))
        (message "Invalid socks5 command")

unfoldable pub handshake_turn : Result (Option (ℕ × ClientConnRequest)) → Turn Unit HandshakeRequest
handshake_turn (err e) = fail [] e
handshake_turn (ok none) = again tt
handshake_turn (ok (some (offset, r))) = handshake_command r offset

-- The answer to the greeting and what follows it.
unfoldable pub greeted :
    Bytes → Option (Outcome HandshakeRequest) → Option (Bytes × Outcome HandshakeRequest)
greeted reply none = none
greeted reply (some o) = some (reply, o)

abbrev pub Handshaken : Type 0
Handshaken = HandshakeType × HandshakeRequest

unfoldable pub of_socks5 :
    Option (Bytes × Outcome HandshakeRequest) → Option (Bytes × Outcome Handshaken)
of_socks5 none = none
of_socks5 (some (reply, success r link)) = some (reply, success (by_socks5, r) link)
of_socks5 (some (reply, failure more e)) = some (reply, failure more e)

unfoldable pub of_socks4 : Link → Result HandshakeRequest → Outcome Handshaken
of_socks4 link (err e) = failure [] e
of_socks4 link (ok r) = success (by_socks4, r) link

unfoldable pub of_http : Link → Result HandshakeRequest → Option (Bytes × Outcome Handshaken)
of_http link (err e) = some ([], failure [] e)
of_http link (ok (tcp dst)) = some ([], success (by_http_tcp_channel, tcp dst) link)
of_http link (ok (web dst https req)) = some ([], success (by_http, web dst https req) link)
of_http link (ok (udp dst)) = none

module _ (text : Text) (numbers : Numbers) (httparse : Httparse) where
  unfoldable pub detect : ParseState → Bytes → Turn ParseState ProxyState
  detect start buf =
      detect_all (parse_greeting buf) (parse_socks4_request text buf) (parse_http httparse buf)
  detect http_partial buf = detect_one http_partial http (parse_http httparse buf)
  detect socks5_partial buf = detect_one socks5_partial socks5_greeted (parse_greeting buf)
  detect socks4_partial buf = detect_one socks4_partial socks4 (parse_socks4_request text buf)

  unfoldable pub handshake_http : HttpRequest → Result HandshakeRequest
  handshake_http r =
      if eq_ignore_ascii_case r.method (codes "connect")
      then (do dst ← address_from_str numbers r.path; ok (tcp dst))
      else (do
        u ← context "Parsing HTTP request path" (http_url_from_str text numbers r.path)
        ok (
            web u.address u.is_https
              (record { headers = r.headers; method = r.method; path = u.path })))

  unfoldable pub handshake_socks5 : Bytes → Link → Option (Bytes × Outcome HandshakeRequest)
  handshake_socks5 auths link =
      if not (contains auth_no_password auths)
      then some
          (respond_auth auth_not_accepted [], failure [] (message "Invalid socks auth method"))
      else greeted (respond_auth auth_no_password []) (
          read_until (λ (p : Unit) (buf : Bytes). handshake_turn (parse_request text buf))
            link.sizes tt link.buf link.input)

  -- Behind the loop of `Handshaker::start`. The bytes in front are the reply to the greeting.
  unfoldable pub proxied : ProxyState → Link → Option (Bytes × Outcome Handshaken)
  proxied (socks5_greeted auths) link = of_socks5 (handshake_socks5 auths link)
  proxied (http r) link = of_http link (handshake_http r)
  proxied (socks4 r) link = some ([], of_socks4 link (handshake_socks4 r))

  unfoldable pub detected : Option (Outcome ProxyState) → Option (Bytes × Outcome Handshaken)
  detected none = none
  detected (some (failure reply e)) = some ([], failure reply e)
  detected (some (success p link)) = proxied p link

  -- `Handshaker::start`.
  unfoldable pub start_handshake : List ℕ → RwBuffer → Bytes → Option (Bytes × Outcome Handshaken)
  start_handshake sizes buf input = detected (read_until detect sizes start buf input)

-- `Handshaker::respond_ok` and `respond_err`: what they write.
unfoldable pub respond_ok : HandshakeType → Option SocketAddr → Result Bytes
respond_ok by_socks5 none = respond granted unspecified []
respond_ok by_socks5 (some addr) = respond granted (ip addr) []
respond_ok by_socks4 (some (SocketAddr.v4 addr port)) =
    ok (respond_socks4 addr port reply_granted [])
respond_ok by_socks4 _ = ok (respond_socks4 0 0 reply_granted [])
respond_ok by_http addr = ok []
respond_ok by_http_tcp_channel addr = ok (codes "HTTP/1.1 200 OK\r\n\r\n")

unfoldable pub respond_err : HandshakeType → Result Bytes
respond_err by_socks5 = respond failed unspecified []
respond_err by_socks4 = ok (respond_socks4 0 0 reply_failed [])
respond_err _ = ok (codes "HTTP/1.1 500 Internal server error\r\n\r\n")
