-- ===== src/Handshake/Clients.antt =====
-- A SOCKS5 client whose greeting and request arrive in any pieces.
use cpxy.Base.{
  ℕ, zero, suc, ◌+◌, ◌-◌, ◌<◌, ◌≤◌, ◌≡◌, refl, ap, ◌∙◌, true, ◌⊎◌, inl, inr, none, some, List, [],
  ◌∷◌, ◌++◌, Bytes, length, take, if◌then◌else◌, arith, All, length-append, drop-append,
  take-append_le, take-append_ge, take_split, ok,
}
use cpxy.Net.{Text, TextLaws}
use cpxy.Address.{write_len, is_unspecified}
use cpxy.Address.Encoding.{encode, IsWire, parse-encode, length-encode}
use cpxy.Address.Incremental.{parse_truncated}
use cpxy.Socks5.{
  parse_request, ClientConnRequest, after_address, connect_tcp, bind_udp, respond_auth,
  auth_no_password,
}
use cpxy.Http.{Httparse}
use cpxy.Url.{Numbers}
use cpxy.RwBuffer.{RwBuffer, read_buf}
use cpxy.Handshake.{
  by_socks5, HandshakeRequest, tcp, udp, done, Link, success, contains, handshake_turn,
  handshake_command, handshake_socks5, greeted, of_socks5, proxied, detected, start_handshake,
  start,
}
use cpxy.Handshake.Loop.{IsUsable, Decides, read_until_lem}
use cpxy.Handshake.Detection.{HttparseLaws, greeting, Socks5Open, detect-greeting}

-- What a client sends to ask for `r`, and what it asks for.
abbrev pub request : ClientConnRequest → Bytes
request r = 5 ∷ r.cmd ∷ 0 ∷ encode r.address

abbrev pub Asks : ClientConnRequest → HandshakeRequest → Type 0
Asks r q =
    ((r.cmd ≡ connect_tcp) × (q ≡ tcp r.address))
    ⊎ ((r.cmd ≡ bind_udp) × (q ≡ udp (if is_unspecified r.address then none else some r.address)))

command-Asks :
    (r : ClientConnRequest) (q : HandshakeRequest) (n : ℕ)
    → Asks r q
    → handshake_command r n ≡ done n q
unfolding handshake_command
command-Asks r q n (inl (e, f)) = rw (e, f) refl
command-Asks r q n (inr (e, f)) = rw (e, f) refl

module _ (text : Text) (laws : TextLaws text) (r : ClientConnRequest)
    (wire : IsWire text r.address) where
  request_before :
      (rest : Bytes) (n : ℕ)
      → n < 3 + write_len r.address
      → parse_request text (take n (request r ++ rest)) ≡ ok none
  unfolding parse_request after_address
  request_before rest zero h = refl
  request_before rest (suc zero) h = refl
  request_before rest (suc (suc zero)) h = refl
  request_before rest (suc (suc (suc n))) h =
      let e = encode r.address in
      let size = length-encode r.address in
      let (x, back, split) = take_split n e (omega (arith, size)) in
      let short = take-append_le n e rest (omega (arith, size)) in
      rw (short, parse_truncated text laws r.address (take n e) back x wire split) (ground arith)

  request_behind :
      (rest : Bytes) (n : ℕ)
      → 3 + write_len r.address ≤ n
      → parse_request text (take n (request r ++ rest)) ≡ ok (some (3 + write_len r.address, r))
  unfolding parse_request after_address
  request_behind rest zero h = absurd (omega arith)
  request_behind rest (suc zero) h = absurd (omega arith)
  request_behind rest (suc (suc zero)) h = absurd (omega arith)
  request_behind rest (suc (suc (suc n))) h =
      let e = encode r.address in
      let size = length-encode r.address in
      let whole = take-append_ge n e rest (omega (arith, size)) in
      rw (whole, parse-encode text laws r.address (take (n - length e) rest) wire) (ground arith)

  turn-request :
      (rest : Bytes) (q : HandshakeRequest)
      → Asks r q
      → Decides
          (λ (p : Unit) (buf : Bytes). handshake_turn (parse_request text buf))
          (λ (p : Unit). Unit)
          (request r ++ rest)
          (3 + write_len r.address)
          q
  unfolding handshake_turn
  turn-request rest q a = record {
    before = λ p n o h. (tt, rw (request_before rest n h) refl, tt);
    behind = λ p n o h. rw (request_behind rest n h) (command-Asks r q _ a);
  }

module _ (text : Text) (laws : TextLaws text) (numbers : Numbers) (httparse : Httparse)
    (http : HttparseLaws httparse) where
  -- A SOCKS5 client that offers no authentication and then asks to connect or for UDP, for an
  -- address with a wire form, is served: from an empty buffer of at least two bytes, with reads
  -- that return at least one byte and as many of them as the client sends bytes, the handshake
  -- ends with what was asked, replies the method 0, and leaves exactly what follows the request.
  -- The parser of HTTP fails on control characters and wants more on no bytes.
  pub start_handshake-socks5 :
      (auths rest : Bytes) (r : ClientConnRequest) (q : HandshakeRequest) (s : RwBuffer)
      (sizes : List ℕ)
      → contains auth_no_password auths ≡ true
      → IsWire text r.address
      → Asks r q
      → IsUsable s
      → read_buf s ≡ []
      → All (λ (n : ℕ). 0 < n) sizes
      → (2 + length auths) + (3 + write_len r.address) ≤ length sizes
      → (link : Link) × (start_handshake text numbers httparse sizes s
            (greeting auths ++ (request r ++ rest))
          ≡ some (respond_auth auth_no_password [], success (by_socks5, q) link))
        × (read_buf link.buf ++ link.input ≡ rest)
  unfolding start_handshake detected proxied handshake_socks5 of_socks5 greeted
  start_handshake-socks5 auths rest r q s sizes c wire a u e l h =
      let more = request r ++ rest in
      let len = length-append (greeting auths) more in
      let enough = length-append (request r) rest in
      let size = length-encode r.address in
      let (s1, input1, sizes1, e1, u1, d1, l1, r1) =
        read_until_lem _ (Socks5Open text numbers httparse http) _ _ _
          (detect-greeting text numbers httparse http auths more) sizes start s
          (greeting auths ++ more) (inl refl) u
          (ap (λ (x : Bytes). x ++ (greeting auths ++ more)) e) (omega (arith, len)) l
          (omega (arith, ap length e)) in
      let (s2, input2, sizes2, e2, u2, d2, l2, r2) =
        read_until_lem _ (λ (p : Unit). Unit) _ _ _ (turn-request text laws r wire rest q a) sizes1
          tt s1 input1 tt u1
          (d1 ∙ drop-append (2 + length auths) (greeting auths) more (omega arith))
          (omega (arith, enough, size)) l1 (omega (arith, r1, ap length e)) in
      (
        record { buf = s2; input = input2; sizes = sizes2 },
        rw (e1, c, e2) refl,
        d2 ∙ drop-append (3 + write_len r.address) (request r) rest (omega (arith, size)),
      )
