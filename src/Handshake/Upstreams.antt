-- ===== src/Handshake/Upstreams.antt =====
-- `request_socks5` of src/protocol/socks5 against the handshake of src/handshake.rs: what the client
-- of one proxy writes is what the server of another takes.
use cpxy.Base.{
  ℕ, ◌+◌, ◌≤◌, ◌<◌, ◌≡◌, refl, ap, ◌∙◌, some, List, [], ◌∷◌, ◌++◌, Bytes, length, All, arith, ok,
  append_assoc,
}
use cpxy.Net.{Text, TextLaws, SocketAddr, IsPlain}
use cpxy.Address.{ip, write_len}
use cpxy.Address.Encoding.{encode, IsWire, write-encode}
use cpxy.Address.Stream.RoundTrip.{IsSent, sent-Fits}
use cpxy.Socks5.{
  ClientConnRequest, auth_no_password, granted, write_greeting, write_request, respond_auth,
}
use cpxy.Socks5.Messages.{read_auth-respond_auth, read_response-respond}
use cpxy.Socks5.Upstream.{
  response_read, request_written, auth_read, greeting_written, request_socks5,
}
use cpxy.Http.{Httparse}
use cpxy.Url.{Numbers}
use cpxy.RwBuffer.{RwBuffer, read_buf}
use cpxy.Handshake.{
  HandshakeRequest, by_socks5, Link, success, contains, start_handshake, respond_ok,
}
use cpxy.Handshake.Loop.{IsUsable}
use cpxy.Handshake.Detection.{HttparseLaws, greeting}
use cpxy.Handshake.Clients.{request, Asks, start_handshake-socks5}

write_request-request :
    (text : Text) (r : ClientConnRequest) (w : Bytes)
    → IsSent text r.address
    → write_request r w ≡ ok (w ++ request r)
unfolding write_request
write_request-request text r w h =
    write-encode r.address (w ++ (0x5 ∷ r.cmd ∷ 0 ∷ [])) (sent-Fits text r.address h)
    ∙ ap ok (append_assoc w (0x5 ∷ r.cmd ∷ 0 ∷ []) (encode r.address))

-- The client reads the two answers of a server that grants the request.
request_socks5-granted :
    (text : Text) (r : ClientConnRequest) (bound : SocketAddr) (more : Bytes)
    → IsSent text r.address
    → IsPlain bound
    → (reply : Bytes) × (respond_ok by_socks5 (some bound) ≡ ok reply)
      × (request_socks5 text r (respond_auth auth_no_password [] ++ (reply ++ more)) ≡ record {
        written = greeting (auth_no_password ∷ []) ++ request r;
        answer = ok (ip bound, more);
      })
unfolding request_socks5 greeting_written auth_read request_written response_read write_greeting
    respond_ok
request_socks5-granted text r bound more h b =
    let (reply, sent, read) = read_response-respond text granted (ip bound) more b in
    let g = greeting (auth_no_password ∷ []) in
    (
      reply,
      sent,
      ap (auth_read text r g) (read_auth-respond_auth auth_no_password (reply ++ more))
          ∙ ap (request_written text r g (reply ++ more)) (write_request-request text r g h)
          ∙ ap (response_read (g ++ request r)) read,
    )

module _ (text : Text) (laws : TextLaws text) (numbers : Numbers) (httparse : Httparse)
    (http : HttparseLaws httparse) where
  -- A SOCKS5 upstream and the handshake of a server understand each other. For a request to
  -- connect or for UDP whose address has a wire form, with text that is valid: the bytes that
  -- request_socks5 writes, and any that follow, make start_handshake of a server (under the
  -- conditions of start_handshake-socks5, with six reads and one for each byte of the address)
  -- answer the method 0, end with what was asked and leave exactly the bytes that follow; and
  -- when the server then sends respond_ok with an address that its bytes can carry,
  -- request_socks5 returns that address and reads no further.
  pub request_socks5-start_handshake :
      (rest more : Bytes) (r : ClientConnRequest) (q : HandshakeRequest) (bound : SocketAddr)
      (s : RwBuffer) (sizes : List ℕ)
      → IsWire text r.address
      → IsSent text r.address
      → IsPlain bound
      → Asks r q
      → IsUsable s
      → read_buf s ≡ []
      → All (λ (n : ℕ). 0 < n) sizes
      → 6 + write_len r.address ≤ length sizes
      → (written : Bytes) × (reply : Bytes) × (link : Link) × (start_handshake text numbers httparse
            sizes s
            (written ++ rest)
          ≡ some (respond_auth auth_no_password [], success (by_socks5, q) link))
        × (read_buf link.buf ++ link.input ≡ rest)
        × (respond_ok by_socks5 (some bound) ≡ ok reply)
        × (request_socks5 text r (respond_auth auth_no_password [] ++ (reply ++ more))
            ≡ record { written = written; answer = ok (ip bound, more) })
  unfolding contains
  request_socks5-start_handshake rest more r q bound s sizes wire sent plain a u e l h =
      let g = greeting (auth_no_password ∷ []) in
      let (reply, said, read) = request_socks5-granted text r bound more sent plain in
      let (link, served, left) =
        start_handshake-socks5 text laws numbers httparse http (auth_no_password ∷ []) rest r q s
          sizes refl wire a u e l (omega arith) in
      (
        g ++ request r,
        reply,
        link,
        ap (start_handshake text numbers httparse sizes s) (append_assoc g (request r) rest)
            ∙ served,
        left,
        said,
        read,
      )
