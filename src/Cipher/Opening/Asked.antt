-- ===== src/Cipher/Opening/Asked.antt =====
-- The request by which a client opens a connection under a cipher, as text and as headers.
use cpxy.Base.{
  ℕ, ◌<◌, ◌≡◌, refl, ap, ◌∙◌, Option, none, some, [], ◌∷◌, Bytes, codes, ok, arith, All,
  eq_ignore_ascii_case,
}
use cpxy.Net.{Text}
use cpxy.Http.{HttpRequest, Httparse, complete, parse_http, request_of_status}
use cpxy.Http.Builder.{
  Headers, to_builder, finalise, put_header, put_header_text, get_header, get_header_text,
  header_text,
}
use cpxy.WebSocket.{
  served, negotiate_request, serve_websocket, serve_with, header_or_empty, or_empty,
}
use cpxy.Cipher.Opening.{Codec, CipherParams, params_text}
use cpxy.Cipher.Opening.Connect.{connect_request, put_auth, initial_data_header}

-- The headers of the client's request.
upgrade_headers : Headers
upgrade_headers =
    (codes "Connection", codes "Upgrade")
    ∷ (codes "Upgrade", codes "Websocket")
    ∷ (codes "Sec-WebSocket-Version", codes "13")
    ∷ (codes "Sec-WebSocket-Key", codes "dGhlIHNhbXBsZSBub25jZQ==")
    ∷ []

auth_headers : Option Bytes → Headers
auth_headers none = upgrade_headers
auth_headers (some auth) = (codes "Authorization", auth) ∷ upgrade_headers

-- Text of these bytes is text.
abbrev pub KeepsAscii : Text → Type 0
KeepsAscii text = (s : Bytes) → All (λ (b : ℕ). b < 128) s → text.from_utf8 s ≡ some s

-- The request that a client with these parameters means to send.
unfoldable pub asked : Codec → CipherParams → Bytes → Option Bytes → Bytes → HttpRequest
unfolding auth_headers upgrade_headers
asked codec params host auth sealed = record {
  headers = (codes "Host", host) ∷ (initial_data_header, codec.base64 sealed) ∷ auth_headers auth;
  method = codes "GET";
  path = params_text codec params;
}

-- `httparse` reads a request that the builder wrote, with its parts.
abbrev pub Reads : Httparse → ℕ → HttpRequest → Type 0
Reads httparse n req =
    httparse (finalise (to_builder req))
    ≡ ok (
        complete n
          (record { method = some req.method; path = some req.path; headers = req.headers }))

pub parse_http-Reads :
    (httparse : Httparse) (n : ℕ) (req : HttpRequest)
    → Reads httparse n req
    → parse_http httparse (finalise (to_builder req)) ≡ ok (some (n, req))
unfolding parse_http request_of_status
parse_http-Reads httparse n req h = rw (h, parse_http) refl

module _ (codec : Codec) where
  pub request-asked :
      (params : CipherParams) (host : Bytes) (auth : Option Bytes) (sealed : Bytes)
      → connect_request codec params host auth sealed
        ≡ finalise (to_builder (asked codec params host auth sealed))
  unfolding connect_request put_auth negotiate_request to_builder asked put_header put_header_text
  request-asked params host none sealed = refl
  request-asked params host (some auth) sealed = refl

  module _ (text : Text) (ascii : KeepsAscii text) (params : CipherParams)
      (host sealed : Bytes) where
    -- What the server reads in the four headers.
    header-asked :
        (auth : Option Bytes) (n value : Bytes)
        → get_header (asked codec params host auth sealed).headers n ≡ some value
        → All (λ (b : ℕ). b < 128) value
        → header_or_empty text (asked codec params host auth sealed) n ≡ value
    unfolding header_or_empty get_header_text
    header-asked auth n value e h =
        ap (λ (o : Option Bytes). or_empty (header_text text o)) e ∙ ap or_empty (ascii value h)

    pub serve-headers :
        (auth : Option Bytes)
        → let headers = (asked codec params host auth sealed).headers in
          (get_header headers (codes "connection") ≡ some (codes "Upgrade"))
          × (get_header headers (codes "upgrade") ≡ some (codes "Websocket"))
          × (get_header headers (codes "sec-websocket-version") ≡ some (codes "13"))
          × (get_header headers (codes "sec-websocket-key")
              ≡ some (codes "dGhlIHNhbXBsZSBub25jZQ=="))
          × (get_header headers initial_data_header ≡ some (codec.base64 sealed))
    unfolding asked get_header eq_ignore_ascii_case
    serve-headers none = (refl, refl, refl, refl, refl)
    serve-headers (some auth) = (refl, refl, refl, refl, refl)

    pub serve-asked :
        (auth : Option Bytes)
        → serve_websocket text (asked codec params host auth sealed)
          ≡ served (codes "dGhlIHNhbXBsZSBub25jZQ==")
    unfolding serve_websocket serve_with asked eq_ignore_ascii_case
    serve-asked auth =
        let (c, u, v, k, d) = serve-headers auth in
        let connection = header-asked auth _ _ c (omega arith) in
        let upgrade = header-asked auth _ _ u (omega arith) in
        let version = header-asked auth _ _ v (omega arith) in
        let key = header-asked auth _ _ k (omega arith) in
        λ i. serve_with (codes "GET") (connection i) (upgrade i) (version i) (key i)
