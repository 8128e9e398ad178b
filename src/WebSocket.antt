-- ===== src/WebSocket.antt =====
-- src/ws.rs: what a client adds to a request to open a web socket, and what a server asks of it.
-- The status of the response, and the reads of request and response, are not here.
use cpxy.Base.{
  not, ◌&&◌, ltb, length, Option, none, some, [], Bytes, if◌then◌else◌, codes, eq_ignore_ascii_case,
  Error, message,
}
use cpxy.Net.{Text}
use cpxy.Http.{HttpRequest}
use cpxy.Http.Builder.{put_header_text, finalise, get_header_text}

-- `negotiate_websocket`: the bytes that it writes.
unfoldable pub negotiate_request : Bytes → Bytes
negotiate_request builder =
    let b1 = put_header_text builder (codes "Connection") (codes "Upgrade") in
    let b2 = put_header_text b1 (codes "Upgrade") (codes "Websocket") in
    let b3 = put_header_text b2 (codes "Sec-WebSocket-Version") (codes "13") in
    finalise (put_header_text b3 (codes "Sec-WebSocket-Key") (codes "dGhlIHNhbXBsZSBub25jZQ=="))

-- `unwrap_or_default`.
unfoldable pub or_empty : Option Bytes → Bytes
or_empty none = []
or_empty (some s) = s

-- What `serve_websocket` returns: the key, an error behind a response that it wrote, or an error.
pub data Served : Type 0 where
  served : Bytes → Served
  not_found : Bytes → Error → Served
  not_get : Error → Served

-- The conditions of `serve_websocket`, on the method and four headers.
unfoldable pub serve_with : Bytes → Bytes → Bytes → Bytes → Bytes → Served
serve_with method connection upgrade version websocket_key =
    if not (eq_ignore_ascii_case method (codes "get"))
    then not_get (message "Expecting GET method")
    else if eq_ignore_ascii_case connection (codes "upgrade")
        && (eq_ignore_ascii_case upgrade (codes "websocket")
            && (eq_ignore_ascii_case version (codes "13") && ltb 0 (length websocket_key)))
    then served websocket_key
    else not_found (codes "HTTP/1.1 404 Not found\r\n\r\n") (message "Invalid websocket parameters")

unfoldable pub header_or_empty : Text → HttpRequest → Bytes → Bytes
unfolding or_empty
header_or_empty text req n = or_empty (get_header_text text req.headers n)

-- `serve_websocket`, of a request that was read: the key that it keeps.
unfoldable pub serve_websocket : Text → HttpRequest → Served
unfolding serve_with header_or_empty
serve_websocket text req =
    serve_with req.method (header_or_empty text req (codes "connection"))
      (header_or_empty text req (codes "upgrade"))
      (header_or_empty text req (codes "sec-websocket-version"))
      (header_or_empty text req (codes "sec-websocket-key"))
