-- ===== src/Cipher/Opening/Connect.antt =====
-- src/protocol/tcpman/cipher: `connect` of client.rs, `check_request` and `accept_client` of
-- server.rs. The key and the initial value, which the client draws at random, are arguments.
use cpxy.Base.{
  ltb, Option, none, some, Bytes, length, if◌then◌else◌, codes, Result, ok, err, Error, message,
}
use cpxy.Net.{Text}
use cpxy.Http.{HttpRequest}
use cpxy.Http.Builder.{new, put_header_text, get_header}
use cpxy.WebSocket.{Served, served, not_found, not_get, negotiate_request, serve_websocket}
use cpxy.Cipher.{Mask}
use cpxy.Cipher.Strategy.{StrategyCipher, wrap_cipher, apply}
use cpxy.Cipher.Opening.{Codec, ChaCha20, CipherParams, create_cipher, params_text, params_from_str}

-- What the client has when the server has agreed: the request that it wrote, and its two ciphers.
pub record Opened : Type 0 where
  pub request : Bytes
  pub sealed : Bytes
  pub rd_cipher : StrategyCipher
  pub wr_cipher : StrategyCipher

-- The ciphers that a request asks for, or the response and the message that refuse it.
pub data Checked : Type 0 where
  checked : Mask → StrategyCipher → StrategyCipher → Checked
  refused : Bytes → Error → Checked
  panicked : Checked

-- What `accept_client` returns: `rejected` wrote a response, `failed` none.
pub data Accepted : Type 0 where
  accepted : Option Bytes → Mask → StrategyCipher → StrategyCipher → Accepted
  rejected : Bytes → Error → Accepted
  failed : Error → Accepted
  panicked : Accepted

abbrev pub initial_data_header : Bytes
initial_data_header = codes "X-Cache-Key"

-- The first data is encrypted if there is any.
unfoldable pub seal : Mask → StrategyCipher → Bytes → Option (Bytes × StrategyCipher)
seal mask wr_cipher initial_data =
    if ltb 0 (length initial_data)
    then apply mask wr_cipher initial_data
    else some (initial_data, wr_cipher)

unfoldable pub seal_with : Mask → Option StrategyCipher → Bytes → Option (Bytes × StrategyCipher)
seal_with mask none initial_data = none
seal_with mask (some wr_cipher) initial_data = seal mask wr_cipher initial_data

unfoldable pub wrapped : Mask → Option StrategyCipher → Option StrategyCipher → Checked
wrapped mask (some rd_cipher) (some wr_cipher) = checked mask rd_cipher wr_cipher
wrapped mask _ _ = Checked.panicked

unfoldable pub check_cipher : CipherParams → Result Mask → Checked
unfolding wrapped
check_cipher p (err e) =
    refused (codes "HTTP/1.1 401 Invalid type\r\n\r\n") (message "Invalid cipher type")
check_cipher p (ok mask) = wrapped mask (wrap_cipher p.send_strategy) (wrap_cipher p.recv_strategy)

-- The server reads with what the client sends with.
unfoldable pub check_params : ChaCha20 → Result CipherParams → Checked
unfolding check_cipher
check_params chacha20 (err e) =
    refused (codes "HTTP/1.1 404 Not found\r\n\r\n") (message "Invalid PATH")
check_params chacha20 (ok p) = check_cipher p (create_cipher chacha20 p.cipher_type p.key p.iv)

unfoldable pub opened_data : Mask → StrategyCipher → Option (Bytes × StrategyCipher) → Accepted
opened_data mask wr_cipher none = Accepted.panicked
opened_data mask wr_cipher (some (plain, rd_cipher)) =
    accepted (some plain) mask rd_cipher wr_cipher

unfoldable pub decoded : Mask → StrategyCipher → StrategyCipher → Result Bytes → Accepted
unfolding opened_data
decoded mask rd_cipher wr_cipher (err e) = failed e
decoded mask rd_cipher wr_cipher (ok bytes) =
    opened_data mask wr_cipher (apply mask rd_cipher bytes)

module _ (codec : Codec) where
  unfoldable pub put_auth : Option Bytes → Bytes → Bytes
  put_auth none builder = builder
  put_auth (some auth) builder = put_header_text builder (codes "Authorization") auth

  unfoldable pub connect_request : CipherParams → Bytes → Option Bytes → Bytes → Bytes
  unfolding put_auth
  connect_request params host auth sealed =
      let b0 = new (codes "GET") (params_text codec params) in
      let b1 = put_header_text b0 (codes "Host") host in
      let b2 = put_header_text b1 initial_data_header (codec.base64 sealed) in
      negotiate_request (put_auth auth b2)

  unfoldable pub opened_with :
      CipherParams
      → Bytes
      → Option Bytes
      → Option (Bytes × StrategyCipher)
      → Option StrategyCipher
      → Option Opened
  opened_with params host auth (some (sealed, wr_cipher)) (some rd_cipher) = some (record {
    request = connect_request params host auth sealed;
    sealed = sealed;
    rd_cipher = rd_cipher;
    wr_cipher = wr_cipher;
  })
  opened_with params host auth _ _ = none

  unfoldable pub connect_with :
      CipherParams → Bytes → Option Bytes → Bytes → Option Mask → Option Opened
  unfolding opened_with seal_with
  connect_with params host auth initial_data none = none
  connect_with params host auth initial_data (some mask) =
      opened_with params host auth (seal_with mask (wrap_cipher params.send_strategy) initial_data)
        (wrap_cipher params.recv_strategy)

  -- `connect`, for a server that agrees; `none` is a panic.
  unfoldable pub connect : ChaCha20 → CipherParams → Bytes → Option Bytes → Bytes → Option Opened
  unfolding connect_with
  connect chacha20 params host auth initial_data =
      connect_with params host auth initial_data (chacha20 params.key params.iv)

  unfoldable pub check_request : ChaCha20 → Bytes → Checked
  unfolding check_params
  check_request chacha20 path = check_params chacha20 (params_from_str codec path)

  unfoldable pub with_initial : Mask → StrategyCipher → StrategyCipher → Option Bytes → Accepted
  unfolding decoded
  with_initial mask rd_cipher wr_cipher none = accepted none mask rd_cipher wr_cipher
  with_initial mask rd_cipher wr_cipher (some value) =
      decoded mask rd_cipher wr_cipher (codec.decode_engine value)

  unfoldable pub accept_checked : Option Bytes → Checked → Accepted
  unfolding with_initial
  accept_checked value Checked.panicked = Accepted.panicked
  accept_checked value (refused response e) = rejected response e
  accept_checked value (checked mask rd_cipher wr_cipher) =
      with_initial mask rd_cipher wr_cipher value

  unfoldable pub accept_served : Option Bytes → Checked → Served → Accepted
  unfolding accept_checked
  accept_served value c (not_get e) = failed e
  accept_served value c (not_found response e) = rejected response e
  accept_served value c (served key) = accept_checked value c

  -- `accept_client`, of a request that was read.
  unfoldable pub accept_client : ChaCha20 → Text → HttpRequest → Accepted
  unfolding accept_served check_request
  accept_client chacha20 text req =
      accept_served (get_header req.headers initial_data_header) (check_request chacha20 req.path)
        (serve_websocket text req)
