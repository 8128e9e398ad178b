-- ===== src/Cipher/Opening/Accept.antt =====
-- A client that opens a connection under a cipher, and the server that accepts it.
use cpxy.Base.{ℕ, ◌+◌, ◌<◌, ◌^◌, ◌≡◌, refl, ap, ◌∙◌, Option, some, Bytes, ok, arith, length}
use cpxy.Net.{Text}
use cpxy.Http.{HttpRequest, Httparse, parse_http, request_of_status}
use cpxy.Cipher.{Mask}
use cpxy.Cipher.Strategy.{StrategyCipher}
use cpxy.Cipher.Strategy.Position.{encrypted, state_at, wrap_cipher-state_at}
use cpxy.Cipher.Opening.{Codec, ChaCha20, CipherParams, create_cipher, params_text}
use cpxy.Cipher.Opening.Params.{CodecLaws, params_from_str-params_text}
use cpxy.Cipher.Opening.Connect.{
  Opened, checked, accepted, connect_request, connect, connect_with, opened_with, seal_with,
  wrapped, check_cipher, check_params, check_request, with_initial, decoded, opened_data,
  accept_checked, accept_served, accept_client,
}
use cpxy.Cipher.Opening.Seal.{IsLimit, limit-IsSize, limit-IsNonZero, seal-start, apply-sealed}
use cpxy.Cipher.Opening.Asked.{
  KeepsAscii, asked, Reads, parse_http-Reads, request-asked, serve-headers, serve-asked,
}

module _ (codec : Codec) (laws : CodecLaws codec) (chacha20 : ChaCha20) (mask : Mask)
    (law : (p b : ℕ) → mask p (mask p b) ≡ b) (params : CipherParams)
    (send : IsLimit params.send_strategy) (recv : IsLimit params.recv_strategy)
    (type : params.cipher_type ≡ 1) (keyed : chacha20 params.key params.iv ≡ some mask) where
  check_request-params :
      check_request codec chacha20 (params_text codec params)
      ≡ checked mask (state_at params.send_strategy 0) (state_at params.recv_strategy 0)
  unfolding check_request check_params create_cipher wrapped check_cipher
  check_request-params =
      ap (check_params chacha20) (
        params_from_str-params_text codec laws params (limit-IsNonZero _ send)
          (limit-IsNonZero _ recv) (omega arith))
      ∙ ap (check_cipher params) created
      ∙ (λ i.
          wrapped mask (wrap_cipher-state_at params.send_strategy (limit-IsSize _ send) i)
            (wrap_cipher-state_at params.recv_strategy (limit-IsSize _ recv) i))
    where
      created : create_cipher chacha20 params.cipher_type params.key params.iv ≡ ok mask
      created = rw (type, keyed) refl

  module _ (initial_data : Bytes) (short : length initial_data < 2 ^ 63) where
    abbrev sealed_data : Bytes
    sealed_data = encrypted mask params.send_strategy 0 initial_data

    abbrev pub left_at : StrategyCipher
    left_at = state_at params.send_strategy (0 + length initial_data)

    with_initial-sealed :
        with_initial codec mask
          (state_at params.send_strategy 0)
          (state_at params.recv_strategy 0)
          (some (codec.base64 sealed_data))
        ≡ accepted (some initial_data) mask left_at (state_at params.recv_strategy 0)
    unfolding with_initial decoded opened_data
    with_initial-sealed =
        ap (decoded mask (state_at params.send_strategy 0) (state_at params.recv_strategy 0))
          (laws.decode_engine-base64 sealed_data)
        ∙ ap (opened_data mask (state_at params.recv_strategy 0))
            (apply-sealed mask params.send_strategy initial_data law send short)

    connect-eq :
        (host : Bytes) (auth : Option Bytes)
        → connect codec chacha20 params host auth initial_data
          ≡ some (record {
            request = connect_request codec params host auth sealed_data;
            sealed = sealed_data;
            rd_cipher = state_at params.recv_strategy 0;
            wr_cipher = left_at;
          })
    unfolding connect connect_with opened_with seal_with
    connect-eq host auth =
        ap (connect_with codec params host auth initial_data) keyed
        ∙ (λ i.
            opened_with codec params host auth
              (seal_with mask (wrap_cipher-state_at params.send_strategy (limit-IsSize _ send) i)
                initial_data)
              (wrap_cipher-state_at params.recv_strategy (limit-IsSize _ recv) i))
        ∙ ap
            (λ (o : Option (Bytes × StrategyCipher)).
              opened_with codec params host auth o (some (state_at params.recv_strategy 0)))
            (seal-start mask params.send_strategy initial_data send short)

-- A server accepts what a client sends to open a connection under a cipher: for strategies whose
-- limit is above 0 and below 2 ^ 63, cipher type 1 with a key and an initial value that the
-- cipher library takes, a keystream that undoes itself, and first data shorter than 2 ^ 63
-- bytes, connect does not panic; the request that it writes, where httparse reads it with the
-- parts that were put in, is accepted with the client's first data in clear, the server's
-- reading cipher in the state of the client's writing one and its writing cipher in the state of
-- the client's reading one. Base64 and numbers are read back as they are written, and ASCII is
-- UTF-8.
pub accept_client-connect :
    (codec : Codec) (laws : CodecLaws codec) (text : Text) (ascii : KeepsAscii text)
    (httparse : Httparse) (chacha20 : ChaCha20) (mask : Mask) (params : CipherParams) (host : Bytes)
    (auth : Option Bytes) (initial_data : Bytes) (n : ℕ)
    → ((p b : ℕ) → mask p (mask p b) ≡ b)
    → IsLimit params.send_strategy
    → IsLimit params.recv_strategy
    → params.cipher_type ≡ 1
    → chacha20 params.key params.iv ≡ some mask
    → length initial_data < 2 ^ 63
    → Reads httparse n
        (asked codec params host auth (encrypted mask params.send_strategy 0 initial_data))
    → (opened : Opened) × (req : HttpRequest) × (connect codec chacha20 params host auth
          initial_data
        ≡ some opened)
      × (parse_http httparse opened.request ≡ ok (some (n, req)))
      × (accept_client codec chacha20 text req
          ≡ accepted (some initial_data) mask opened.wr_cipher opened.rd_cipher)
unfolding parse_http request_of_status accept_client accept_served accept_checked asked
accept_client-connect codec laws text ascii httparse chacha20 mask params host auth initial_data n
      law send recv type keyed short reads =
    let sealed = encrypted mask params.send_strategy 0 initial_data in
    let (c, u, v, k, d) = serve-headers codec text ascii params host sealed auth in
    (
      record {
        request = connect_request codec params host auth sealed;
        sealed = sealed;
        rd_cipher = state_at params.recv_strategy 0;
        wr_cipher = state_at params.send_strategy (0 + length initial_data);
      },
      asked codec params host auth sealed,
      connect-eq codec laws chacha20 mask law params send recv type keyed initial_data short host
          auth,
      ap (parse_http httparse) (request-asked codec params host auth sealed)
          ∙ parse_http-Reads httparse n (asked codec params host auth sealed) reads,
      (λ i.
            accept_served codec (d i)
              (check_request-params codec laws chacha20 mask law params send recv type keyed i)
              (serve-asked codec text ascii params host sealed auth i))
          ∙ with_initial-sealed codec laws chacha20 mask law params send recv type keyed
              initial_data short,
    )
